-- ===== src/Block/Steps.antt =====
-- The operations of src/torrent/data/block.cc that take no transfer off the block.

use libtorrent.Common.{
  ℕ, ◌+◌, ◌-◌, ◌^◌, ◌≤◌, ◌<◌, List, Bool-cases, true, false, ◌&&◌, ◌||◌, ◌==◌, ◌≡◌, Option, none,
  some, ok, inl, inr, arith, refl, sym, ap, ◌∙◌, add32, ◌⊎◌, ltb, sub32, not,
}
use libtorrent.Common.Counting.{count, tally, tally_once, tally_never, tally-remove_one}
use libtorrent.Block.{
  World, BlockTransfer, is_queued, transfer_at, save, stalled_transfer, one_if_eager, TransferState,
  transfer_dissimilar, is_not_leader, is_at,
}
use libtorrent.Block.Shape.{waits, moves, leads, follows, dropped, eager, IsBlock, in_line}

pub transfer_at-ok :
    (w : World) (a : ℕ) (t : BlockTransfer) → w.store a ≡ some t → transfer_at w a ≡ ok t
unfolding transfer_at
transfer_at-ok w a t at = ground (arith, at)

-- The places of a transfer: in the queue, among the current ones, or on no list.
sum_once : (f : ℕ → ℕ) (a : ℕ) (hs : List ℕ) → count a hs ≡ 1 → f a ≤ tally f hs
sum_once f a hs one = omega (arith, tally-remove_one f a hs (omega (arith, one)))

pub eager-le :
    (w : World) (past current : List ℕ) (a : ℕ)
    → IsBlock w past current
    → eager (w.store a) ≤ w.block.not_stalled
eager-le w past current a i =
    let f : ℕ → ℕ = λ b. eager (w.store b) in
    elim (Bool-cases (moves (w.store a))) [
      | inl moving ↦ omega (arith, sum_once f a current (i.in_current a moving), i.counted)
      | inr still ↦ elim (Bool-cases (waits (w.store a))) [
        | inl waiting ↦
            omega (
              arith,
              sum_once f a w.block.queued (ground (arith, i.in_queue a, waiting)),
              i.counted,
            )
        | inr gone ↦
            let none_there : eager (w.store a) ≡ 0 = neither (w.store a) still gone in
            omega (arith, none_there)
      ]
    ]
  where
    neither : (o : Option BlockTransfer) → moves o ≡ false → waits o ≡ false → eager o ≡ 0
    neither none m q = refl
    neither (some t) m q = ground (arith, m, q)

clash : (o : Option BlockTransfer) → leads o || follows o || dropped o ≡ true → waits o ≡ true → ⊥
clash none k q = ground (arith, k)
clash (some t) k q = ground (arith, k, q)

pub apart :
    (w : World) (past current : List ℕ) (a : ℕ)
    → IsBlock w past current
    → waits (w.store a) ≡ true
    → count a current ≡ 0
apart w past current a i waiting = elim (Bool-cases (ltb 0 (count a current))) [
  | inr nowhere ↦ ground (arith, nowhere)
  | inl there ↦ absurd (clash (w.store a) (i.known a (ground (arith, there))) waiting)
]

pub placed :
    (o : Option BlockTransfer) (t : BlockTransfer)
    → o ≡ some t
    → t.valid ≡ true
    → (waits o ≡ true) ⊎ (moves o ≡ true)
placed o t at valid = elim (Bool-cases (is_queued t)) [
  | inl waiting ↦ inl (ground (arith, at, valid, waiting))
  | inr moving ↦ inr (ground (arith, at, valid, moving))
]

-- One transfer is changed, and what counts of it with it; the lists stay.
pub recount :
    (w : World) (past current : List ℕ) (a : ℕ) (store' : ℕ → Option BlockTransfer)
    → IsBlock w past current
    → ((b : ℕ) → (b == a) ≡ false → store' b ≡ w.store b)
    → (waits (w.store a) ≡ true) ⊎ (moves (w.store a) ≡ true)
    → tally (λ b. eager (store' b)) w.block.queued
        + tally (λ b. eager (store' b)) current
        + eager (w.store a)
      ≡ w.block.not_stalled + eager (store' a)
recount w past current a store' i same place =
    let f : ℕ → ℕ = λ b. eager (w.store b) in
    let g : ℕ → ℕ = λ b. eager (store' b) in
    let agree : (b : ℕ) → (b == a) ≡ false → f b ≡ g b = λ b ne. ap eager (sym (same b ne)) in
    elim place [
      | inl waiting ↦
          let queue =
            tally_once f g a w.block.queued agree (ground (arith, i.in_queue a, waiting)) in
          let rest = tally_never f g a current agree (apart w past current a i waiting) in
          omega (arith, queue, rest, i.counted)
      | inr moving ↦
          let queue =
            tally_never f g a w.block.queued agree (i.in_queue a ∙ off_queue (w.store a) moving) in
          let rest = tally_once f g a current agree (i.in_current a moving) in
          omega (arith, queue, rest, i.counted)
    ]
  where
    off_queue : (o : Option BlockTransfer) → moves o ≡ true → in_line o ≡ 0
    off_queue none m = refl
    off_queue (some t) m = ground (arith, m)

pub stalled_transfer-IsBlock :
    (w : World) (past current : List ℕ) (a : ℕ) (t : BlockTransfer)
    → IsBlock w past current
    → w.store a ≡ some t
    → t.valid ≡ true
    → t.stall + 1 < 2 ^ 32
    → (w' : World) × (stalled_transfer w a ≡ ok w') × IsBlock w' past current
unfolding stalled_transfer save
stalled_transfer-IsBlock w past current a t i at valid small =
    let t' : BlockTransfer = record t { stall = add32 t.stall 1 } in
    let w' : World = record (save w a t') {
      block = record w.block { not_stalled = w.block.not_stalled - one_if_eager t };
    } in
    let enough = eager-le w past current a i in
    let guard : (t.stall == 0 && w.block.not_stalled == 0) ≡ false =
      ground (arith, enough, at, valid) in
    let counts =
      recount w past current a w'.store i (λ b ne. ground (arith, ne))
        (placed (w.store a) t at valid) in
    (
      w',
      rw (transfer_at-ok w a t at) (rw guard refl),
      record {
        split = i.split;
        in_past = λ b there. ground (arith, i.in_past b there, at, valid);
        in_queue = λ b. ground (arith, i.in_queue b, at, valid);
        in_current = λ b is. i.in_current b (ground (arith, is, at, valid));
        once = i.once;
        known = λ b there. ground (arith, i.known b there, at, valid);
        one_leader = λ b. ground (arith, i.one_leader b, at, valid);
        led = λ b is. i.led b (ground (arith, is, at, valid));
        counted = ground (arith, counts, at, valid, enough);
        fits = omega (arith, i.fits);
        new = λ b is. i.new b (ground (arith, is, at));
      },
    )

-- The data of a transfer that follows and has stalled is given up.
pub transfer_dissimilar-IsBlock :
    (w : World) (past current : List ℕ) (a : ℕ) (t : BlockTransfer)
    → IsBlock w past current
    → w.store a ≡ some t
    → t.valid ≡ true
    → is_not_leader t ≡ true
    → (t.stall == 0) ≡ false
    → (w' : World) × (transfer_dissimilar w a ≡ ok w') × IsBlock w' past current
unfolding transfer_dissimilar save
transfer_dissimilar-IsBlock w past current a t i at valid behind slow =
    let t' : BlockTransfer = record t {
      state = TransferState.erased;
      position = 0;
      valid = false;
    } in
    let w' : World = record (save w a t') {
      block = record w.block { not_stalled = sub32 w.block.not_stalled (one_if_eager t) };
    } in
    let guard : (not (is_not_leader t) || is_at w.block.leader a) ≡ false =
      ground (arith, i.one_leader a, at, behind) in
    let counts =
      recount w past current a w'.store i (λ b ne. ground (arith, ne))
        (placed (w.store a) t at valid) in
    (
      w',
      rw (transfer_at-ok w a t at) (rw guard refl),
      record {
        split = i.split;
        in_past = λ b there. ground (arith, i.in_past b there, at, valid);
        in_queue = λ b. ground (arith, i.in_queue b, at, valid, behind);
        in_current = λ b is. i.in_current b (ground (arith, is, at, valid));
        once = i.once;
        known = λ b there. ground (arith, i.known b there, at, valid, slow);
        one_leader = λ b. ground (arith, i.one_leader b, at, valid, behind);
        led = λ b is. i.led b (ground (arith, is, at, valid));
        counted = ground (arith, counts, at, valid, slow, i.fits);
        fits = ground (arith, i.fits, slow);
        new = λ b is. i.new b (ground (arith, is, at));
      },
    )
