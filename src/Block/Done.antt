-- ===== src/Block/Done.antt =====
-- A block of src/torrent/data/block.cc that is completed, and `failed_leader` and `retry_transfer` on it.
use mathlib.Core.List.{append-nil}
use libtorrent.Block.Steps.{transfer_at-ok}
use libtorrent.Block.Shape.{IsBlock, waits, moves, eager, past_leader}
use libtorrent.Block.{
  World, BlockList, BlockState, BlockTransfer, on, is_at, is_leader, save, last_is, completed,
  invalidate_all, remove_non_leader_transfers, has_all, is_finished, failed_leader, retry_transfer,
  is_completed, invalid_index, one_if_eager,
}
use libtorrent.Common.Counting.{count, tally}
use libtorrent.Common.{
  ℕ, ◌+◌, ◌-◌, ◌^◌, ◌<◌, List, [], ◌∷◌, ◌++◌, true, false, ◌==◌, ◌≡◌, Option, none, some, ok, arith,
  refl, sym, ap, ◌∙◌, add32, ltb, sub32,
}

pub last_is-append : (xs : List ℕ) (a : ℕ) → last_is (xs ++ (a ∷ [])) a ≡ true
last_is-append [] a = ground arith
last_is-append (b ∷ []) a = ground arith
last_is-append (b ∷ c ∷ rest) a = last_is-append (c ∷ rest) a

-- The guards hold, and the others are thrown out one list after the other.
pub completed_ok :
    (w w1 w2 : World) (parent : BlockList) (a : ℕ) (t : BlockTransfer)
    → w.store a ≡ some t
    → t.valid ≡ true
    → is_leader t ≡ true
    → is_finished w ≡ true
    → is_at w.block.leader a ≡ true
    → ltb (parent.others_finished + 1) (add32 parent.finished 1) ≡ false
    → invalidate_all
        (record (save w a (record t { valid = false; stall = 2 ^ 32 - 1 })) {
          block = record w.block { not_stalled = sub32 w.block.not_stalled (one_if_eager t) };
        })
        w.block.queued
      ≡ ok w1
    → remove_non_leader_transfers (record w1 { block = record w1.block { queued = [] } }) ≡ ok w2
    → last_is w2.block.transfers a ≡ true
    → completed w parent a
      ≡ ok (
        record w2 { block = record w2.block { state = BlockState.completed_state } },
        record parent { finished = add32 parent.finished 1 },
        add32 parent.finished 1 == parent.size,
      )
unfolding completed
completed_ok w w1 w2 parent a t at valid leading whole here room queue rest last =
    rw (transfer_at-ok w a t at)
      (rw (valid, leading, whole, here) (rw (room, queue) (rw rest (rw last refl))))

pub idle :
    (o : Option BlockTransfer) → waits o ≡ false → moves o ≡ false → on (λ u. u.valid) o ≡ false
idle none q m = refl
idle (some u) q m = ground (arith, q, m)

-- The block once its leader `a` has all of it: that transfer is kept for later reference, behind the leaders
-- of earlier attempts, and no transfer is of the block any longer.
pub record IsDone (w : World) (past : List ℕ) (a : ℕ) : Type 0 where
  pub split : w.block.transfers ≡ past ++ (a ∷ [])
  pub in_past : (c : ℕ) → 0 < count c (past ++ (a ∷ [])) → past_leader (w.store c) ≡ true
  pub free : (c : ℕ) → on (λ u. u.valid) (w.store c) ≡ false
  pub leader : w.block.leader ≡ some a
  pub whole : on has_all (w.store a) ≡ true
  pub state : w.block.state ≡ BlockState.completed_state
  pub queued : w.block.queued ≡ []
  pub counted : w.block.not_stalled ≡ 0
  pub new : (c : ℕ) → on (λ u. true) (w.store c) ≡ true → c < w.fresh

-- On a completed block failed_leader succeeds, and with retry_transfer it leaves a well-formed
-- block that is not completed, has no leader and no current transfer, and keeps the transfer that
-- completed it for reference.
pub failed_leader-IsBlock :
    (w : World) (past : List ℕ) (a : ℕ)
    → IsDone w past a
    → (w' : World) × (failed_leader w ≡ ok w')
      × IsBlock (retry_transfer w') (past ++ (a ∷ [])) []
      × (is_completed (retry_transfer w').block.state ≡ false)
unfolding failed_leader retry_transfer is_finished count tally
failed_leader-IsBlock w past a d =
    let b = w.block in
    let w' : World = record w {
      block = record b {
        leader = none;
        failed_current = elim b.failed_current [ none ↦ none | some n ↦ some invalid_index ];
      };
    } in
    let whole : is_finished w ≡ true = ground (arith, d.leader, d.whole) in
    let no_one : (c : ℕ) → count c b.queued ≡ 0 = λ c. ap (count c) d.queued in
    (
      w',
      rw whole refl,
      record {
        split = d.split ∙ sym (append-nil (past ++ (a ∷ [])));
        in_past = d.in_past;
        in_queue = λ c. ground (arith, no_one c, d.free c);
        in_current = λ c is. absurd (ground (arith, is, d.free c));
        once = λ c. omega arith;
        known = λ c there. absurd (omega (arith, there));
        one_leader = λ c. ground (arith, d.free c);
        led = λ c is. absurd (ground (arith, is, d.free c));
        counted = omega (arith, d.counted, ap (tally (λ c. eager (w.store c))) d.queued);
        fits = omega (arith, d.counted);
        new = d.new;
      },
      refl,
    )
