-- ===== src/Block/Life.antt =====
-- Any sequence of the operations of src/torrent/data/block.cc on one block, from when it has no transfer.
use libtorrent.Block.Steps.{stalled_transfer-IsBlock, transfer_dissimilar-IsBlock, transfer_at-ok}
use libtorrent.Block.Leading.{change_leader-IsBlock, transfering-IsBlock}
use libtorrent.Block.Insert.{insert-IsBlock, set_peer_info_off}
use libtorrent.Block.Release.{release-IsBlock}
use libtorrent.Block.Done.{failed_leader-IsBlock}
use libtorrent.Block.Completed.{completed-IsDone}
use libtorrent.Common.Counting.{count, count-append, tally_same}
use libtorrent.Common.{
  ℕ, ◌+◌, ◌^◌, ◌-◌, ◌<◌, ◌≤◌, List, [], ◌∷◌, true, false, not, ◌||◌, ◌==◌, ◌≡◌, some, none, Result,
  ok, arith, refl, ◌>>=◌, ◌⊎◌, inl, inr, add32, map_ok, ap, Bool-cases, err,
}
use libtorrent.Block.{
  World, BlockList, BlockTransfer, insert, transfering, stalled, change_leader, transfer_dissimilar,
  release, completed, failed_leader, retry_transfer, is_queued, is_not_leader, is_completed,
  has_all, find_peer, write_at, save,
}
use libtorrent.Block.Shape.{IsBlock, eager}

-- `failed`: the leader completes the block, the hash fails, and the block is tried again.
pub data Operation : Type 0 where
  asked_of : ℕ → ℕ → Operation
  started stalled_once chosen given_up released : ℕ → Operation
  failed : BlockList → ℕ → Operation

unfoldable pub operate : World → Operation → Result World
operate w (asked_of peer time) = map_ok (λ r. r.0) (insert w peer time)
operate w (started a) = map_ok (λ r. r.0) (transfering w a)
operate w (stalled_once a) = stalled w a
operate w (chosen a) = change_leader w a
operate w (given_up a) = transfer_dissimilar w a
operate w (released a) = release w a
operate w (failed parent a) = do
  r ← completed w parent a
  w' ← failed_leader r.0
  ok (retry_transfer w')

unfoldable pub operate_all : World → List Operation → Result World
operate_all w [] = ok w
operate_all w (o ∷ os) = operate w o >>= λ w'. operate_all w' os

-- What a caller sees to.
unfoldable pub IsAllowed : World → Operation → Type 0
IsAllowed w (asked_of peer time) =
    (find_peer w w.block.queued peer ≡ none)
    × (find_peer w w.block.transfers peer ≡ none)
    × (w.block.not_stalled + 1 < 2 ^ 32)
    × ((w.counters peer == 2 ^ 32 - 1) ≡ false)
IsAllowed w (started a) =
    (t : BlockTransfer) × (w.store a ≡ some t) × (t.valid ≡ true) × (is_queued t ≡ true)
IsAllowed w (stalled_once a) =
    (t : BlockTransfer) × (w.store a ≡ some t) × (t.valid ≡ true → t.stall + 1 < 2 ^ 32)
IsAllowed w (chosen a) =
    (t : BlockTransfer) × (l : ℕ) × (u : BlockTransfer) × (w.store a ≡ some t)
    × (t.valid ≡ true)
    × (is_not_leader t ≡ true)
    × (w.block.leader ≡ some l)
    × (w.store l ≡ some u)
    × (has_all u ≡ false)
IsAllowed w (given_up a) =
    (t : BlockTransfer) × (w.store a ≡ some t)
    × (t.valid ≡ true)
    × (is_not_leader t ≡ true)
    × ((t.stall == 0) ≡ false)
IsAllowed w (released a) =
    (t : BlockTransfer) × (p : ℕ) × (w.store a ≡ some t)
    × (t.peer_info ≡ some p)
    × ((w.counters p == 0) ≡ false)
    × (((t.valid ≡ true)
          × (is_queued t || not (has_all t) ≡ true)
          × (is_completed w.block.state ≡ false))
        ⊎ ((t.valid ≡ false) × (count a w.block.transfers ≡ 0)))
IsAllowed w (failed parent a) =
    (t : BlockTransfer) × (w.store a ≡ some t)
    × (t.valid ≡ true)
    × (w.block.leader ≡ some a)
    × (has_all t ≡ true)
    × (add32 parent.finished 1 ≤ parent.others_finished + 1)

-- Each operation is allowed where the ones before it lead, if they lead anywhere.
unfoldable pub IsSchedule : Result World → List Operation → Type 0
IsSchedule (err e) os = Unit
IsSchedule (ok w) [] = Unit
IsSchedule (ok w) (o ∷ os) = IsAllowed w o × IsSchedule (operate w o) os

IsKept : Result World → Type 0
IsKept r = (w : World) × (past : List ℕ) × (current : List ℕ) × (r ≡ ok w) × IsBlock w past current

-- A transfer that the block has thrown out is deleted.
released_late :
    (w : World) (past current : List ℕ) (a p : ℕ) (t : BlockTransfer)
    → IsBlock w past current
    → w.store a ≡ some t
    → t.peer_info ≡ some p
    → (w.counters p == 0) ≡ false
    → t.valid ≡ false
    → count a w.block.transfers ≡ 0
    → IsKept (release w a)
unfolding release save IsKept
released_late w past current a p t i at has some_left off unlisted =
    let w1 : World = record w {
      store = write_at w.store a (some (record t { peer_info = none }));
      counters = write_at w.counters p (w.counters p - 1);
    } in
    let w' : World = record w1 { store = write_at w1.store a none } in
    let run : release w a ≡ ok w' =
      rw (set_peer_info_off w a p t at has some_left)
        (rw (transfer_at-ok w1 a (record t { peer_info = none }) (ground arith)) (rw off refl)) in
    let unlisted_now : count a past + count a current ≡ 0 =
      omega (arith, unlisted, ap (count a) i.split, count-append a past current) in
    let f : ℕ → ℕ = λ c. eager (w.store c) in
    let g : ℕ → ℕ = λ c. eager (w'.store c) in
    let same : (c : ℕ) → f c ≡ g c = λ c. ground (arith, at, off) in
    (
      w',
      past,
      current,
      run,
      record {
        split = i.split;
        in_past = λ c there. ground (arith, i.in_past c there, there, unlisted_now);
        in_queue = λ c. ground (arith, i.in_queue c, at, off);
        in_current = λ c is. i.in_current c (ground (arith, is));
        once = i.once;
        known = λ c there. ground (arith, i.known c there, there, unlisted_now);
        one_leader = λ c. ground (arith, i.one_leader c, at, off);
        led = λ c is. i.led c (ground (arith, is));
        counted = omega (
          arith,
          i.counted,
          tally_same f g w.block.queued (λ c there. same c),
          tally_same f g current (λ c there. same c),
        );
        fits = i.fits;
        new = λ c is. i.new c (ground (arith, is));
      },
    )

operate-IsKept :
    (w : World) (past current : List ℕ) (o : Operation)
    → IsBlock w past current
    → IsAllowed w o
    → IsKept (operate w o)
unfolding operate IsKept IsAllowed stalled
operate-IsKept w past current (asked_of peer time) i (new_queued, new_started, small, room) =
    let (w', run, i', added) =
      insert-IsBlock w past current peer time i new_queued new_started small room in
    (w', past, current, rw run refl, i')
operate-IsKept w past current (started a) i (t, at, valid, waiting) =
    let (w', run, i', led) = transfering-IsBlock w past current a t i at valid waiting in
    (w', past, _, rw run refl, i')
operate-IsKept w past current (stalled_once a) i (t, at, small) = elim (Bool-cases t.valid) [
  | inl valid ↦
      let (w', run, i') = stalled_transfer-IsBlock w past current a t i at valid (small valid) in
      (w', past, current, rw (transfer_at-ok w a t at) (rw (valid, run) refl), i')
  | inr off ↦ (w, past, current, rw (transfer_at-ok w a t at) (rw off refl), i)
]
operate-IsKept w past current (chosen a) i (t, l, u, at, valid, behind, lead, at_l, part) =
    let (w', run, i') =
      change_leader-IsBlock w past current a l t u i at valid behind lead at_l part in
    (w', past, current, run, i')
operate-IsKept w past current (given_up a) i (t, at, valid, behind, slow) =
    let (w', run, i') = transfer_dissimilar-IsBlock w past current a t i at valid behind slow in
    (w', past, current, run, i')
operate-IsKept w past current (released a) i
      (t, p, at, has, some_left, inl (valid, part, running)) =
    let (w', next, run, i', gone, s) =
      release-IsBlock w past current a p t i at valid has some_left part running in
    (w', past, next, run, i')
operate-IsKept w past current (released a) i (t, p, at, has, some_left, inr (off, unlisted)) =
    released_late w past current a p t i at has some_left off unlisted
operate-IsKept w past current (failed parent a) i (t, at, valid, lead, whole, few) =
    let (w1, run1, d) = completed-IsDone w past current a t parent i at valid lead whole few in
    let (w2, run2, i', open_) = failed_leader-IsBlock w1 past a d in
    (retry_transfer w2, _, [], rw run1 (rw run2 refl), i')

-- From a well-formed block, any sequence of insert, transfering, stalled, change_leader,
-- transfer_dissimilar, release and of a completed block that fails its hash and is tried again,
-- each called as its caller has to (with transfers of the block, one that gives up its data stalled
-- before), never throws, and leaves a well-formed block: each transfer is on one list once, at most
-- one leads, none follows without a leader, and the number of transfers that are not stalled is
-- right.
pub operate_all-IsBlock :
    (w : World) (past current : List ℕ) (os : List Operation)
    → IsBlock w past current
    → IsSchedule (ok w) os
    → (w' : World) × (past' : List ℕ) × (current' : List ℕ) × (operate_all w os ≡ ok w')
      × IsBlock w' past' current'
unfolding operate_all IsSchedule IsKept
operate_all-IsBlock w past current [] i allowed = (w, past, current, refl, i)
operate_all-IsBlock w past current (o ∷ os) i (now, later) =
    let (w1, past1, current1, run, i1) = operate-IsKept w past current o i now in
    let (w2, past2, current2, rest, i2) =
      operate_all-IsBlock w1 past1 current1 os i1 (rw⁻¹ run later) in
    (w2, past2, current2, rw run rest, i2)
