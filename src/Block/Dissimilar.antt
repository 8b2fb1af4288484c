-- ===== src/Block/Dissimilar.antt =====
-- `transfer_dissimilar` of src/torrent/data/block.cc on a transfer that never stalled, and `completed` after it.
use libtorrent.Common.Counting.{filter, tally}
use libtorrent.Block.Shape.{IsBlock, eager}
use libtorrent.Block.{
  World, BlockList, BlockTransfer, completed, transfer_dissimilar, has_all, is_not_leader,
  is_leader, is_finished, is_at, one_if_eager, invalidate_all, remove_non_leader_transfers, on,
  save, invalidate_transfer, TransferState,
}
use libtorrent.Common.{
  ℕ, ◌+◌, ◌≤◌, List, [], ◌∷◌, true, false, ◌==◌, ◌≡◌, some, err, arith, refl, add32, ◌>>=◌,
  internal_error, ◌-◌, ◌^◌, ok, ap, ◌∙◌, ltb, sub32, not, ◌&&◌, ◌||◌, drop,
}
use libtorrent.Block.Steps.{transfer_at-ok}

-- `not_stalled` would go below 0.
invalidate_transfer_err :
    (w : World) (n : ℕ) (u : BlockTransfer)
    → is_at w.block.leader n ≡ false
    → w.store n ≡ some u
    → (u.stall == 0) ≡ true
    → w.block.not_stalled ≡ 0
    → invalidate_transfer w n ≡ err internal_error
unfolding invalidate_transfer
invalidate_transfer_err w n u free at fast_n number =
    let guard : (u.stall == 0 && w.block.not_stalled == 0) ≡ true =
      ground (arith, fast_n, number) in
    rw free (rw (transfer_at-ok w n u at) (rw guard refl))

remove_err :
    (w : World) (xs : List ℕ)
    → filter (λ a. not (on is_leader (w.store a))) w.block.transfers ≡ xs
    → invalidate_all w xs ≡ err internal_error
    → remove_non_leader_transfers w ≡ err internal_error
unfolding remove_non_leader_transfers
remove_err w xs drop fails = rw drop (rw fails refl)

completed_err :
    (w w1 : World) (parent : BlockList) (a : ℕ) (t : BlockTransfer)
    → w.store a ≡ some t
    → t.valid ≡ true
    → is_leader t ≡ true
    → is_finished w ≡ true
    → is_at w.block.leader a ≡ true
    → ltb (parent.others_finished + 1) (add32 parent.finished 1) ≡ false
    → invalidate_all
        (record (save w a (record t { valid = false; stall = 2 ^ 32 - 1 })) {
          block = record w.block { not_stalled = sub32 w.block.not_stalled (one_if_eager t) };
        })
        w.block.queued
      ≡ ok w1
    → remove_non_leader_transfers (record w1 { block = record w1.block { queued = [] } })
      ≡ err internal_error
    → completed w parent a ≡ err internal_error
unfolding completed
completed_err w w1 parent a t at valid leading whole here room queue rest =
    rw (transfer_at-ok w a t at)
      (rw (valid, leading, whole, here) (rw (room, queue) (rw rest refl)))

-- The leader `l` completes a block in which only `n`, given up, is left besides it.
unfinished_off :
    (w : World) (l n : ℕ) (t u : BlockTransfer) (parent : BlockList)
    → w.block.queued ≡ []
    → w.block.transfers ≡ l ∷ n ∷ []
    → w.store l ≡ some t
    → t.valid ≡ true
    → is_leader t ≡ true
    → w.block.leader ≡ some l
    → has_all t ≡ true
    → (l == n) ≡ false
    → w.store n ≡ some u
    → is_leader u ≡ false
    → (u.stall == 0) ≡ true
    → w.block.not_stalled ≡ one_if_eager t
    → add32 parent.finished 1 ≤ parent.others_finished + 1
    → completed w parent l ≡ err internal_error
unfolding filter save
unfinished_off w l n t u parent idle listed at valid leading lead whole apart_ at_n behind fast_n
      number few =
    let finished : is_finished w ≡ true = unfold is_finished in ground (arith, lead, at, whole) in
    let nothing : (x : World) → invalidate_all x w.block.queued ≡ ok x =
      λ x. ap (invalidate_all x) idle ∙ (unfold invalidate_all in refl) in
    let done : World = record (save w l (record t { valid = false; stall = 2 ^ 32 - 1 })) {
      block = record w.block {
        not_stalled = sub32 w.block.not_stalled (one_if_eager t);
        queued = [];
      };
    } in
    let l_leads : on is_leader (done.store l) ≡ true = ground (arith, leading) in
    let n_behind : on is_leader (done.store n) ≡ false = ground (arith, at_n, apart_, behind) in
    let left : filter (λ a. not (on is_leader (done.store a))) (l ∷ n ∷ []) ≡ n ∷ [] =
      rw (l_leads, n_behind) refl in
    let fails : invalidate_transfer done n ≡ err internal_error =
      invalidate_transfer_err done n u (ground (arith, lead, apart_)) (ground (arith, at_n, apart_))
        fast_n (ground (arith, number)) in
    completed_err w _ parent l t at valid leading finished (ground (arith, lead))
      (ground (arith, few)) (nothing _)
      (remove_err done (n ∷ []) (ap (filter (λ a. not (on is_leader (done.store a)))) listed ∙ left)
        (unfold invalidate_all in rw fails refl))

-- On a well-formed block that a finished leader and one transfer that follows are all of, if the
-- latter never stalled and is marked as dissimilar, completed of the leader throws an internal
-- error.
pub completed-transfer_dissimilar :
    (w : World) (l n : ℕ) (t u : BlockTransfer) (parent : BlockList)
    → IsBlock w [] (l ∷ n ∷ [])
    → w.block.queued ≡ []
    → w.store l ≡ some t
    → t.valid ≡ true
    → w.block.leader ≡ some l
    → has_all t ≡ true
    → w.store n ≡ some u
    → u.valid ≡ true
    → is_not_leader u ≡ true
    → (u.stall == 0) ≡ true
    → add32 parent.finished 1 ≤ parent.others_finished + 1
    → (transfer_dissimilar w n >>= λ w'. completed w' parent l) ≡ err internal_error
unfolding transfer_dissimilar save tally
completed-transfer_dissimilar w l n t u parent i idle at valid lead whole at_n valid_n behind fast_n
      few =
    let leading : is_leader t ≡ true = ground (arith, i.one_leader l, lead, at, valid) in
    let apart_ : (l == n) ≡ false = ground (arith, leading, at, at_n, behind) in
    let guard : (not (is_not_leader u) || is_at w.block.leader n) ≡ false =
      ground (arith, lead, apart_, behind) in
    let u' : BlockTransfer = record u {
      state = TransferState.erased;
      position = 0;
      valid = false;
    } in
    let w' : World = record (save w n u') {
      block = record w.block { not_stalled = sub32 w.block.not_stalled (one_if_eager u) };
    } in
    let queue = ap (tally (λ b. eager (w.store b))) idle in
    let number : w'.block.not_stalled ≡ one_if_eager t =
      ground (arith, i.counted, queue, i.fits, at, at_n, valid, valid_n, fast_n) in
    rw (transfer_at-ok w n u at_n) (
      rw guard (
        unfinished_off w' l n t u' parent idle i.split (ground (arith, at, apart_)) valid leading
          lead whole apart_ (ground arith) refl fast_n number few))
