-- ===== src/Block/Unlink.antt =====
-- The lists of src/torrent/data/block.cc, and the branches of `erase` that take a transfer off them.
use libtorrent.Common.{
  ℕ, ◌+◌, ◌≤◌, ◌<◌, List, [], ◌∷◌, ◌++◌, Bool-cases, true, false, not, if◌then◌else◌, ◌==◌, ◌≡◌,
  none, some, ok, inl, inr, arith, refl, ap, ◌⊎◌, throw_if, internal_error, ◌>>◌, ltb,
}
use libtorrent.Common.Counting.{count, elem, remove_one, filter}
use libtorrent.Block.{
  World, BlockTransfer, TransferState, on, is_at, is_erased, is_leader, is_queued, has_all, save,
  unlink, take_lead, max_element, max_from, split_leaders, position_at, is_completed, set_transfers,
  promote, invalidate_all, remove_erased_transfers,
}
use libtorrent.Block.Steps.{transfer_at-ok}

pub remove_one-append :
    (a : ℕ) (xs ys : List ℕ) → count a xs ≡ 0 → remove_one a (xs ++ ys) ≡ xs ++ remove_one a ys
unfolding count remove_one
remove_one-append a [] ys none_there = refl
remove_one-append a (x ∷ xs) ys none_there =
    let other : (a == x) ≡ false = ground (arith, none_there) in
    rw other (ap (◌∷◌ x) (remove_one-append a xs ys (omega (arith, none_there))))

-- The leaders of earlier attempts come first.
pub split_leaders-append :
    (w : World) (xs ys : List ℕ)
    → ((a : ℕ) → 0 < count a xs → on is_leader (w.store a) ≡ true)
    → ((a : ℕ) → 0 < count a ys → on is_leader (w.store a) ≡ false)
    → split_leaders w (xs ++ ys) ≡ (xs, ys)
unfolding split_leaders count
split_leaders-append w [] [] lead follow = refl
split_leaders-append w [] (y ∷ ys) lead follow = rw (follow y (ground arith)) refl
split_leaders-append w (x ∷ xs) ys lead follow =
    rw
      (
        split_leaders-append w xs ys (λ a there. lead a (omega (arith, there))) follow,
        lead x (ground arith),
      )
      refl

-- The furthest of several transfers is one of them, and no other is further.
pub max_from-IsFurthest :
    (w : World) (best : ℕ) (xs : List ℕ)
    → (0 < (if max_from w best xs == best then 1 else 0) + count (max_from w best xs) xs)
      × (position_at w best ≤ position_at w (max_from w best xs))
      × ((a : ℕ) → 0 < count a xs → position_at w a ≤ position_at w (max_from w best xs))
unfolding max_from count
max_from-IsFurthest w best [] =
    (ground arith, omega arith, λ a there. absurd (omega (arith, there)))
max_from-IsFurthest w best (x ∷ xs) =
    let next = if ltb (position_at w best) (position_at w x) then x else best in
    let (one_of, above, all) = max_from-IsFurthest w next xs in
    (ground (arith, one_of), ground (arith, above), λ a there. ground (arith, there, above, all a))

-- `unlink` in its three branches.
pub unlink_queued :
    (w : World) (a : ℕ) (t : BlockTransfer)
    → is_queued t ≡ true
    → elem a w.block.queued ≡ true
    → unlink w a t
      ≡ ok (record w { block = record w.block { queued = remove_one a w.block.queued } })
unfolding unlink
unlink_queued w a t waiting listed = rw waiting (
    ap
      (λ e.
        throw_if (not e) internal_error
        >> ok (record w { block = record w.block { queued = remove_one a w.block.queued } }))
      listed)

pub unlink_follower :
    (w : World) (a : ℕ) (t : BlockTransfer)
    → is_queued t ≡ false
    → has_all t ≡ false
    → elem a w.block.transfers ≡ true
    → is_at w.block.leader a ≡ false
    → unlink w a t ≡ ok (set_transfers w (remove_one a w.block.transfers))
unfolding unlink
unlink_follower w a t started part listed behind = rw started (rw part (rw listed (rw behind refl)))

pub unlink_leader :
    (w : World) (a : ℕ) (t : BlockTransfer)
    → is_queued t ≡ false
    → has_all t ≡ false
    → elem a w.block.transfers ≡ true
    → is_at w.block.leader a ≡ true
    → is_completed w.block.state ≡ false
    → unlink w a t ≡ promote (set_transfers w (remove_one a w.block.transfers))
unfolding unlink
unlink_leader w a t started part listed lead running =
    rw started (rw part (rw listed (rw lead (rw running refl))))

-- No transfer, or the first of those that are furthest.
pub max_element-cases :
    (w : World) (xs : List ℕ)
    → ((xs ≡ []) × (max_element w xs ≡ none))
      ⊎ ((m : ℕ) × (max_element w xs ≡ some m)
          × (0 < count m xs)
          × ((c : ℕ) → 0 < count c xs → position_at w c ≤ position_at w m))
unfolding max_element count
max_element-cases w [] = inl (refl, refl)
max_element-cases w (x ∷ xs) =
    let (one_of, above, all) = max_from-IsFurthest w x xs in
    inr (max_from w x xs, refl, one_of, λ c there. furthest c there above all)
  where
    furthest :
        (c : ℕ)
        → 0 < (if c == x then 1 else 0) + count c xs
        → position_at w x ≤ position_at w (max_from w x xs)
        → ((c : ℕ) → 0 < count c xs → position_at w c ≤ position_at w (max_from w x xs))
        → position_at w c ≤ position_at w (max_from w x xs)
    furthest c there above all = elim (Bool-cases (c == x)) [
      | inl same ↦ let e : c ≡ x = ground (arith, same) in rw e above
      | inr other ↦ all c (ground (arith, there, other))
    ]

pub take_lead-some :
    (w : World) (m : ℕ) (u : BlockTransfer)
    → w.store m ≡ some u
    → take_lead w (some m)
      ≡ ok (record (save w m (record u { state = TransferState.leading })) {
        block = record w.block { leader = some m };
      })
unfolding take_lead
take_lead-some w m u at = rw (transfer_at-ok w m u at) refl

pub take_lead-none :
    (w w' : World) (xs kept : List ℕ)
    → filter (λ c. on is_erased (w.store c)) w.block.transfers ≡ xs
    → filter (λ c. not (on is_erased (w.store c))) w.block.transfers ≡ kept
    → invalidate_all (record w { block = record w.block { leader = none } }) xs ≡ ok w'
    → take_lead w none ≡ ok (set_transfers w' kept)
unfolding take_lead remove_erased_transfers
take_lead-none w w' xs kept to_drop to_keep run = rw (to_drop, to_keep) (rw run refl)
