-- ===== src/Block/Abandon.antt =====
-- `erase` of src/torrent/data/block.cc for a leader whom no transfer follows: those that were given up go too.
use libtorrent.Block.Invalidate.{fast, Invalidated, invalidate_all-Invalidated}
use mathlib.Core.List.{append-nil}
use libtorrent.Common.{
  ℕ, ◌+◌, ◌-◌, ◌<◌, List, [], ◌++◌, true, false, if◌then◌else◌, ◌==◌, ◌≡◌, Option, none, some, inl,
  inr, arith, refl, sym, ap, ◌∙◌, not, ◌||◌, ok, ◌⊎◌,
}
use libtorrent.Common.Counting.{
  count, tally, count-append, tally_same, filter, count-filter, filter-append, filter_all,
  filter_none, tally_zero,
}
use libtorrent.Block.{
  World, BlockTransfer, on, is_at, is_queued, write_at, set_transfers, is_not_leader, is_erased,
  invalidate_all,
}
use libtorrent.Block.Shape.{moves, eager, IsBlock, follows, dropped, in_line, past_leader}
use libtorrent.Block.Erase

module _ (w : World) (past current : List ℕ) (a : ℕ) (t : BlockTransfer)
    (i : IsBlock w past current) (at : w.store a ≡ some t) (valid : t.valid ≡ true)
    (started : is_queued t ≡ false) (lead : is_at w.block.leader a ≡ true)
    (alone : Erase.followers w past current a t i at valid started lead ≡ []) where
  abbrev less : ℕ
  less = Erase.less w past current a t i at valid

  abbrev without : List ℕ
  without = Erase.without w past current a t i at valid started

  abbrev orphaned : World
  orphaned = Erase.orphaned w past current a t i at valid started lead

  abbrev followers : List ℕ
  followers = Erase.followers w past current a t i at valid started lead

  abbrev given_up : List ℕ
  given_up = Erase.given_up w past current a t i at valid started lead

  less-eq : less ≡ w.block.not_stalled - eager (w.store a)
  less-eq = Erase.less-eq w past current a t i at valid

  without-count : (c : ℕ) → count c current ≡ (if c == a then 1 else 0) + count c without
  without-count = Erase.without-count w past current a t i at valid started

  others_follow : (c : ℕ) → 0 < count c without → follows (w.store c) || dropped (w.store c) ≡ true
  others_follow = Erase.others_follow w past current a t i at valid started lead

  sorted-count : (c : ℕ) → count c (followers ++ given_up) ≡ count c without
  sorted-count = Erase.sorted-count w past current a t i at valid started lead

  unfoldable pub leaderless : World
  unfolding Erase.orphaned
  leaderless = record orphaned {
    block = record orphaned.block { transfers = past ++ (followers ++ given_up); leader = none };
  }

  given_up-dropped : (c : ℕ) → 0 < count c given_up → dropped (w.store c) ≡ true
  unfolding Erase.given_up
  given_up-dropped c there =
      let counts = count-filter (λ d. not (on is_not_leader (w.store d))) c without in
      left_over (w.store c) (others_follow c (ground (arith, there, counts)))
        (ground (arith, there, counts))
    where
      left_over :
          (o : Option BlockTransfer)
          → follows o || dropped o ≡ true
          → not (on is_not_leader o) ≡ true
          → dropped o ≡ true
      left_over none k e = k
      left_over (some u) k e = ground (arith, k, e)

  all_given_up : leaderless.block.transfers ≡ past ++ given_up
  unfolding leaderless
  all_given_up = ap (λ fs. past ++ (fs ++ given_up)) alone

  past_kept : (c : ℕ) → 0 < count c past → on is_erased (w.store c) ≡ false
  past_kept c there = ground (arith, i.in_past c there)

  pub to_drop :
      filter (λ c. on is_erased (leaderless.store c)) leaderless.block.transfers ≡ given_up
  unfolding leaderless Erase.orphaned
  to_drop =
      ap (filter (λ c. on is_erased (w.store c))) all_given_up
      ∙ filter-append (λ c. on is_erased (w.store c)) past given_up
      ∙ ap (λ xs. xs ++ filter (λ c. on is_erased (w.store c)) given_up)
          (filter_none (λ c. on is_erased (w.store c)) past past_kept)
      ∙ filter_all (λ c. on is_erased (w.store c)) given_up
          (λ c there. ground (arith, given_up-dropped c there))

  pub to_keep :
      filter (λ c. not (on is_erased (leaderless.store c))) leaderless.block.transfers ≡ past
  unfolding leaderless Erase.orphaned
  to_keep =
      ap (filter (λ c. not (on is_erased (w.store c)))) all_given_up
      ∙ filter-append (λ c. not (on is_erased (w.store c))) past given_up
      ∙ ap (λ xs. xs ++ filter (λ c. not (on is_erased (w.store c))) given_up)
          (filter_all (λ c. not (on is_erased (w.store c))) past
            (λ c there. ap not (past_kept c there)))
      ∙ ap (λ ys. past ++ ys)
          (filter_none (λ c. not (on is_erased (w.store c))) given_up
            (λ c there. ground (arith, given_up-dropped c there)))
      ∙ append-nil past

  nothing_fast : tally (λ c. fast (w.store c)) given_up ≡ 0
  nothing_fast =
      tally_same (λ c. fast (w.store c)) (λ c. 0) given_up
        (λ c there. ground (arith, given_up-dropped c there))
      ∙ tally_zero given_up

  pub dropped_all :
      (w2 : World) × (invalidate_all leaderless given_up ≡ ok w2)
      × Invalidated leaderless w2 given_up
  unfolding leaderless Erase.orphaned
  dropped_all =
      invalidate_all-Invalidated given_up leaderless
        (λ c.
          ground
            (arith, i.once c, without-count c, sorted-count c, count-append c followers given_up))
        (λ c there. (refl, ground (arith, given_up-dropped c there))) (omega (arith, nothing_fast))

  unfoldable pub abandoned : World
  abandoned = record (set_transfers dropped_all.0 past) {
    store = write_at dropped_all.0.store a none;
  }

  places : (c : ℕ) → count c without ≡ count c given_up
  unfolding count
  places c = ground (arith, sorted-count c, count-append c followers given_up, ap (count c) alone)

  module _ (c : ℕ) where
    far : count c given_up ≡ 0 → dropped_all.0.store c ≡ w.store c
    unfolding leaderless Erase.orphaned
    far away = dropped_all.2.others c away

    in_or_out : (count c given_up ≡ 0) ⊎ (0 < count c given_up)
    in_or_out = omega arith

    no_move : moves (abandoned.store c) ≡ false
    unfolding abandoned
    no_move = elim in_or_out [
      | inr there ↦ ground (arith, dropped_all.2.off c there)
      | inl away ↦ ground (arith, far away, places c, away, without-count c, i.in_current c)
    ]

    same_line : in_line (abandoned.store c) ≡ in_line (w.store c)
    unfolding abandoned
    same_line = elim in_or_out [
      | inr there ↦ ground (arith, dropped_all.2.off c there, given_up-dropped c there, at, started)
      | inl away ↦ ground (arith, far away, at, started)
    ]

    same_eager : (c == a) ≡ false → eager (abandoned.store c) ≡ eager (w.store c)
    unfolding abandoned
    same_eager ne = elim in_or_out [
      | inr there ↦ ground (arith, ne, dropped_all.2.off c there, given_up-dropped c there)
      | inl away ↦ ground (arith, ne, far away)
    ]

    not_eager : 0 < count c given_up → eager (abandoned.store c) ≡ 0
    unfolding abandoned
    not_eager there = ground (arith, dropped_all.2.off c there)

    past_stays : 0 < count c past → past_leader (abandoned.store c) ≡ true
    unfolding abandoned
    past_stays there = elim in_or_out [
      | inr up ↦ absurd (ground (arith, given_up-dropped c up, i.in_past c there))
      | inl away ↦ ground (arith, far away, i.in_past c there, at, valid)
    ]

    was_there : on (λ t. true) (abandoned.store c) ≡ true → c < w.fresh
    unfolding abandoned leaderless Erase.orphaned
    was_there is = i.new c (dropped_all.2.held c (ground (arith, is)))

  pub abandoned-IsBlock : IsBlock abandoned past []
  unfolding leaderless Erase.orphaned abandoned count tally
  abandoned-IsBlock =
      let v = dropped_all.2 in
      let queue : abandoned.block.queued ≡ w.block.queued = ap (λ b. b.queued) v.block in
      let nobody : abandoned.block.leader ≡ none = ap (λ b. b.leader) v.block in
      let number : abandoned.block.not_stalled ≡ less - tally (λ c. fast (w.store c)) given_up =
        ap (λ b. b.not_stalled) v.block in
      let rest_zero =
        tally_same (λ c. eager (abandoned.store c)) (λ c. 0) without
          (λ c there. not_eager c (omega (arith, there, places c)))
        ∙ tally_zero without in
      let queue_sum = ap (tally (λ c. eager (abandoned.store c))) queue in
      record {
        split = sym (append-nil past);
        in_past = past_stays;
        in_queue = λ c. ap (count c) queue ∙ i.in_queue c ∙ sym (same_line c);
        in_current = λ c is. absurd (ground (arith, is, no_move c));
        once = λ c. omega arith;
        known = λ c there. absurd (omega (arith, there));
        one_leader = λ c. ground (arith, no_move c, nobody);
        led = λ c is. absurd (ground (arith, is, no_move c));
        counted = omega (
          arith,
          number,
          nothing_fast,
          Erase.without-counted w past current a t i at valid started abandoned.store same_eager,
          rest_zero,
          queue_sum,
        );
        fits = omega (arith, number, less-eq, i.fits);
        new = λ c is. omega (arith, was_there c is, v.same_fresh);
      }
