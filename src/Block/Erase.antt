-- ===== src/Block/Erase.antt =====
-- `release` and `erase` of src/torrent/data/block.cc: a transfer is taken off the block, and the one that is
-- furthest takes the lead if it led. Block/Abandon.antt is the case where there is none.

use libtorrent.Common.{
  ℕ, ◌+◌, ◌-◌, ◌<◌, List, ◌++◌, Bool-cases, true, false, if◌then◌else◌, ◌==◌, ◌≡◌, Option, none,
  some, inl, inr, arith, refl, sym, ap, ◌∙◌, sub32, ltb, not, ◌||◌,
}
use libtorrent.Common.Counting.{
  count, tally, count-append, tally_same, remove_one, count-remove_one, tally-remove_one, elem,
  elem-count, filter, count-filter, tally-append, tally-filter,
}
use libtorrent.Block.{
  World, BlockTransfer, on, is_at, is_queued, write_at, split_leaders, one_if_eager, promote_from,
  take_lead, max_element, promote, set_transfers, is_not_leader, TransferState,
}
use libtorrent.Block.Shape.{moves, eager, IsBlock, follows, dropped, leads}
use libtorrent.Block.Steps.{eager-le, apart}
use libtorrent.Block.Unlink.{remove_one-append, split_leaders-append}

-- What counts of a transfer goes with it.
module _ (w : World) (past current : List ℕ) (a : ℕ) (t : BlockTransfer)
    (i : IsBlock w past current) (at : w.store a ≡ some t) (valid : t.valid ≡ true) where
  unfoldable pub less : ℕ
  less = sub32 w.block.not_stalled (one_if_eager t)

  pub less-eq : less ≡ w.block.not_stalled - eager (w.store a)
  unfolding less
  less-eq = ground (arith, eager-le w past current a i, at, valid, i.fits)

  unfoldable pub unqueued : World
  unfolding less
  unqueued = record w {
    store = write_at w.store a none;
    block = record w.block { not_stalled = less; queued = remove_one a w.block.queued };
  }

  pub unqueued-IsBlock : is_queued t ≡ true → IsBlock unqueued past current
  unfolding unqueued
  unqueued-IsBlock waiting =
      let b = w.block in
      let one : count a b.queued ≡ 1 = ground (arith, i.in_queue a, at, valid, waiting) in
      let there : 0 < count a b.queued = omega (arith, one) in
      let none_yet = apart w past current a i (ground (arith, at, valid, waiting)) in
      let f : ℕ → ℕ = λ c. eager (w.store c) in
      let g : ℕ → ℕ = λ c. eager (write_at w.store a none c) in
      let gone : count a (remove_one a b.queued) ≡ 0 =
        ground (arith, count-remove_one a a b.queued there, one) in
      record {
        split = i.split;
        in_past = λ c some_there. ground (arith, i.in_past c some_there, at, valid);
        in_queue = λ c. ground (arith, i.in_queue c, count-remove_one a c b.queued there, one);
        in_current = λ c is. i.in_current c (ground (arith, is));
        once = i.once;
        known = λ c some_there. ground (arith, i.known c some_there, some_there, none_yet);
        one_leader = λ c. ground (arith, i.one_leader c, at, valid, waiting);
        led = λ c is. i.led c (ground (arith, is));
        counted = omega (
          arith,
          less-eq,
          i.counted,
          tally-remove_one f a b.queued there,
          tally_same f g (remove_one a b.queued) (λ c some_there. ground (arith, some_there, gone)),
          tally_same f g current (λ c some_there. ground (arith, some_there, none_yet)),
        );
        fits = omega (arith, less-eq, i.fits);
        new = λ c is. i.new c (ground (arith, is));
      }

  module _ (started : is_queued t ≡ false) where
    pub moving : moves (w.store a) ≡ true
    moving = ground (arith, at, valid, started)

    pub in_now : 0 < count a current
    in_now = omega (arith, i.in_current a moving)

    not_past : count a past ≡ 0
    not_past = elim (Bool-cases (ltb 0 (count a past))) [
      | inr nowhere ↦ ground (arith, nowhere)
      | inl there ↦ absurd (ground (arith, i.in_past a (ground (arith, there)), at, valid))
    ]

    unfoldable pub without : List ℕ
    without = remove_one a current

    pub without-count : (c : ℕ) → count c current ≡ (if c == a then 1 else 0) + count c without
    unfolding without
    without-count c = count-remove_one a c current in_now

    pub without-transfers : remove_one a w.block.transfers ≡ past ++ without
    unfolding without
    without-transfers = ap (remove_one a) i.split ∙ remove_one-append a past current not_past

    pub in_transfers : elem a w.block.transfers ≡ true
    in_transfers =
        elem-count a w.block.transfers
          (ground (arith, ap (count a) i.split, count-append a past current, in_now))

    unfoldable pub unstarted : World
    unfolding less
    unstarted = record w {
      store = write_at w.store a none;
      block = record w.block { not_stalled = less; transfers = remove_one a w.block.transfers };
    }

    -- What is left to count, on the other transfers.
    pub without-counted :
        (store' : ℕ → Option BlockTransfer)
        → ((c : ℕ) → (c == a) ≡ false → eager (store' c) ≡ eager (w.store c))
        → less
          ≡ tally (λ c. eager (store' c)) w.block.queued + tally (λ c. eager (store' c)) without
    unfolding without
    without-counted store' same =
        let f : ℕ → ℕ = λ c. eager (w.store c) in
        let g : ℕ → ℕ = λ c. eager (store' c) in
        let unqueued_ : count a w.block.queued ≡ 0 =
          ground (arith, i.in_queue a, at, valid, started) in
        let once_gone : count a (remove_one a current) ≡ 0 =
          ground (arith, count-remove_one a a current in_now, i.once a) in
        omega (
          arith,
          less-eq,
          i.counted,
          tally-remove_one f a current in_now,
          tally_same f g w.block.queued
              (λ c there. sym (same c (ground (arith, there, unqueued_)))),
          tally_same f g (remove_one a current)
              (λ c there. sym (same c (ground (arith, there, once_gone)))),
        )

    pub unstarted-IsBlock : is_at w.block.leader a ≡ false → IsBlock unstarted past without
    unfolding unstarted
    unstarted-IsBlock behind =
        let gone : count a without ≡ 0 = ground (arith, without-count a, i.once a) in
        record {
          split = without-transfers;
          in_past = λ c there. ground (arith, i.in_past c there, at, valid);
          in_queue = λ c. ground (arith, i.in_queue c, at, valid, started);
          in_current = λ c is. ground (arith, i.in_current c, is, without-count c);
          once = λ c. omega (arith, i.once c, without-count c);
          known = λ c there. ground (arith, i.known c, there, without-count c, gone);
          one_leader = λ c. ground (arith, i.one_leader c, behind);
          led = λ c is. i.led c (ground (arith, is));
          counted = without-counted (write_at w.store a none) (λ c ne. ground (arith, ne));
          fits = omega (arith, less-eq, i.fits);
          new = λ c is. i.new c (ground (arith, is));
        }

    -- The leader goes.
    module _ (lead : is_at w.block.leader a ≡ true) where
      pub others_follow :
          (c : ℕ) → 0 < count c without → follows (w.store c) || dropped (w.store c) ≡ true
      others_follow c there =
          let gone : count a without ≡ 0 = ground (arith, without-count a, i.once a) in
          let not_a : (c == a) ≡ false = ground (arith, there, gone) in
          let unled : leads (w.store c) ≡ false = i.one_leader c ∙ not_led c not_a in
          ground (arith, i.known c (ground (arith, there, without-count c)), unled)
        where
          not_led : (c : ℕ) → (c == a) ≡ false → is_at w.block.leader c ≡ false
          not_led c ne = ground (arith, ne, lead)

      unfoldable pub orphaned : World
      unfolding less
      orphaned =
          set_transfers (record w { block = record w.block { not_stalled = less } })
            (remove_one a w.block.transfers)

      parts : split_leaders orphaned orphaned.block.transfers ≡ (past, without)
      unfolding orphaned
      parts =
          ap (split_leaders orphaned) without-transfers
          ∙ split_leaders-append orphaned past without
              (λ c there. ground (arith, i.in_past c there))
              (λ c there. ground (arith, others_follow c there))

      unfoldable pub followers : List ℕ
      followers = filter (λ c. on is_not_leader (w.store c)) without

      unfoldable pub given_up : List ℕ
      given_up = filter (λ c. not (on is_not_leader (w.store c))) without

      pub promote-take_lead :
          promote orphaned
          ≡ take_lead
              (set_transfers orphaned (past ++ (followers ++ given_up)))
              (max_element orphaned followers)
      unfolding promote promote_from followers given_up orphaned
      promote-take_lead = ap (λ p. promote_from orphaned p.0 p.1) parts

      pub sorted-count : (c : ℕ) → count c (followers ++ given_up) ≡ count c without
      unfolding followers given_up
      sorted-count c = ground (
        arith,
        count-append c followers given_up,
        count-filter (λ d. on is_not_leader (w.store d)) c without,
        count-filter (λ d. not (on is_not_leader (w.store d))) c without,
      )

      same_tally : (g : ℕ → ℕ) → tally g (followers ++ given_up) ≡ tally g without
      unfolding followers given_up
      same_tally g = omega (
        arith,
        tally-append g followers given_up,
        tally-filter g (λ d. on is_not_leader (w.store d)) without,
      )

      pub follower_is : (c : ℕ) → 0 < count c followers → follows (w.store c) ≡ true
      unfolding followers
      follower_is c there =
          let counts = count-filter (λ d. on is_not_leader (w.store d)) c without in
          one_of (w.store c) (others_follow c (ground (arith, there, counts)))
            (ground (arith, there, counts))
        where
          one_of :
              (o : Option BlockTransfer)
              → follows o || dropped o ≡ true
              → on is_not_leader o ≡ true
              → follows o ≡ true
          one_of none k e = k
          one_of (some u) k e = ground (arith, k, e)

      -- The transfer `m` of those that follow takes the lead.
      module _ (m : ℕ) (u : BlockTransfer) (member : 0 < count m followers)
          (at_m : w.store m ≡ some u) where
        unfoldable pub succeeded : World
        unfolding less
        succeeded = record w {
          store =
              write_at (write_at w.store m (some (record u { state = TransferState.leading }))) a
                none;
          block = record w.block {
            not_stalled = less;
            transfers = past ++ (followers ++ given_up);
            leader = some m;
          };
        }

        pub succeeded-IsBlock : IsBlock succeeded past (followers ++ given_up)
        unfolding succeeded
        succeeded-IsBlock =
            let gone : count a without ≡ 0 = ground (arith, without-count a, i.once a) in
            let behind = follower_is m member in
            let not_m : (a == m) ≡ false =
              ground (arith, i.one_leader a, i.one_leader m, lead, behind, at_m) in
            let g : ℕ → ℕ = λ c. eager (
              write_at (write_at w.store m (some (record u { state = TransferState.leading }))) a
                none c) in
            record {
              split = refl;
              in_past = λ c there. ground (arith, i.in_past c there, at, valid, at_m, behind);
              in_queue = λ c. ground (arith, i.in_queue c, at, valid, started, at_m, behind);
              in_current = λ c is.
                  ground (arith, i.in_current c, is, without-count c, sorted-count c, at_m, behind);
              once = λ c. omega (arith, i.once c, without-count c, sorted-count c);
              known = λ c there.
                  ground (arith, others_follow c, there, sorted-count c, gone, at_m, behind);
              one_leader = λ c. ground (arith, i.one_leader c, lead, at_m, behind, not_m);
              led = λ c is. refl;
              counted = omega (
                arith,
                without-counted
                    (write_at
                      (write_at w.store m (some (record u { state = TransferState.leading }))) a
                      none)
                    (λ c ne. ground (arith, ne, at_m)),
                same_tally g,
              );
              fits = omega (arith, less-eq, i.fits);
              new = λ c is. i.new c (ground (arith, is, at_m));
            }
