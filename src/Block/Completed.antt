-- ===== src/Block/Completed.antt =====
-- `completed` of src/torrent/data/block.cc: the leader has all of the block, and the others are thrown out.

use libtorrent.Block.Invalidate.{fast, Invalidated, invalidate_all-Invalidated}
use libtorrent.Block.Shape.{IsBlock, waits, moves, leads, eager, past_leader}
use libtorrent.Block.{
  World, BlockList, BlockState, BlockTransfer, on, is_at, is_leader, save, completed,
  invalidate_all, remove_non_leader_transfers, has_all, is_finished, set_transfers,
}
use libtorrent.Common.Counting.{
  count, tally, tally_same, count-append, filter, filter_one, filter_all, filter_none,
  filter-append, tally-filter, tally-remove_one, count-filter,
}
use libtorrent.Common.{
  ℕ, ◌+◌, ◌-◌, ◌^◌, ◌≤◌, ◌<◌, List, [], ◌∷◌, ◌++◌, Bool-cases, true, false, not, ◌==◌, ◌≡◌, some,
  ok, inl, inr, arith, refl, ap, ◌∙◌, add32, ltb,
}
use libtorrent.Block.Erase
use libtorrent.Block.Done.{IsDone, idle, completed_ok, last_is-append}

module _ (w : World) (past current : List ℕ) (a : ℕ) (t : BlockTransfer)
    (i : IsBlock w past current) (at : w.store a ≡ some t) (valid : t.valid ≡ true)
    (lead : w.block.leader ≡ some a) where
  leading : is_leader t ≡ true
  leading = ground (arith, i.one_leader a, lead, at, valid)

  leads_alone : (c : ℕ) → (c == a) ≡ false → leads (w.store c) ≡ false
  leads_alone c ne = ground (arith, i.one_leader c, lead, ne)

  once_a : count a current ≡ 1
  once_a = i.in_current a (ground (arith, at, valid, leading))

  unfoldable done : World
  done = record (save w a (record t { valid = false; stall = 2 ^ 32 - 1 })) {
    block = record w.block { not_stalled = Erase.less w past current a t i at valid };
  }

  waiting : (c : ℕ) → 0 < count c w.block.queued → waits (w.store c) ≡ true
  waiting c there = ground (arith, i.in_queue c, there)

  apart_a : (c : ℕ) → 0 < count c w.block.queued → (c == a) ≡ false
  apart_a c there = ground (arith, waiting c there, at, leading)

  queue_fast :
      tally (λ c. fast (done.store c)) w.block.queued
      ≡ tally (λ c. eager (w.store c)) w.block.queued
  unfolding done save
  queue_fast =
      tally_same _ _ w.block.queued (λ c there. ground (arith, apart_a c there, waiting c there))

  queue_out :
      (w1 : World) × (invalidate_all done w.block.queued ≡ ok w1)
      × Invalidated done w1 w.block.queued
  unfolding done save
  queue_out =
      let share = tally-remove_one (λ c. eager (w.store c)) a current (omega (arith, once_a)) in
      invalidate_all-Invalidated w.block.queued done (λ c. ground (arith, i.in_queue c))
        (λ c there. (ground (arith, lead, apart_a c there), ground (arith, waiting c there)))
        (omega (arith, queue_fast, Erase.less-eq w past current a t i at valid, i.counted, share))

  cleared : World
  cleared = record queue_out.0 { block = record queue_out.0.block { queued = [] } }

  -- A transfer that does not wait is as it was, but for the one that is done.
  off_queue : (c : ℕ) → waits (w.store c) ≡ false → cleared.store c ≡ done.store c
  unfolding cleared
  off_queue c still = queue_out.2.others c (ground (arith, i.in_queue c, still))

  untouched : (c : ℕ) → 0 < count c current → (c == a) ≡ false → cleared.store c ≡ w.store c
  unfolding done save
  untouched c there ne = ground (arith, off_queue c (ground (arith, i.known c there)), ne)

  leader_kept : cleared.store a ≡ some (record t { valid = false; stall = 2 ^ 32 - 1 })
  unfolding done save
  leader_kept = ground (arith, off_queue a (ground (arith, at, leading)))

  past_untouched : (c : ℕ) → 0 < count c past → cleared.store c ≡ w.store c
  unfolding done save
  past_untouched c there =
      let earlier = i.in_past c there in
      ground (arith, off_queue c (ground (arith, earlier)), earlier, at, valid)

  leader_now : cleared.block.leader ≡ some a
  unfolding cleared done save
  leader_now = ap (λ b. b.leader) queue_out.2.block ∙ lead

  listed : cleared.block.transfers ≡ past ++ current
  unfolding cleared done save
  listed = ap (λ b. b.transfers) queue_out.2.block ∙ i.split

  past_leads : (c : ℕ) → 0 < count c past → on is_leader (cleared.store c) ≡ true
  past_leads c there = ground (arith, past_untouched c there, i.in_past c there)

  others_behind :
      (c : ℕ) → 0 < count c current → (c == a) ≡ false → on is_leader (cleared.store c) ≡ false
  others_behind c there ne = ground (arith, untouched c there ne, i.known c there, leads_alone c ne)

  only_leader : filter (λ c. on is_leader (cleared.store c)) current ≡ a ∷ []
  only_leader =
      filter_one (λ c. on is_leader (cleared.store c)) a current once_a
        (ground (arith, leader_kept, leading)) others_behind

  unfoldable crew : List ℕ
  crew = filter (λ c. not (on is_leader (cleared.store c))) current

  keep : filter (λ c. on is_leader (cleared.store c)) cleared.block.transfers ≡ past ++ (a ∷ [])
  keep =
      ap (filter (λ c. on is_leader (cleared.store c))) listed
      ∙ filter-append (λ c. on is_leader (cleared.store c)) past current
      ∙ ap (λ xs. xs ++ filter (λ c. on is_leader (cleared.store c)) current)
          (filter_all (λ c. on is_leader (cleared.store c)) past past_leads)
      ∙ ap (λ xs. past ++ xs) only_leader

  drop : filter (λ c. not (on is_leader (cleared.store c))) cleared.block.transfers ≡ crew
  unfolding crew
  drop =
      ap (filter (λ c. not (on is_leader (cleared.store c)))) listed
      ∙ filter-append (λ c. not (on is_leader (cleared.store c))) past current
      ∙ ap (λ xs. xs ++ crew)
          (filter_none (λ c. not (on is_leader (cleared.store c))) past
            (λ c there. ap not (past_leads c there)))

  crew_in : (c : ℕ) → 0 < count c crew → (0 < count c current) × ((c == a) ≡ false)
  unfolding crew
  crew_in c there =
      let counts = count-filter (λ d. not (on is_leader (cleared.store d))) c current in
      (ground (arith, there, counts), ground (arith, there, counts, leader_kept, leading))

  in_crew : (c : ℕ) → 0 < count c current → (c == a) ≡ false → 0 < count c crew
  unfolding crew
  in_crew c there ne = ground (
    arith,
    count-filter (λ d. not (on is_leader (cleared.store d))) c current,
    others_behind c there ne,
    there,
  )

  crew_once : (c : ℕ) → count c crew ≤ 1
  unfolding crew
  crew_once c =
      ground (arith, count-filter (λ d. not (on is_leader (cleared.store d))) c current, i.once c)

  crew-fast : tally (λ c. fast (cleared.store c)) crew ≡ tally (λ c. eager (w.store c)) crew
  crew-fast = tally_same _ _ crew (λ c there. same c (crew_in c there).0 (crew_in c there).1)
    where
      same :
          (c : ℕ)
          → 0 < count c current
          → (c == a) ≡ false
          → fast (cleared.store c) ≡ eager (w.store c)
      same c there ne = ground (arith, untouched c there ne, i.known c there)

  crew_rest :
      tally (λ c. eager (w.store c)) current
      ≡ eager (w.store a) + tally (λ c. eager (w.store c)) crew
  unfolding crew tally
  crew_rest = omega (
    arith,
    tally-filter (λ c. eager (w.store c)) (λ c. on is_leader (cleared.store c)) current,
    ap (tally (λ c. eager (w.store c))) only_leader,
  )

  number : cleared.block.not_stalled ≡ tally (λ c. fast (cleared.store c)) crew
  unfolding cleared done save
  number = omega (
    arith,
    ap (λ b. b.not_stalled) queue_out.2.block,
    queue_fast,
    crew-fast,
    crew_rest,
    i.counted,
    Erase.less-eq w past current a t i at valid,
  )

  crew_out : (w2 : World) × (invalidate_all cleared crew ≡ ok w2) × Invalidated cleared w2 crew
  crew_out =
      invalidate_all-Invalidated crew cleared crew_once
        (λ c there. fits c (crew_in c there).0 (crew_in c there).1) (omega (arith, number))
    where
      fits :
          (c : ℕ)
          → 0 < count c current
          → (c == a) ≡ false
          → (is_at cleared.block.leader c ≡ false) × (on (λ t. true) (cleared.store c) ≡ true)
      fits c there ne =
          (ground (arith, leader_now, ne), ground (arith, untouched c there ne, i.known c there))

  unfoldable finished_off : World
  finished_off = record crew_out.0 {
    block = record crew_out.0.block {
      transfers = past ++ (a ∷ []);
      state = BlockState.completed_state;
    };
  }

  off_crew :
      (c : ℕ)
      → (0 < count c current → (c == a) ≡ false → ⊥)
      → finished_off.store c ≡ cleared.store c
  unfolding finished_off
  off_crew c out = elim (Bool-cases (ltb 0 (count c crew))) [
    | inl there ↦ let (now, ne) = crew_in c (ground (arith, there)) in absurd (out now ne)
    | inr away ↦ crew_out.2.others c (ground (arith, away))
  ]

  leader_done : finished_off.store a ≡ some (record t { valid = false; stall = 2 ^ 32 - 1 })
  leader_done = off_crew a (λ there ne. ground (arith, ne)) ∙ leader_kept

  past_done : (c : ℕ) → 0 < count c past → finished_off.store c ≡ w.store c
  past_done c there =
      off_crew c (λ now ne. ground (arith, i.known c now, i.in_past c there))
      ∙ past_untouched c there

  all_free : (c : ℕ) → on (λ u. u.valid) (finished_off.store c) ≡ false
  unfolding finished_off cleared done save
  all_free c = elim (Bool-cases (ltb 0 (count c crew))) [
    | inl there ↦ crew_out.2.off c (ground (arith, there))
    | inr away ↦
        let same = crew_out.2.others c (ground (arith, away)) in
        elim (Bool-cases (ltb 0 (count c w.block.queued))) [
          | inl queue ↦ ap (on (λ u. u.valid)) same ∙ queue_out.2.off c (ground (arith, queue))
          | inr off ↦
              let before = queue_out.2.others c (ground (arith, off)) in
              elim (Bool-cases (c == a)) [
                | inl this ↦ ground (arith, same, before, this)
                | inr ne ↦
                    let still : waits (w.store c) ≡ false = ground (arith, i.in_queue c, off) in
                    ground (arith, same, before, ne, idle (w.store c) still (not_moving ne away))
              ]
        ]
  ]
    where
      not_moving : (c == a) ≡ false → ltb 0 (count c crew) ≡ false → moves (w.store c) ≡ false
      not_moving ne away = elim (Bool-cases (moves (w.store c))) [
        | inr still ↦ still
        | inl moving ↦
            absurd (ground (arith, in_crew c (omega (arith, i.in_current c moving)) ne, away))
      ]

  finished_off-IsDone : has_all t ≡ true → IsDone finished_off past a
  unfolding finished_off cleared count done save
  finished_off-IsDone whole = record {
    split = refl;
    in_past = λ c there. elim (Bool-cases (c == a)) [
      | inl this ↦ ground (arith, leader_done, leading, this)
      | inr ne ↦
          let earlier : 0 < count c past =
            ground (arith, there, count-append c past (a ∷ []), ne) in
          ap past_leader (past_done c earlier) ∙ i.in_past c earlier
    ];
    free = all_free;
    leader = ap (λ b. b.leader) crew_out.2.block ∙ leader_now;
    whole = ground (arith, leader_done, whole);
    state = refl;
    queued = ap (λ b. b.queued) crew_out.2.block;
    counted = omega (arith, number, ap (λ b. b.not_stalled) crew_out.2.block);
    new = λ c is.
        let before = i.new c (known_before c (queue_out.2.held c (crew_out.2.held c is))) in
        omega (arith, before, crew_out.2.same_fresh, queue_out.2.same_fresh);
  }
    where
      known_before :
          (c : ℕ) → on (λ u. true) (done.store c) ≡ true → on (λ u. true) (w.store c) ≡ true
      known_before c is = ground (arith, is, at)

  thrown_out :
      remove_non_leader_transfers cleared ≡ ok (set_transfers crew_out.0 (past ++ (a ∷ [])))
  unfolding remove_non_leader_transfers
  thrown_out = rw (keep, drop) (rw crew_out.1 refl)

  leader_whole : has_all t ≡ true → is_finished w ≡ true
  unfolding is_finished
  leader_whole whole = ground (arith, lead, at, whole)

  completed-run :
      (parent : BlockList)
      → has_all t ≡ true
      → add32 parent.finished 1 ≤ parent.others_finished + 1
      → completed w parent a
        ≡ ok (
          finished_off,
          record parent { finished = add32 parent.finished 1 },
          add32 parent.finished 1 == parent.size,
        )
  unfolding finished_off cleared done Erase.less
  completed-run parent whole few =
      completed_ok w queue_out.0 (set_transfers crew_out.0 (past ++ (a ∷ []))) parent a t at valid
        leading (leader_whole whole) (ground (arith, lead)) (ground (arith, few)) queue_out.1
        thrown_out (last_is-append past a)

-- completed, called with the leader of a well-formed block once that has all of it, where the count
-- of finished blocks is right, succeeds, counts one more finished block and tells whether that is
-- all of them; the leader's transfer is kept behind those of earlier attempts, nothing else is
-- listed, no transfer is of the block any longer, and none counts as not stalled.
pub completed-IsDone :
    (w : World) (past current : List ℕ) (a : ℕ) (t : BlockTransfer) (parent : BlockList)
    → IsBlock w past current
    → w.store a ≡ some t
    → t.valid ≡ true
    → w.block.leader ≡ some a
    → has_all t ≡ true
    → add32 parent.finished 1 ≤ parent.others_finished + 1
    → (w' : World) × (completed w parent a
        ≡ ok (
          w',
          record parent { finished = add32 parent.finished 1 },
          add32 parent.finished 1 == parent.size,
        ))
      × IsDone w' past a
completed-IsDone w past current a t parent i at valid lead whole few = (
  finished_off w past current a t i at valid lead,
  completed-run w past current a t i at valid lead parent whole few,
  finished_off-IsDone w past current a t i at valid lead whole,
)
