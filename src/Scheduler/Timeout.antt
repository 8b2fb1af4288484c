-- ===== src/Scheduler/Timeout.antt =====
-- `next_timeout` of src/torrent/system/scheduler.cc, and what a handle in front that goes away leaves.
use libtorrent.Common.Counting.{count}
use libtorrent.Scheduler.Timers.{load_handle-ok}
use libtorrent.Scheduler.Counts.{length_same}
use libtorrent.Common.{
  ℕ, List, [], ◌∷◌, true, Option-cases, none, some, leb, ◌==◌, ◌≡◌, inl, inr, arith, length,
  Bool-cases, if◌then◌else◌, max, ok, refl, suc, zero, ◌+◌, ◌-◌, ◌<◌, ◌≤◌, ◌⊎◌, on_none, on_some,
  ◌∙◌,
}
use mathlib.Core.Path.{subst}
use libtorrent.Scheduler.{
  SchedulerHandle, World, HeapAlgorithms, time_of, handle_time, pop_front, next_timeout_in,
  next_timeout,
}
use libtorrent.Scheduler.Linked.{IsHeapAlgorithms, IsLinked, is_of, pop_front-IsLinked}

-- The timer of `e` is on the scheduler `this`, at `time`.
pub record IsOn (w : World) (this e time : ℕ) : Type 0 where
  pub at : ℕ
  pub handle : SchedulerHandle
  pub by : (w.entries e).handle ≡ some at
  pub held : w.handles at ≡ some handle
  pub own : (handle.scheduler == this) ≡ true
  pub when : handle.time ≡ time

-- `t` is how long it takes to the earliest timer of the scheduler, or `most` if that is less.
pub record IsEarliest (w : World) (this most t : ℕ) : Type 0 where
  pub within : t ≤ most
  pub early : (e time : ℕ) → IsOn w this e time → t ≤ time - (w.schedulers this).cached_time
  pub reached :
      (t ≡ most)
      ⊎ ((e : ℕ) × (time : ℕ) × IsOn w this e time × (t ≡ time - (w.schedulers this).cached_time))

module _ (std : HeapAlgorithms) (laws : IsHeapAlgorithms std) where
  module _ (w : World) (this a : ℕ) (rest : List ℕ) (l : IsLinked std laws w)
      (front : (w.schedulers this).heap ≡ a ∷ rest) where
    -- The front of a heap is a handle of the scheduler.
    pub front_handle :
        (h : SchedulerHandle) × (w.handles a ≡ some h) × ((h.scheduler == this) ≡ true)
    unfolding count
    front_handle =
        let one : count a (a ∷ rest) ≡ is_of (w.handles a) this =
          subst (λ hs. count a hs ≡ is_of (w.handles a) this) front (l.counted this a) in
        elim (Option-cases (w.handles a)) [
          | inl gone ↦ absurd (ground (arith, one, gone))
          | inr (h, held) ↦ (h, held, ground (arith, one, held))
        ]

    pub is_heap : laws.IsHeap (λ b. time_of (w.handles b)) (a ∷ rest)
    is_heap = subst (laws.IsHeap (λ b. time_of (w.handles b))) front (l.shaped this)

    -- The heap once the front is off.
    pub popped_count :
        (b : ℕ) → count b ((pop_front std w this a).schedulers this).heap ≡ count b rest
    unfolding pop_front handle_time
    popped_count b = ground (arith, popped)
      where
        popped :
            count b (std.pop_heap (λ c. time_of (w.handles c)) (w.schedulers this).heap)
            ≡ count b rest
        popped = rw front (laws.pop_count (λ c. time_of (w.handles c)) rest a b is_heap)

    pub popped_length : length ((pop_front std w this a).schedulers this).heap ≡ length rest
    popped_length = length_same _ rest popped_count

    -- No timer is earlier than the front.
    pub front_least :
        (e time : ℕ)
        → IsOn w this e time
        → (h : SchedulerHandle) → w.handles a ≡ some h
        → h.time ≤ time
    unfolding count
    front_least e time on h held =
        let one : count on.at (a ∷ rest) ≡ is_of (w.handles on.at) this =
          subst (λ hs. count on.at hs ≡ is_of (w.handles on.at) this) front
            (l.counted this on.at) in
        elim (Bool-cases (on.at == a)) [
          | inl same ↦ ground (arith, same, held, on.held, on.when)
          | inr other ↦
              let le =
                laws.front_least (λ b. time_of (w.handles b)) rest a on.at is_heap
                  (ground (arith, one, other, on.held, on.own)) in
              ground (arith, le, held, on.held, on.when)
        ]

    -- A handle without an entry that goes away takes no timer with it.
    module _ (h : SchedulerHandle) (held : w.handles a ≡ some h) (of : h.entry ≡ none) where
      dead-IsOn : (e time : ℕ) → IsOn w this e time → IsOn (pop_front std w this a) this e time
      unfolding pop_front
      dead-IsOn e time on =
          let (g, held_g, of_g) = l.forth e on.at on.by in
          record {
            at = on.at;
            handle = on.handle;
            by = on.by;
            held = ground (arith, on.held, held_g, of_g, held, of);
            own = on.own;
            when = on.when;
          }

      alive-IsOn : (e time : ℕ) → IsOn (pop_front std w this a) this e time → IsOn w this e time
      unfolding pop_front
      alive-IsOn e time on = record {
        at = on.at;
        handle = on.handle;
        by = on.by;
        held = ground (arith, on.held);
        own = on.own;
        when = on.when;
      }

      dead_cached :
          (s : ℕ)
          → ((pop_front std w this a).schedulers s).cached_time ≡ (w.schedulers s).cached_time
      unfolding pop_front
      dead_cached s = ground arith

      dead-IsEarliest :
          (most t : ℕ) → IsEarliest (pop_front std w this a) this most t → IsEarliest w this most t
      dead-IsEarliest most t r =
          let same = dead_cached this in
          record {
            within = r.within;
            early = λ e time on. omega (arith, r.early e time (dead-IsOn e time on), same);
            reached = elim r.reached [
              | inl whole ↦ inl whole
              | inr (e, time, on, is) ↦ inr (e, time, alive-IsOn e time on, omega (arith, is, same))
            ];
          }

  pub nothing_on :
      (w : World) (this e time : ℕ)
      → IsLinked std laws w
      → (w.schedulers this).heap ≡ []
      → IsOn w this e time
      → ⊥
  unfolding count
  nothing_on w this e time l empty on =
      let none_there : count on.at [] ≡ is_of (w.handles on.at) this =
        subst (λ hs. count on.at hs ≡ is_of (w.handles on.at) this) empty (l.counted this on.at) in
      ground (arith, none_there, on.held, on.own)

  next_timeout_in-IsEarliest :
      (fuel : ℕ) (w : World) (this most : ℕ) (heap : List ℕ)
      → IsLinked std laws w
      → (w.schedulers this).heap ≡ heap
      → length heap < fuel
      → (w' : World) × (t : ℕ) × (next_timeout_in std fuel w this most heap ≡ ok (w', t))
        × IsLinked std laws w'
        × (w'.entries ≡ w.entries)
        × IsEarliest w this most t
  unfolding next_timeout_in pop_front
  next_timeout_in-IsEarliest zero w this most heap l front le = absurd (omega (arith, le))
  next_timeout_in-IsEarliest (suc fuel) w this most [] l front le = (
    w,
    most,
    refl,
    l,
    refl,
    record {
      within = omega arith;
      early = λ e time on. absurd (nothing_on w this e time l front on);
      reached = inl refl;
    },
  )
  next_timeout_in-IsEarliest (suc fuel) w this most (a ∷ rest) l front le =
      let (h, held, own) = front_handle w this a rest l front in
      let loaded = load_handle-ok w a h held in
      elim (Option-cases h.entry) [
        | inl of ↦
            let (w', t, run, l', same, r) =
              next_timeout_in-IsEarliest fuel (pop_front std w this a) this most _
                (pop_front-IsLinked std laws w this a rest h l front held of) refl
                (omega (arith, le, popped_length w this a rest l front)) in
            (
              w',
              t,
              rw loaded (on_none h.entry _ _ of ∙ run),
              l',
              same,
              dead-IsEarliest w this a rest l front h held of most t r,
            )
        | inr (e, of) ↦
            let timeout = h.time - (w.schedulers this).cached_time in
            (
              w,
              if leb most timeout then most else max timeout 0,
              rw loaded (on_some h.entry _ _ of),
              l,
              refl,
              record {
                within = ground arith;
                early =
                    λ f time on. ground (arith, front_least w this a rest l front f time on h held);
                reached = elim (Bool-cases (leb most timeout)) [
                  | inl late ↦ inl (rw late refl)
                  | inr soon ↦ inr (
                    e,
                    h.time,
                    record {
                      at = a;
                      handle = h;
                      by = l.back a e h held of;
                      held = held;
                      own = own;
                      when = refl;
                    },
                    rw soon (omega arith),
                  )
                ];
              },
            )
      ]

  -- On a linked world `next_timeout` ends without an exception, whatever the heap holds: it tells how long it takes to the
  -- earliest timer of the scheduler, none if that has passed, or the given maximum if that is less, changes
  -- no entry and leaves the world linked.
  pub next_timeout-IsEarliest :
      (w : World) (this most : ℕ)
      → IsLinked std laws w
      → (w' : World) × (t : ℕ) × (next_timeout std w this most ≡ ok (w', t))
        × IsLinked std laws w'
        × (w'.entries ≡ w.entries)
        × IsEarliest w this most t
  unfolding next_timeout
  next_timeout-IsEarliest w this most l =
      next_timeout_in-IsEarliest (length (w.schedulers this).heap + 1) w this most _ l refl
        (omega arith)
