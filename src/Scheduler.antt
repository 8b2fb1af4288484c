-- ===== src/Scheduler.antt =====
-- src/torrent/system/scheduler.h and scheduler.cc: timers on a heap. A handle belongs to the heap of one
-- scheduler and points to its entry, which points back; an entry that is taken off leaves its handle
-- behind, without an entry. Pointers to handles are addresses, of which a new handle gets a fresh
-- one, and entries and schedulers have numbers. Times are microseconds that are not negative, and
-- never near the end of 64 bits. The assertions on thread numbers and the destructors are left out.
pub mod Linked
pub mod Timers
pub mod Counts
pub mod Timeout
pub mod Perform
pub mod Safety
use libtorrent.Common.{
  ℕ, zero, suc, ◌+◌, ◌-◌, ◌*◌, ◌/◌, ◌%◌, ◌^◌, ◌≤◌, ◌<◌, List, [], ◌∷◌, Bool, true, false, not,
  Option, none, some, Result, ok, err, throw_if, internal_error, undefined, out_of_fuel,
  if◌then◌else◌, ltb, leb, ◌==◌, ◌>>=◌, ◌>>◌, length, max,
}

pub record SchedulerHandle : Type 0 where
  pub entry : Option ℕ
  pub scheduler : ℕ
  pub time : ℕ

-- Whether the slot is set, and the handle.
pub record SchedulerEntry : Type 0 where
  pub valid : Bool
  pub handle : Option ℕ

pub record Scheduler : Type 0 where
  pub cached_time : ℕ
  pub heap : List ℕ

-- The handles that are allocated, and what points to them.
pub record World : Type 0 where
  pub handles : ℕ → Option SchedulerHandle
  pub entries : ℕ → SchedulerEntry
  pub schedulers : ℕ → Scheduler
  pub fresh : ℕ

-- `push_back` with std::ranges::push_heap, and std::ranges::pop_heap with `pop_back`, by the time of a
-- handle, the earliest in front.
pub record HeapAlgorithms : Type 0 where
  pub push_heap : (ℕ → ℕ) → List ℕ → ℕ → List ℕ
  pub pop_heap : (ℕ → ℕ) → List ℕ → List ℕ

abbrev pub replace {ℓ} : {A : Type ℓ} → (ℕ → A) → ℕ → A → ℕ → A
replace f p v q = if p == q then v else f q

-- `std::chrono::hours(365 * 24)`.
abbrev pub one_year : ℕ
one_year = 365 * 24 * 3600 * 1000000

unfoldable pub ceil_seconds : ℕ → ℕ
ceil_seconds t = (t + 1000000 - 1) / 1000000 * 1000000

unfoldable pub is_scheduled : SchedulerEntry → Bool
is_scheduled e = elim e.handle [ none ↦ false | some a ↦ true ]

abbrev pub time_of : Option SchedulerHandle → ℕ
time_of none = 0
time_of (some h) = h.time

unfoldable pub handle_time : World → ℕ → ℕ
handle_time w a = time_of (w.handles a)

-- `entry->time_or_zero()`.
unfoldable pub time_or_zero : World → ℕ → ℕ
time_or_zero w e = elim (w.entries e).handle [ none ↦ 0 | some a ↦ handle_time w a ]

unfoldable pub set_handle : World → ℕ → Option ℕ → World
set_handle w e a = record w { entries = replace w.entries e (record (w.entries e) { handle = a }) }

abbrev pub without_entry : Option SchedulerHandle → Option SchedulerHandle
without_entry none = none
without_entry (some h) = some (record h { entry = none })

-- `entry->m_handle->entry = nullptr;`
unfoldable pub drop_entry : World → ℕ → World
drop_entry w a = record w { handles = replace w.handles a (without_entry (w.handles a)) }

unfoldable pub load_handle : World → ℕ → Result SchedulerHandle
load_handle w a = elim (w.handles a) [ none ↦ err undefined | some h ↦ ok h ]

-- `erase`, on the handle that the entry has.
unfoldable pub erase_entry : World → ℕ → ℕ → Option ℕ → Result World
erase_entry w this e none = ok w
erase_entry w this e (some a) = do
  throw_if (not (w.entries e).valid) internal_error
  h ← load_handle w a
  throw_if (not (h.scheduler == this)) internal_error
  ok (set_handle (drop_entry w a) e none)

unfoldable pub erase : World → ℕ → ℕ → Result World
erase w this e = erase_entry w this e (w.entries e).handle

module _ (std : HeapAlgorithms) where
  unfoldable pub push_entry : World → ℕ → ℕ → ℕ → World
  push_entry w this e time =
      let s = w.schedulers this in
      let handles =
        replace w.handles w.fresh
          (some (record { entry = some e; scheduler = this; time = time })) in
      record {
        handles = handles;
        entries = replace w.entries e (record (w.entries e) { handle = some w.fresh });
        schedulers =
            replace w.schedulers this
              (record s { heap = std.push_heap (λ a. time_of (handles a)) s.heap w.fresh });
        fresh = w.fresh + 1;
      }

  unfoldable pub wait_until : World → ℕ → ℕ → ℕ → Result World
  wait_until w this e time = do
    throw_if (time == 0) internal_error
    throw_if (ltb time one_year) internal_error
    throw_if (not (w.entries e).valid) internal_error
    throw_if (is_scheduled (w.entries e)) internal_error
    ok (push_entry w this e time)

  unfoldable pub wait_for : World → ℕ → ℕ → ℕ → Result World
  wait_for w this e time = do
    throw_if (ltb (10 * one_year) time) internal_error
    wait_until w this e ((w.schedulers this).cached_time + time)

  unfoldable pub wait_for_ceil_seconds : World → ℕ → ℕ → ℕ → Result World
  wait_for_ceil_seconds w this e time = do
    throw_if (ltb (10 * one_year) time) internal_error
    wait_until w this e (ceil_seconds ((w.schedulers this).cached_time + time))

  -- `update_wait_until` once its arguments are tested, on the handle that the entry has.
  unfoldable pub update_entry : World → ℕ → ℕ → ℕ → Option ℕ → Result World
  update_entry w this e time none = ok (push_entry w this e time)
  update_entry w this e time (some a) = do
    h ← load_handle w a
    throw_if (not (h.scheduler == this)) internal_error
    ok (push_entry (drop_entry w a) this e time)

  unfoldable pub update_wait_until : World → ℕ → ℕ → ℕ → Result World
  update_wait_until w this e time = do
    throw_if (time == 0) internal_error
    throw_if (ltb time one_year) internal_error
    throw_if (not (w.entries e).valid) internal_error
    update_entry w this e time (w.entries e).handle

  unfoldable pub update_wait_for : World → ℕ → ℕ → ℕ → Result World
  update_wait_for w this e time = do
    throw_if (ltb (10 * one_year) time) internal_error
    update_wait_until w this e ((w.schedulers this).cached_time + time)

  unfoldable pub update_wait_for_ceil_seconds : World → ℕ → ℕ → ℕ → Result World
  update_wait_for_ceil_seconds w this e time = do
    throw_if (ltb (10 * one_year) time) internal_error
    update_wait_until w this e (ceil_seconds ((w.schedulers this).cached_time + time))

  -- The handle in front, at `a`, is taken off the heap and freed.
  unfoldable pub pop_front : World → ℕ → ℕ → World
  pop_front w this a =
      let s = w.schedulers this in
      record w {
        handles = replace w.handles a none;
        schedulers =
            replace w.schedulers this (record s { heap = std.pop_heap (handle_time w) s.heap });
      }

  -- The loop of `next_timeout` with what follows it, on the heap that there is.
  unfoldable pub next_timeout_in : ℕ → World → ℕ → ℕ → List ℕ → Result (World × ℕ)
  next_timeout_in zero w this max_timeout heap = err out_of_fuel
  next_timeout_in (suc fuel) w this max_timeout [] = ok (w, max_timeout)
  next_timeout_in (suc fuel) w this max_timeout (a ∷ rest) =
      let w' = pop_front w this a in
      let again = next_timeout_in fuel w' this max_timeout (w'.schedulers this).heap in
      do
        h ← load_handle w a
        let timeout = h.time - (w.schedulers this).cached_time
        elim h.entry [
          | none ↦ again
          | some e ↦ ok (w, if leb max_timeout timeout then max_timeout else max timeout 0)
        ]

  unfoldable pub next_timeout : World → ℕ → ℕ → Result (World × ℕ)
  next_timeout w this max_timeout =
      let heap = (w.schedulers this).heap in
      next_timeout_in (length heap + 1) w this max_timeout heap

  -- The slots are code of the entries' owners: `slot e` is what the slot of `e` does.
  module _ (slot : ℕ → World → Result World) where
    -- `perform`, with the entries whose slots are called. A handle is freed before the slot that it led to
    -- is called, not after: nothing points to it any more.
    unfoldable pub perform_in : ℕ → World → ℕ → ℕ → List ℕ → Result (World × List ℕ)
    perform_in zero w this now heap = err out_of_fuel
    perform_in (suc fuel) w this now [] = ok (w, [])
    perform_in (suc fuel) w this now (a ∷ rest) =
        let w' = pop_front w this a in
        let skip = perform_in fuel w' this now (w'.schedulers this).heap in
        do
          h ← load_handle w a
          let call : ℕ → Result (World × List ℕ) = λ e. do
            w2 ← slot e (set_handle w' e none)
            (w3, called) ← perform_in fuel w2 this now (w2.schedulers this).heap
            ok (w3, e ∷ called)
          let round : Result (World × List ℕ) = elim h.entry [ none ↦ skip | some e ↦ call e ]
          if leb h.time now then round else ok (w, [])

    unfoldable pub perform : ℕ → World → ℕ → ℕ → Result (World × List ℕ)
    perform fuel w this now = perform_in fuel w this now (w.schedulers this).heap
