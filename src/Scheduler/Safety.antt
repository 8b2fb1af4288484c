-- ===== src/Scheduler/Safety.antt =====
-- Any sequence of calls of src/torrent/system/scheduler.cc, on any number of schedulers that share their
-- entries, from the start.
use libtorrent.Scheduler.Perform.{IsCalm, due_in, perform-IsLinked}
use libtorrent.Common.Counting.{count}
use libtorrent.Common.{
  ℕ, ◌+◌, List, [], ◌∷◌, Bool, Bool-cases, true, false, not, Option, none, some, Result, ok, err,
  throw_if, internal_error, ltb, ◌==◌, ◌≡◌, refl, ap, ◌∙◌, ◌⊎◌, inl, inr, arith, ◌>>=◌, ◌>>◌,
  map_ok, ◌*◌,
}
use libtorrent.Scheduler.{
  SchedulerHandle, SchedulerEntry, World, HeapAlgorithms, replace, one_year, set_handle, drop_entry,
  load_handle, is_scheduled, erase, erase_entry, push_entry, wait_until, wait_for,
  wait_for_ceil_seconds, update_entry, update_wait_until, update_wait_for,
  update_wait_for_ceil_seconds, next_timeout, ceil_seconds, perform,
}
use libtorrent.Scheduler.Linked.{
  IsHeapAlgorithms, IsLinked, push_entry-IsLinked, set_handle-IsLinked,
}
use libtorrent.Scheduler.Timers.{
  load_handle-ok, push_entry-drop_entry, off_handle, set_handle-IsTimed,
}
use libtorrent.Scheduler.Timeout.{next_timeout-IsEarliest}

-- A call on the first scheduler that is named. `performed` calls the slots of what is due at a time.
pub data Operation : Type 0 where
  erased : ℕ → ℕ → Operation
  waited waited_for waited_for_ceil : ℕ → ℕ → ℕ → Operation
  updated updated_for updated_for_ceil : ℕ → ℕ → ℕ → Operation
  asked cached performed : ℕ → ℕ → Operation

-- No handle, and entries of which some have a slot.
unfoldable pub start : (ℕ → Bool) → World
start valid = record {
  handles = λ a. none;
  entries = λ e. record { valid = valid e; handle = none };
  schedulers = λ s. record { cached_time = 0; heap = [] };
  fresh = 0;
}

unfoldable pub set_cached_time : World → ℕ → ℕ → World
set_cached_time w this time = record w {
  schedulers = replace w.schedulers this (record (w.schedulers this) { cached_time = time });
}

module _ (std : HeapAlgorithms) (slot : ℕ → World → Result World) where
  unfoldable pub run : Operation → World → Result World
  run (erased s e) w = erase w s e
  run (waited s e t) w = wait_until std w s e t
  run (waited_for s e t) w = wait_for std w s e t
  run (waited_for_ceil s e t) w = wait_for_ceil_seconds std w s e t
  run (updated s e t) w = update_wait_until std w s e t
  run (updated_for s e t) w = update_wait_for std w s e t
  run (updated_for_ceil s e t) w = update_wait_for_ceil_seconds std w s e t
  run (asked s most) w = map_ok (λ r. r.0) (next_timeout std w s most)
  run (cached s t) w = ok (set_cached_time w s t)
  run (performed s now) w = map_ok (λ r. r.0) (perform std slot (due_in w s now + 1) w s now)

  -- A call that throws an internal error has changed nothing.
  unfoldable pub go_on : World → Result World → Result World
  go_on w (ok w') = ok w'
  go_on w (err internal_error) = ok w
  go_on w (err other) = err other

  unfoldable pub run_all : List Operation → World → Result World
  run_all [] w = ok w
  run_all (o ∷ os) w = go_on w (run o w) >>= run_all os

module _ (std : HeapAlgorithms) (laws : IsHeapAlgorithms std) where
  -- A linked world, or an internal error.
  abbrev IsSafe : Result World → Type 0
  IsSafe r = (r ≡ err internal_error) ⊎ ((w : World) × (r ≡ ok w) × IsLinked std laws w)

  guard-IsSafe :
      (bad : Bool) (r : Result World)
      → (bad ≡ false → IsSafe r)
      → IsSafe (throw_if bad internal_error >> r)
  guard-IsSafe true r f = inl refl
  guard-IsSafe false r f = f refl

  -- What follows the load of a handle that is there.
  loaded-IsSafe :
      (w : World) (a : ℕ) (h : SchedulerHandle) (next : SchedulerHandle → Result World)
      → w.handles a ≡ some h
      → IsSafe (next h)
      → IsSafe (load_handle w a >>= next)
  loaded-IsSafe w a h next held s = rw (load_handle-ok w a h held) s

  erase_entry-IsSafe :
      (w : World) (this e : ℕ) (o : Option ℕ)
      → IsLinked std laws w
      → (w.entries e).handle ≡ o
      → IsSafe (erase_entry w this e o)
  unfolding erase_entry
  erase_entry-IsSafe w this e none l at = inr (w, refl, l)
  erase_entry-IsSafe w this e (some a) l at =
      let (h, held, of) = l.forth e a at in
      let off = set_handle (drop_entry w a) e none in
      let checked : SchedulerHandle → Result World =
        λ h. throw_if (not (h.scheduler == this)) internal_error >> ok off in
      guard-IsSafe (not (w.entries e).valid) (load_handle w a >>= checked) λ valid.
        loaded-IsSafe w a h checked held (
          guard-IsSafe (not (h.scheduler == this)) (ok off)
            λ own. inr (off, refl, set_handle-IsLinked std laws w e a l at))

  update_entry-IsSafe :
      (w : World) (this e time : ℕ) (o : Option ℕ)
      → IsLinked std laws w
      → (w.entries e).handle ≡ o
      → (w.entries e).valid ≡ true
      → IsSafe (update_entry std w this e time o)
  unfolding update_entry
  update_entry-IsSafe w this e time none l at valid =
      inr
        (push_entry std w this e time, refl, push_entry-IsLinked std laws w this e time l at valid)
  update_entry-IsSafe w this e time (some a) l at valid =
      let (h, held, of) = l.forth e a at in
      let off = set_handle (drop_entry w a) e none in
      let moved = push_entry std (drop_entry w a) this e time in
      let checked : SchedulerHandle → Result World =
        λ h. throw_if (not (h.scheduler == this)) internal_error >> ok moved in
      loaded-IsSafe w a h checked held (
        guard-IsSafe (not (h.scheduler == this)) (ok moved) λ own. inr (
          push_entry std off this e time,
          ap ok (push_entry-drop_entry std laws w this e a time),
          push_entry-IsLinked std laws off this e time (set_handle-IsLinked std laws w e a l at)
              (off_handle std laws w e a) ((set_handle-IsTimed std laws w e a).slots e ∙ valid),
        ))

  not-false : (b : Bool) → not b ≡ false → b ≡ true
  not-false true e = refl
  not-false false e = cc

  not_scheduled : (e : SchedulerEntry) → is_scheduled e ≡ false → e.handle ≡ none
  unfolding is_scheduled
  not_scheduled e off = ground (arith, off)

  wait_until-IsSafe :
      (w : World) (this e time : ℕ) → IsLinked std laws w → IsSafe (wait_until std w this e time)
  unfolding wait_until
  wait_until-IsSafe w this e time l =
      let entry = w.entries e in
      let pushed : Result World = ok (push_entry std w this e time) in
      let free = throw_if (is_scheduled entry) internal_error >> pushed in
      let slotted = throw_if (not entry.valid) internal_error >> free in
      let late = throw_if (ltb time one_year) internal_error >> slotted in
      guard-IsSafe (time == 0) late λ positive. guard-IsSafe (ltb time one_year) slotted λ in_time.
        guard-IsSafe (not entry.valid) free λ valid. guard-IsSafe (is_scheduled entry) pushed λ off.
          inr (
            push_entry std w this e time,
            refl,
            push_entry-IsLinked std laws w this e time l (not_scheduled entry off)
                (not-false entry.valid valid),
          )

  update_wait_until-IsSafe :
      (w : World) (this e time : ℕ)
      → IsLinked std laws w
      → IsSafe (update_wait_until std w this e time)
  unfolding update_wait_until
  update_wait_until-IsSafe w this e time l =
      let entry = w.entries e in
      let moved = update_entry std w this e time entry.handle in
      let slotted = throw_if (not entry.valid) internal_error >> moved in
      let late = throw_if (ltb time one_year) internal_error >> slotted in
      guard-IsSafe (time == 0) late λ positive. guard-IsSafe (ltb time one_year) slotted λ in_time.
        guard-IsSafe (not entry.valid) moved λ valid.
          update_entry-IsSafe w this e time entry.handle l refl (not-false entry.valid valid)

  set_cached_time-IsLinked :
      (w : World) (this time : ℕ)
      → IsLinked std laws w
      → IsLinked std laws (set_cached_time w this time)
  unfolding set_cached_time
  set_cached_time-IsLinked w this time l = record {
    counted = λ s a. ground (arith, l.counted s a);
    shaped = λ s. elim (Bool-cases (this == s)) [
      | inl same ↦ rw same (l.shaped this)
      | inr other ↦ rw other (l.shaped s)
    ];
    back = l.back;
    forth = l.forth;
    usable = l.usable;
    new = l.new;
  }

  -- What is asked of the slots where a call makes them run.
  unfoldable pub HasCalm : (ℕ → World → Result World) → Operation → Type 0
  HasCalm slot (performed s now) = IsCalm std laws slot s now
  HasCalm slot _ = Unit {0}

  unfoldable pub AreCalm : (ℕ → World → Result World) → List Operation → Type 0
  AreCalm slot [] = Unit {0}
  AreCalm slot (o ∷ os) = HasCalm slot o × AreCalm slot os

  run-IsSafe :
      (slot : ℕ → World → Result World) (o : Operation) (w : World)
      → HasCalm slot o
      → IsLinked std laws w
      → IsSafe (run std slot o w)
  unfolding run HasCalm erase wait_for wait_for_ceil_seconds update_wait_for
      update_wait_for_ceil_seconds
  run-IsSafe slot (erased s e) w calm l = erase_entry-IsSafe w s e (w.entries e).handle l refl
  run-IsSafe slot (waited s e t) w calm l = wait_until-IsSafe w s e t l
  run-IsSafe slot (waited_for s e t) w calm l =
      let time = (w.schedulers s).cached_time + t in
      guard-IsSafe (ltb (10 * one_year) t) (wait_until std w s e time)
        λ small. wait_until-IsSafe w s e time l
  run-IsSafe slot (waited_for_ceil s e t) w calm l =
      let time = ceil_seconds ((w.schedulers s).cached_time + t) in
      guard-IsSafe (ltb (10 * one_year) t) (wait_until std w s e time)
        λ small. wait_until-IsSafe w s e time l
  run-IsSafe slot (updated s e t) w calm l = update_wait_until-IsSafe w s e t l
  run-IsSafe slot (updated_for s e t) w calm l =
      let time = (w.schedulers s).cached_time + t in
      guard-IsSafe (ltb (10 * one_year) t) (update_wait_until std w s e time)
        λ small. update_wait_until-IsSafe w s e time l
  run-IsSafe slot (updated_for_ceil s e t) w calm l =
      let time = ceil_seconds ((w.schedulers s).cached_time + t) in
      guard-IsSafe (ltb (10 * one_year) t) (update_wait_until std w s e time)
        λ small. update_wait_until-IsSafe w s e time l
  run-IsSafe slot (asked s most) w calm l =
      let (w', t, run', l', same, r) = next_timeout-IsEarliest std laws w s most l in
      inr (w', rw run' refl, l')
  run-IsSafe slot (cached s t) w calm l =
      inr (set_cached_time w s t, refl, set_cached_time-IsLinked w s t l)
  run-IsSafe slot (performed s now) w calm l =
      let (w', called, run', l') =
        perform-IsLinked std laws slot s now calm (due_in w s now + 1) w l (omega arith) in
      inr (w', rw run' refl, l')

  pub start-IsLinked : (valid : ℕ → Bool) → IsLinked std laws (start valid)
  unfolding start count
  start-IsLinked valid = record {
    counted = λ s a. refl;
    shaped = λ s. laws.none_yet _;
    back = λ a e h at of. ground (arith, at);
    forth = λ e a at. absurd (ground (arith, at));
    usable = λ e a at. ground (arith, at);
    new = λ a h at. absurd (ground (arith, at));
  }

  -- On a linked world, any sequence of calls on any schedulers, those that throw an internal error
  -- skipped, and perform among them with slots that end, leave the world linked and make no more timers due at
  -- the time it is called for, never follows a pointer to a handle that is gone, never runs out of fuel, and
  -- ends in a linked world: each scheduled entry has one handle that is once on the heap of one scheduler, and
  -- no other handle leads to it.
  pub run_all-IsLinked :
      (slot : ℕ → World → Result World) (os : List Operation) (w : World)
      → AreCalm slot os
      → IsLinked std laws w
      → (w' : World) × (run_all std slot os w ≡ ok w') × IsLinked std laws w'
  unfolding run_all go_on AreCalm
  run_all-IsLinked slot [] w calm l = (w, refl, l)
  run_all-IsLinked slot (o ∷ os) w (first, calm) l = elim (run-IsSafe slot o w first l) [
    | inl thrown ↦
        let (w', rest, l') = run_all-IsLinked slot os w calm l in (w', rw thrown rest, l')
    | inr (w1, done, l1) ↦
        let (w', rest, l') = run_all-IsLinked slot os w1 calm l1 in (w', rw done rest, l')
  ]
