-- ===== src/Tests/Scheduler.antt =====
-- Runs of src/torrent/system/scheduler.cc on a heap that keeps its addresses in the order of their times.
use libtorrent.Common.Counting.{elem, count}
use libtorrent.Scheduler.Counts.{due_count}
use libtorrent.Common.{
  ℕ, ◌+◌, ◌*◌, ◌≤◌, ◌<◌, List, [], ◌∷◌, Bool-cases, true, false, Result, ok, if◌then◌else◌, leb,
  ltb, ◌==◌, ◌≡◌, refl, inl, inr, arith, map_ok,
}
use libtorrent.Scheduler.{
  World, HeapAlgorithms, one_year, erase, update_wait_until, next_timeout, perform, push_entry,
  perform_in, pop_front, load_handle, set_handle,
}
use libtorrent.Scheduler.Linked.{IsHeapAlgorithms, IsLinked, push_entry-IsLinked}
use libtorrent.Scheduler.Timers.{IsTimed, IsOwn, erase-IsTimed, update_wait_until-IsTimed}
use libtorrent.Scheduler.Timeout.{IsEarliest, next_timeout-IsEarliest}
use libtorrent.Scheduler.Perform.{IsQuiet, is_due, due_in, perform-done, IsCalm}
use libtorrent.Scheduler.Safety.{
  Operation, start, start-IsLinked, run_all, run_all-IsLinked, AreCalm, HasCalm,
}

push_sorted : (ℕ → ℕ) → List ℕ → ℕ → List ℕ
push_sorted key [] a = a ∷ []
push_sorted key (b ∷ bs) a = if leb (key a) (key b) then a ∷ b ∷ bs else b ∷ push_sorted key bs a

pop_first : (ℕ → ℕ) → List ℕ → List ℕ
pop_first key [] = []
pop_first key (a ∷ bs) = bs

abbrev sorted_heap : HeapAlgorithms
sorted_heap = record { push_heap = push_sorted; pop_heap = pop_first }

-- Sorted, and no earlier than `low`.
abbrev Late : ℕ → (ℕ → ℕ) → List ℕ → Type 0
Late low key [] = Unit {0}
Late low key (a ∷ bs) = (low ≤ key a) × Late (key a) key bs

push_sorted-Late :
    (low : ℕ) (key : ℕ → ℕ) (hs : List ℕ) (a : ℕ)
    → low ≤ key a
    → Late low key hs
    → Late low key (push_sorted key hs a)
unfolding push_sorted
push_sorted-Late low key [] a le s = (le, tt)
push_sorted-Late low key (b ∷ bs) a le s = elim (Bool-cases (leb (key a) (key b))) [
  | inl before ↦ rw before (le, (ground (arith, before), s.1))
  | inr after ↦ rw after (s.0, push_sorted-Late (key b) key bs a (ground (arith, after)) s.1)
]

push_sorted-count :
    (key : ℕ → ℕ) (hs : List ℕ) (a b : ℕ)
    → count b (push_sorted key hs a) ≡ (if b == a then 1 else 0) + count b hs
unfolding push_sorted count
push_sorted-count key [] a b = refl
push_sorted-count key (c ∷ cs) a b = elim (Bool-cases (leb (key a) (key c))) [
  | inl before ↦ rw before refl
  | inr after ↦ rw after (omega (arith, push_sorted-count key cs a b))
]

Late-keys :
    (low low' : ℕ) (key key' : ℕ → ℕ) (hs : List ℕ)
    → low ≡ low'
    → ((a : ℕ) → 0 < count a hs → key a ≡ key' a)
    → Late low key hs
    → Late low' key' hs
unfolding count
Late-keys low low' key key' [] e same s = tt
Late-keys low low' key key' (a ∷ bs) e same s =
    let here = same a (ground arith) in
    (
      omega (arith, e, here, s.0),
      Late-keys (key a) (key' a) key key' bs here (λ b there. same b (omega (arith, there))) s.1,
    )

Late-least :
    (low : ℕ) (key : ℕ → ℕ) (hs : List ℕ) (b : ℕ) → Late low key hs → 0 < count b hs → low ≤ key b
unfolding count
Late-least low key [] b s there = absurd (omega (arith, there))
Late-least low key (a ∷ bs) b s there = elim (Bool-cases (b == a)) [
  | inl same ↦ let e : b ≡ a = ground (arith, same) in rw e s.0
  | inr other ↦ omega (arith, s.0, Late-least (key a) key bs b s.1 (ground (arith, there, other)))
]

sorted_heap_laws : IsHeapAlgorithms sorted_heap
unfolding pop_first
sorted_heap_laws = record {
  IsHeap = λ key hs. Late 0 key hs;
  none_yet = λ key. tt;
  same_keys = λ key key' hs same s. Late-keys 0 0 key key' hs refl same s;
  push_shape = λ key hs a s. push_sorted-Late 0 key hs a (omega arith) s;
  push_count = push_sorted-count;
  front_least = λ key hs a b s there. Late-least (key a) key hs b s.1 there;
  pop_shape = λ key hs a s. widen (key a) key hs s.1;
  pop_count = λ key hs a b s. refl;
}
  where
    widen : (low : ℕ) (key : ℕ → ℕ) (hs : List ℕ) → Late low key hs → Late 0 key hs
    widen low key [] s = tt
    widen low key (a ∷ bs) s = (omega arith, s.1)

abbrev empty_world : World
empty_world = start (λ e. ltb e 5)

empty_world-IsLinked : IsLinked sorted_heap sorted_heap_laws empty_world
empty_world-IsLinked = start-IsLinked sorted_heap sorted_heap_laws (λ e. ltb e 5)

abbrev later : ℕ
later = 2 * one_year

abbrev one_timer : World
one_timer = push_entry sorted_heap empty_world 0 1 later

one_timer-IsLinked : IsLinked sorted_heap sorted_heap_laws one_timer
unfolding start
one_timer-IsLinked =
    push_entry-IsLinked sorted_heap sorted_heap_laws empty_world 0 1 later empty_world-IsLinked refl
      refl

one_timer-IsOwn : IsOwn one_timer 0 1
unfolding push_entry start
one_timer-IsOwn a at = ground (arith, at)

erase-IsTimed_example :
    (w' : World) × (erase one_timer 0 1 ≡ ok w')
    × IsLinked sorted_heap sorted_heap_laws w'
    × IsTimed one_timer w' 1 0
erase-IsTimed_example =
    erase-IsTimed sorted_heap sorted_heap_laws one_timer 0 1 one_timer-IsLinked one_timer-IsOwn

one_timer-valid : (one_timer.entries 1).valid ≡ true
unfolding push_entry start
one_timer-valid = refl

update_wait_until-IsTimed_example :
    (w' : World) × (update_wait_until sorted_heap one_timer 0 1 one_year ≡ ok w')
    × IsLinked sorted_heap sorted_heap_laws w'
    × IsTimed one_timer w' 1 one_year
update_wait_until-IsTimed_example =
    update_wait_until-IsTimed sorted_heap sorted_heap_laws one_timer 0 1 one_year one_timer-IsLinked
      one_timer-IsOwn one_timer-valid (omega arith)

next_timeout-IsEarliest_example :
    (w' : World) × (t : ℕ) × (next_timeout sorted_heap one_timer 0 1000 ≡ ok (w', t))
    × IsLinked sorted_heap sorted_heap_laws w'
    × (w'.entries ≡ one_timer.entries)
    × IsEarliest one_timer 0 1000 t
next_timeout-IsEarliest_example =
    next_timeout-IsEarliest sorted_heap sorted_heap_laws one_timer 0 1000 one_timer-IsLinked

-- Slots that do nothing.
no_effect : ℕ → World → Result World
no_effect e w = ok w

no_effect-IsQuiet : IsQuiet sorted_heap sorted_heap_laws no_effect 0 (3 * one_year)
unfolding no_effect
no_effect-IsQuiet = record { runs = λ e w l. (w, refl, l, λ f. refl, omega arith) }

one_due : due_in one_timer 0 (3 * one_year) < 2
unfolding due_in due_count push_entry push_sorted start
one_due = omega arith

no_effect-IsCalm : IsCalm sorted_heap sorted_heap_laws no_effect 1 (3 * one_year)
unfolding no_effect
no_effect-IsCalm = record { ends = λ e w l. (w, refl, l, omega arith) }

-- Timers are set, moved and erased, and those of the second scheduler come.
abbrev some_calls : List Operation
some_calls =
    Operation.updated 0 1 later
    ∷ Operation.waited 1 2 later
    ∷ Operation.performed 1 (3 * one_year)
    ∷ Operation.waited 1 1 later
    ∷ Operation.erased 1 1
    ∷ []

some_calls-AreCalm : AreCalm sorted_heap sorted_heap_laws no_effect some_calls
unfolding AreCalm HasCalm
some_calls-AreCalm = (tt, (tt, (no_effect-IsCalm, (tt, (tt, tt)))))

run_all-IsLinked_example :
    (w' : World) × (run_all sorted_heap no_effect some_calls empty_world ≡ ok w')
    × IsLinked sorted_heap sorted_heap_laws w'
run_all-IsLinked_example =
    run_all-IsLinked sorted_heap sorted_heap_laws no_effect some_calls empty_world
      some_calls-AreCalm empty_world-IsLinked

perform-done_example :
    (w' : World) × (called : List ℕ) × (perform sorted_heap no_effect 2 one_timer 0 (3 * one_year)
      ≡ ok (w', called))
    × IsLinked sorted_heap sorted_heap_laws w'
    × ((e : ℕ) → elem e called ≡ is_due one_timer 0 (3 * one_year) e)
    × ((e : ℕ) → is_due w' 0 (3 * one_year) e ≡ false)
perform-done_example =
    perform-done sorted_heap sorted_heap_laws no_effect 0 (3 * one_year) no_effect-IsQuiet 2
      one_timer one_timer-IsLinked one_due

perform_run :
    map_ok (λ r. r.1) (perform sorted_heap no_effect 2 one_timer 0 (3 * one_year)) ≡ ok (1 ∷ [])
unfolding perform perform_in push_entry pop_front push_sorted pop_first start no_effect load_handle
    set_handle
perform_run = refl
