-- ===== src/Scheduler/Perform.antt =====
-- `perform` of src/torrent/system/scheduler.cc: it calls the slots of the entries that are due.

use libtorrent.Common.Counting.{elem, count}
use libtorrent.Scheduler.Timers.{load_handle-ok}
use libtorrent.Scheduler.Counts.{due_count_same, due_count_keys}
use libtorrent.Common.{
  ℕ, List, [], ◌∷◌, Bool, true, false, Option, Option-cases, none, some, leb, ◌==◌, ◌≡◌, inl, inr,
  arith, ◌&&◌, ok, refl, ◌+◌, ◌≤◌, ◌∙◌, Result, not, ap, on_none, on_some, Bool-cases, suc, sym,
  zero, ◌<◌,
}
use mathlib.Core.Path.{subst, fun_ext}
use libtorrent.Scheduler.{
  SchedulerHandle, World, HeapAlgorithms, time_of, handle_time, pop_front, set_handle, drop_entry,
  without_entry, replace, perform_in, perform,
}
use libtorrent.Scheduler.Linked.{
  IsHeapAlgorithms, IsLinked, is_of, set_handle-IsLinked, pop_front-IsLinked,
}
use libtorrent.Scheduler.Timeout.{IsOn, popped_count, front_handle, front_least, nothing_on}
use libtorrent.Scheduler.Counts.{due_count, due_count_same, due_count_keys}

abbrev is_due_at : ℕ → ℕ → Option SchedulerHandle → Bool
is_due_at this now none = false
is_due_at this now (some h) = h.scheduler == this && leb h.time now

-- Whether the timer of `e` is on the scheduler `this` and has come.
unfoldable pub is_due : World → ℕ → ℕ → ℕ → Bool
is_due w this now e = elim (w.entries e).handle [
  | none ↦ false
  | some a ↦ is_due_at this now (w.handles a)
]

-- How many handles of the scheduler are due, with those that lead to no entry.
unfoldable pub due_in : World → ℕ → ℕ → ℕ
due_in w this now = due_count (λ a. time_of (w.handles a)) now (w.schedulers this).heap

-- The slots end, leave the world linked, and do not change what is due: they schedule later, and move or
-- erase no timer that has come.
pub record IsQuiet (std : HeapAlgorithms) (laws : IsHeapAlgorithms std)
    (slot : ℕ → World → Result World) (this now : ℕ) : Type 0 where
  pub runs :
      (e : ℕ) (w : World)
      → IsLinked std laws w
      → (w' : World) × (slot e w ≡ ok w')
        × IsLinked std laws w'
        × ((f : ℕ) → is_due w' this now f ≡ is_due w this now f)
        × (due_in w' this now ≤ due_in w this now)

-- The slots end, leave the world linked, and make no more handles due: a timer that they set is later.
pub record IsCalm (std : HeapAlgorithms) (laws : IsHeapAlgorithms std)
    (slot : ℕ → World → Result World) (this now : ℕ) : Type 0 where
  pub ends :
      (e : ℕ) (w : World)
      → IsLinked std laws w
      → (w' : World) × (slot e w ≡ ok w')
        × IsLinked std laws w'
        × (due_in w' this now ≤ due_in w this now)

module _ (std : HeapAlgorithms) (laws : IsHeapAlgorithms std) where
  is_due-IsOn :
      (w : World) (this now e : ℕ)
      → is_due w this now e ≡ true
      → (time : ℕ) × IsOn w this e time × (time ≤ now)
  unfolding is_due
  is_due-IsOn w this now e due = elim (Option-cases (w.entries e).handle) [
    | inl at ↦ absurd (ground (arith, at, due))
    | inr (a, at) ↦ elim (Option-cases (w.handles a)) [
      | inl held ↦ absurd (ground (arith, at, held, due))
      | inr (h, held) ↦ (
        h.time,
        record {
          at = a;
          handle = h;
          by = at;
          held = held;
          own = ground (arith, at, held, due);
          when = refl;
        },
        ground (arith, at, held, due),
      )
    ]
  ]

  nothing_due :
      (w : World) (this now e : ℕ)
      → ((time : ℕ) → IsOn w this e time → time ≤ now → ⊥)
      → is_due w this now e ≡ false
  nothing_due w this now e never = elim (Bool-cases (is_due w this now e)) [
    | inr off ↦ off
    | inl due ↦ let (time, on, le) = is_due-IsOn w this now e due in absurd (never time on le)
  ]

  -- What is due once an entry is taken off its handle.
  set_handle-is_due :
      (w : World) (this now e a f : ℕ)
      → (w.entries e).handle ≡ some a
      → is_due (set_handle (drop_entry w a) e none) this now f ≡ not (f == e) && is_due w this now f
  unfolding is_due set_handle drop_entry
  set_handle-is_due w this now e a f at = elim (Option-cases (w.entries f).handle) [
    | inl none_at ↦ ground (arith, none_at)
    | inr (b, some_at) ↦ elim (Option-cases (w.handles b)) [
      | inl held ↦ ground (arith, some_at, held)
      | inr (h, held) ↦ ground (arith, some_at, held)
    ]
  ]

  pop_front-time :
      (w : World) (this a b : ℕ)
      → (a == b) ≡ false
      → time_of ((pop_front std w this a).handles b) ≡ time_of (w.handles b)
  unfolding pop_front
  pop_front-time w this a b ne = ground (arith, ne)

  drop_time :
      (w : World) (a b : ℕ)
      → time_of (w.handles b) ≡ time_of (replace w.handles a (without_entry (w.handles a)) b)
  drop_time w a b = elim (Option-cases (w.handles a)) [
    | inl held ↦ ground (arith, held)
    | inr (h, held) ↦ ground (arith, held)
  ]

  off_heap :
      (w : World) (a e this : ℕ)
      → ((set_handle (drop_entry w a) e none).schedulers this).heap ≡ (w.schedulers this).heap
  unfolding set_handle drop_entry
  off_heap w a e this = refl

  off_handle :
      (w : World) (a e : ℕ) (h : SchedulerHandle)
      → w.handles a ≡ some h
      → (set_handle (drop_entry w a) e none).handles a ≡ some (record h { entry = none })
  unfolding set_handle drop_entry
  off_handle w a e h held = ground (arith, held)

  off_due :
      (w : World) (a e this now : ℕ)
      → due_in (set_handle (drop_entry w a) e none) this now ≡ due_in w this now
  unfolding set_handle drop_entry due_in
  off_due w a e this now =
      due_count_keys _ _ now (w.schedulers this).heap (λ b some_there. sym (drop_time w a b))

  due_itself :
      (w : World) (this now e a : ℕ) (h : SchedulerHandle)
      → (w.entries e).handle ≡ some a
      → w.handles a ≡ some h
      → (h.scheduler == this) ≡ true
      → leb h.time now ≡ true
      → is_due w this now e ≡ true
  unfolding is_due
  due_itself w this now e a h at held own due = ground (arith, at, held, own, due)

  -- Taking the front off the heap and its entry off it, in either order.
  set_handle-pop_front :
      (w : World) (this a e : ℕ)
      → set_handle (pop_front std w this a) e none
        ≡ pop_front std (set_handle (drop_entry w a) e none) this a
  unfolding set_handle pop_front drop_entry handle_time
  set_handle-pop_front w this a e =
      let s = w.schedulers this in
      let entries = replace w.entries e (record (w.entries e) { handle = none }) in
      let dropped = replace w.handles a (without_entry (w.handles a)) in
      let after : (ℕ → Option SchedulerHandle) → (ℕ → ℕ) → World = λ handles key. record {
        handles = handles;
        entries = entries;
        schedulers = replace w.schedulers this (record s { heap = std.pop_heap key s.heap });
        fresh = w.fresh;
      } in
      let same_time : (λ b. time_of (w.handles b)) ≡ (λ b. time_of (dropped b)) =
        fun_ext λ b. drop_time w a b in
      let same_handles : replace w.handles a none ≡ replace dropped a none =
        fun_ext λ b. ground arith in
      ap (after (replace w.handles a none)) same_time
      ∙ ap (λ handles. after handles (λ b. time_of (dropped b))) same_handles

  module _ (w : World) (this now a : ℕ) (rest : List ℕ) (l : IsLinked std laws w)
      (front : (w.schedulers this).heap ≡ a ∷ rest) (h : SchedulerHandle)
      (held : w.handles a ≡ some h) (due : leb h.time now ≡ true) where
    -- One handle less is due.
    pop_front-due_in : due_in (pop_front std w this a) this now + 1 ≡ due_in w this now
    unfolding due_in due_count count
    pop_front-due_in =
        let key : ℕ → ℕ = λ b. time_of (w.handles b) in
        let w' = pop_front std w this a in
        let key' : ℕ → ℕ = λ b. time_of (w'.handles b) in
        let heap' = (w'.schedulers this).heap in
        let one : count a (a ∷ rest) ≡ is_of (w.handles a) this =
          subst (λ hs. count a hs ≡ is_of (w.handles a) this) front (l.counted this a) in
        let whole : due_in w this now ≡ due_count key now (a ∷ rest) =
          ap (due_count key now) front in
        let fewer =
          due_count_same key' now heap' rest (popped_count std laws w this a rest l front) in
        let lone : count a rest ≡ 0 = ground (arith, one, held) in
        let same =
          due_count_keys key' key now rest
            (λ b some_there. front_key b (ground (arith, some_there, lone))) in
        ground (arith, whole, fewer, same, held, due)
      where
        front_key :
            (b : ℕ)
            → (a == b) ≡ false
            → time_of ((pop_front std w this a).handles b) ≡ time_of (w.handles b)
        front_key b ne = pop_front-time w this a b ne

    pop_front-is_due :
        (f : ℕ) → h.entry ≡ none → is_due (pop_front std w this a) this now f ≡ is_due w this now f
    unfolding is_due pop_front
    pop_front-is_due f of = elim (Option-cases (w.entries f).handle) [
      | inl at ↦ ground (arith, at)
      | inr (b, at) ↦
          let (g, held_g, of_g) = l.forth f b at in ground (arith, at, held_g, of_g, held, of)
    ]

  -- The handle in front, of the entry `e`, goes away.
  take_out :
      (w : World) (this now a e : ℕ) (rest : List ℕ) (h : SchedulerHandle)
      → IsLinked std laws w
      → (w.schedulers this).heap ≡ a ∷ rest
      → w.handles a ≡ some h
      → h.entry ≡ some e
      → leb h.time now ≡ true
      → let w' = set_handle (pop_front std w this a) e none in
        IsLinked std laws w'
        × ((f : ℕ) → is_due w' this now f ≡ not (f == e) && is_due w this now f)
        × (due_in w' this now + 1 ≡ due_in w this now)
  take_out w this now a e rest h l front held of due =
      let at = l.back a e h held of in
      let off = set_handle (drop_entry w a) e none in
      let h' : SchedulerHandle = record h { entry = none } in
      let off_linked = set_handle-IsLinked std laws w e a l at in
      let off_front : (off.schedulers this).heap ≡ a ∷ rest = off_heap w a e this ∙ front in
      let off_held : off.handles a ≡ some h' = off_handle w a e h held in
      let linked =
        pop_front-IsLinked std laws off this a rest h' off_linked off_front off_held refl in
      let same = set_handle-pop_front w this a e in
      (
        subst (IsLinked std laws) (sym same) linked,
        λ f.
            ap (λ w'. is_due w' this now f) same
            ∙ pop_front-is_due off this now a rest off_linked off_front h' off_held due f refl
            ∙ set_handle-is_due w this now e a f at,
        omega (
          arith,
          ap (λ w'. due_in w' this now) same,
          pop_front-due_in off this now a rest off_linked off_front h' off_held due,
          off_due w a e this now,
        ),
      )

  module _ (slot : ℕ → World → Result World) (this now : ℕ)
      (quiet : IsQuiet std laws slot this now) where
    perform_in-done :
        (fuel : ℕ) (w : World) (heap : List ℕ)
        → IsLinked std laws w
        → (w.schedulers this).heap ≡ heap
        → due_in w this now < fuel
        → (w' : World) × (called : List ℕ) × (perform_in std slot fuel w this now heap
            ≡ ok (w', called))
          × IsLinked std laws w'
          × ((e : ℕ) → elem e called ≡ is_due w this now e)
          × ((e : ℕ) → is_due w' this now e ≡ false)
    unfolding perform_in elem
    perform_in-done zero w heap l front le = absurd (omega (arith, le))
    perform_in-done (suc fuel) w [] l front le =
        let idle = λ (e : ℕ).
          nothing_due w this now e (λ time on le. nothing_on std laws w this e time l front on) in
        (w, [], refl, l, λ e. sym (idle e), idle)
    perform_in-done (suc fuel) w (a ∷ rest) l front le =
        let (h, held, own) = front_handle std laws w this a rest l front in
        let loaded = load_handle-ok w a h held in
        elim (Bool-cases (leb h.time now)) [
          | inr early ↦
              let idle = λ (e : ℕ). nothing_due w this now e (λ time on le.
                ground (
                  arith,
                  early,
                  le,
                  front_least std laws w this a rest l front e time on h held,
                )) in
              (w, [], rw loaded (rw early refl), l, λ e. sym (idle e), idle)
          | inl due ↦ elim (Option-cases h.entry) [
            | inl of ↦
                let w1 = pop_front std w this a in
                let (w', called, run, l', hit, idle) =
                  perform_in-done fuel w1 _
                    (pop_front-IsLinked std laws w this a rest h l front held of) refl
                    (omega (arith, le, pop_front-due_in w this now a rest l front h held due)) in
                (
                  w',
                  called,
                  rw loaded (rw due (on_none h.entry _ _ of ∙ run)),
                  l',
                  λ e. hit e ∙ pop_front-is_due w this now a rest l front h held due e of,
                  idle,
                )
            | inr (e, of) ↦
                let w1 = set_handle (pop_front std w this a) e none in
                let itself = due_itself w this now e a h (l.back a e h held of) held own due in
                let (l1, due1, fewer) = take_out w this now a e rest h l front held of due in
                let (w2, run2, l2, same, no_more) = quiet.runs e w1 l1 in
                let (w3, called, run3, l3, hit, idle) =
                  perform_in-done fuel w2 _ l2 refl (omega (arith, le, fewer, no_more)) in
                (
                  w3,
                  e ∷ called,
                  rw loaded (rw due (on_some h.entry _ _ of ∙ rw run2 (rw run3 refl))),
                  l3,
                  λ f. ground (arith, hit f, same f, due1 f, itself),
                  idle,
                )
          ]
        ]

    -- With slots that end and do not change what is due, on a linked world, `perform` ends, in one round for
    -- each due handle and one more at most: it calls the slots of exactly the entries that were due on
    -- the scheduler, none is due afterwards, and the world is linked.
    pub perform-done :
        (fuel : ℕ) (w : World)
        → IsLinked std laws w
        → due_in w this now < fuel
        → (w' : World) × (called : List ℕ) × (perform std slot fuel w this now ≡ ok (w', called))
          × IsLinked std laws w'
          × ((e : ℕ) → elem e called ≡ is_due w this now e)
          × ((e : ℕ) → is_due w' this now e ≡ false)
    unfolding perform
    perform-done fuel w l le = perform_in-done fuel w (w.schedulers this).heap l refl le

  module _ (slot : ℕ → World → Result World) (this now : ℕ)
      (calm : IsCalm std laws slot this now) where
    perform_in-IsLinked :
        (fuel : ℕ) (w : World) (heap : List ℕ)
        → IsLinked std laws w
        → (w.schedulers this).heap ≡ heap
        → due_in w this now < fuel
        → (w' : World) × (called : List ℕ) × (perform_in std slot fuel w this now heap
            ≡ ok (w', called))
          × IsLinked std laws w'
    unfolding perform_in
    perform_in-IsLinked zero w heap l front le = absurd (omega (arith, le))
    perform_in-IsLinked (suc fuel) w [] l front le = (w, [], refl, l)
    perform_in-IsLinked (suc fuel) w (a ∷ rest) l front le =
        let (h, held, own) = front_handle std laws w this a rest l front in
        let loaded = load_handle-ok w a h held in
        elim (Bool-cases (leb h.time now)) [
          | inr early ↦ (w, [], rw loaded (rw early refl), l)
          | inl due ↦ elim (Option-cases h.entry) [
            | inl of ↦
                let w1 = pop_front std w this a in
                let (w', called, run, l') =
                  perform_in-IsLinked fuel w1 _
                    (pop_front-IsLinked std laws w this a rest h l front held of) refl
                    (omega (arith, le, pop_front-due_in w this now a rest l front h held due)) in
                (w', called, rw loaded (rw due (on_none h.entry _ _ of ∙ run)), l')
            | inr (e, of) ↦
                let w1 = set_handle (pop_front std w this a) e none in
                let (l1, due1, fewer) = take_out w this now a e rest h l front held of due in
                let (w2, run2, l2, no_more) = calm.ends e w1 l1 in
                let (w3, called, run3, l3) =
                  perform_in-IsLinked fuel w2 _ l2 refl (omega (arith, le, fewer, no_more)) in
                (
                  w3,
                  e ∷ called,
                  rw loaded (rw due (on_some h.entry _ _ of ∙ rw run2 (rw run3 refl))),
                  l3,
                )
          ]
        ]

    pub perform-IsLinked :
        (fuel : ℕ) (w : World)
        → IsLinked std laws w
        → due_in w this now < fuel
        → (w' : World) × (called : List ℕ) × (perform std slot fuel w this now ≡ ok (w', called))
          × IsLinked std laws w'
    unfolding perform
    perform-IsLinked fuel w l le = perform_in-IsLinked fuel w (w.schedulers this).heap l refl le
