-- ===== src/Scheduler/Timers.antt =====
-- What an entry promises, by the time that `time_or_zero` tells: the operations of
-- src/torrent/system/scheduler.cc move the timer of one entry and leave the others alone.
use libtorrent.Common.{
  ℕ, ◌≤◌, true, false, not, Option-cases, none, some, ok, ltb, ◌==◌, ◌≡◌, refl, ap, ◌∙◌, ◌≢◌, inl,
  inr, arith, internal_error, throw_if, ◌>>◌,
}
use mathlib.Core.Path.{fun_ext}
use libtorrent.Scheduler.{
  SchedulerHandle, SchedulerEntry, World, HeapAlgorithms, handle_time, time_or_zero, set_handle,
  drop_entry, load_handle, erase, erase_entry, push_entry, one_year, update_entry,
  update_wait_until,
}
use libtorrent.Scheduler.Linked.{
  IsHeapAlgorithms, IsLinked, is_of, push_entry-IsLinked, set_handle-IsLinked, no_handle,
}

-- The timer of `e` is at `time`, and the others are where they were.
pub record IsTimed (w w' : World) (e time : ℕ) : Type 0 where
  pub there : time_or_zero w' e ≡ time
  pub others : (f : ℕ) → f ≢ e → time_or_zero w' f ≡ time_or_zero w f
  pub slots : (f : ℕ) → (w'.entries f).valid ≡ (w.entries f).valid

-- The entry is not on the heap of another scheduler.
abbrev pub IsOwn : World → ℕ → ℕ → Type 0
IsOwn w this e = (a : ℕ) → (w.entries e).handle ≡ some a → is_of (w.handles a) this ≡ 1

pub load_handle-ok :
    (w : World) (a : ℕ) (h : SchedulerHandle) → w.handles a ≡ some h → load_handle w a ≡ ok h
unfolding load_handle
load_handle-ok w a h held = ground (arith, held)

module _ (std : HeapAlgorithms) (laws : IsHeapAlgorithms std) where
  push_entry-IsTimed :
      (w : World) (this e time : ℕ)
      → IsLinked std laws w
      → IsTimed w (push_entry std w this e time) e time
  unfolding push_entry time_or_zero handle_time
  push_entry-IsTimed w this e time l = record {
    there = ground arith;
    others = λ f ne. elim (Option-cases (w.entries f).handle) [
      | inl at ↦ ground (arith, at, ne)
      | inr (a, at) ↦
          let (h, held, of) = l.forth f a at in ground (arith, at, ne, held, no_handle std laws w l)
    ];
    slots = λ f. ground arith;
  }

  pub set_handle-IsTimed :
      (w : World) (e a : ℕ) → IsTimed w (set_handle (drop_entry w a) e none) e 0
  unfolding set_handle drop_entry time_or_zero handle_time
  set_handle-IsTimed w e a = record {
    there = ground arith;
    others = λ f ne. elim (Option-cases (w.entries f).handle) [
      | inl at ↦ ground (arith, at, ne)
      | inr (b, at) ↦ elim (Option-cases (w.handles a)) [
        | inl held ↦ ground (arith, at, ne, held)
        | inr (h, held) ↦ ground (arith, at, ne, held)
      ]
    ];
    slots = λ f. ground arith;
  }

  -- Moving an entry is taking it off and putting it on again.
  pub push_entry-drop_entry :
      (w : World) (this e a time : ℕ)
      → push_entry std (drop_entry w a) this e time
        ≡ push_entry std (set_handle (drop_entry w a) e none) this e time
  unfolding push_entry set_handle drop_entry
  push_entry-drop_entry w this e a time =
      ap
        (λ (entries : ℕ → SchedulerEntry). record (push_entry std (drop_entry w a) this e time) {
          entries = entries;
        })
        (fun_ext λ f. ground arith)

  pub off_handle :
      (w : World) (e a : ℕ) → ((set_handle (drop_entry w a) e none).entries e).handle ≡ none
  unfolding set_handle
  off_handle w e a = ground arith

  -- `erase` of an entry of a linked world that is not on another scheduler's heap succeeds, keeps
  -- the world linked and stops the timer of the entry; the other timers stay.
  pub erase-IsTimed :
      (w : World) (this e : ℕ)
      → IsLinked std laws w
      → IsOwn w this e
      → (w' : World) × (erase w this e ≡ ok w') × IsLinked std laws w' × IsTimed w w' e 0
  unfolding erase erase_entry time_or_zero
  erase-IsTimed w this e l own = elim (Option-cases (w.entries e).handle) [
    | inl at ↦ (
      w,
      ap (erase_entry w this e) at,
      l,
      record { there = ground (arith, at); others = λ f ne. refl; slots = λ f. refl },
    )
    | inr (a, at) ↦
        let (h, held, of) = l.forth e a at in
        let mine : (h.scheduler == this) ≡ true = ground (arith, own a at, held) in
        (
          set_handle (drop_entry w a) e none,
          ap (erase_entry w this e) at
              ∙ rw (l.usable e a at, load_handle-ok w a h held) (rw mine refl),
          set_handle-IsLinked std laws w e a l at,
          set_handle-IsTimed w e a,
        )
  ]

  -- `update_wait_until` with a time of a year or more, on a valid entry of a linked world that is not on
  -- another scheduler's heap, succeeds, keeps the world linked and sets the timer of the entry to
  -- the time, whether it was set before or not; the other timers stay.
  pub update_wait_until-IsTimed :
      (w : World) (this e time : ℕ)
      → IsLinked std laws w
      → IsOwn w this e
      → (w.entries e).valid ≡ true
      → one_year ≤ time
      → (w' : World) × (update_wait_until std w this e time ≡ ok w')
        × IsLinked std laws w'
        × IsTimed w w' e time
  unfolding update_wait_until update_entry
  update_wait_until-IsTimed w this e time l own valid le =
      elim (Option-cases (w.entries e).handle) [
        | inl at ↦ (
          push_entry std w this e time,
          rw (positive, late) (guard ∙ ap (update_entry std w this e time) at),
          push_entry-IsLinked std laws w this e time l at valid,
          push_entry-IsTimed w this e time l,
        )
        | inr (a, at) ↦
            let (h, held, of) = l.forth e a at in
            let mine : (h.scheduler == this) ≡ true = ground (arith, own a at, held) in
            let off = set_handle (drop_entry w a) e none in
            let linked = set_handle-IsLinked std laws w e a l at in
            let t1 = set_handle-IsTimed w e a in
            let t2 = push_entry-IsTimed off this e time linked in
            (
              push_entry std off this e time,
              rw (positive, late)
                  (guard
                    ∙ ap (update_entry std w this e time) at
                    ∙ rw (load_handle-ok w a h held)
                        (rw mine (ap ok (push_entry-drop_entry w this e a time)))),
              push_entry-IsLinked std laws off this e time linked (off_handle w e a)
                  (t1.slots e ∙ valid),
              record {
                there = t2.there;
                others = λ f ne. t2.others f ne ∙ t1.others f ne;
                slots = λ f. t2.slots f ∙ t1.slots f;
              },
            )
      ]
    where
      positive : (time == 0) ≡ false
      positive = ground (arith, le)

      late : ltb time one_year ≡ false
      late = ground (arith, le)

      guard :
          (throw_if (not (w.entries e).valid) internal_error
            >> update_entry std w this e time (w.entries e).handle)
          ≡ update_entry std w this e time (w.entries e).handle
      guard =
          ap
            (λ v.
              throw_if (not v) internal_error
              >> update_entry std w this e time (w.entries e).handle)
            valid
