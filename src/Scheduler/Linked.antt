-- ===== src/Scheduler/Linked.antt =====
-- The invariant of src/torrent/system/scheduler.cc: each scheduled entry has exactly one handle, on the heap
-- of its scheduler, and no handle leads to an entry that it does not belong to.
use libtorrent.Common.Counting.{count}
use mathlib.Core.Path.{subst}
use libtorrent.Common.{
  ℕ, ◌+◌, ◌≤◌, ◌<◌, List, [], ◌∷◌, Bool-cases, true, Option, Option-cases, none, some,
  if◌then◌else◌, ◌==◌, ◌≡◌, sym, inl, inr, arith,
}
use libtorrent.Scheduler.{
  SchedulerHandle, World, HeapAlgorithms, replace, time_of, handle_time, set_handle, drop_entry,
  push_entry, pop_front, without_entry,
}

-- What std::ranges::push_heap and pop_heap promise of a range that is a heap: `IsHeap key` stands for
-- std::ranges::is_heap with the earliest key in front.
pub record IsHeapAlgorithms (std : HeapAlgorithms) : Type 1 where
  pub IsHeap : (ℕ → ℕ) → List ℕ → Type 0
  pub none_yet : (key : ℕ → ℕ) → IsHeap key []
  pub same_keys :
      (key key' : ℕ → ℕ) (hs : List ℕ)
      → ((a : ℕ) → 0 < count a hs → key a ≡ key' a)
      → IsHeap key hs
      → IsHeap key' hs
  pub push_shape :
      (key : ℕ → ℕ) (hs : List ℕ) (a : ℕ) → IsHeap key hs → IsHeap key (std.push_heap key hs a)
  pub push_count :
      (key : ℕ → ℕ) (hs : List ℕ) (a b : ℕ)
      → count b (std.push_heap key hs a) ≡ (if b == a then 1 else 0) + count b hs
  pub front_least :
      (key : ℕ → ℕ) (hs : List ℕ) (a b : ℕ) → IsHeap key (a ∷ hs) → 0 < count b hs → key a ≤ key b
  pub pop_shape :
      (key : ℕ → ℕ) (hs : List ℕ) (a : ℕ)
      → IsHeap key (a ∷ hs)
      → IsHeap key (std.pop_heap key (a ∷ hs))
  pub pop_count :
      (key : ℕ → ℕ) (hs : List ℕ) (a b : ℕ)
      → IsHeap key (a ∷ hs)
      → count b (std.pop_heap key (a ∷ hs)) ≡ count b hs

-- Whether a handle, if there is one, is of the scheduler `s`.
abbrev pub is_of : Option SchedulerHandle → ℕ → ℕ
is_of none s = 0
is_of (some h) s = if h.scheduler == s then 1 else 0

module _ (std : HeapAlgorithms) (laws : IsHeapAlgorithms std) where
  pub record IsLinked (w : World) : Type 0 where
    pub counted : (s a : ℕ) → count a (w.schedulers s).heap ≡ is_of (w.handles a) s
    pub shaped : (s : ℕ) → laws.IsHeap (λ a. time_of (w.handles a)) (w.schedulers s).heap
    pub back :
        (a e : ℕ) (h : SchedulerHandle)
        → w.handles a ≡ some h
        → h.entry ≡ some e
        → (w.entries e).handle ≡ some a
    pub forth :
        (e a : ℕ)
        → (w.entries e).handle ≡ some a
        → (h : SchedulerHandle) × (w.handles a ≡ some h) × (h.entry ≡ some e)
    pub usable : (e a : ℕ) → (w.entries e).handle ≡ some a → (w.entries e).valid ≡ true
    pub new : (a : ℕ) (h : SchedulerHandle) → w.handles a ≡ some h → a < w.fresh

  pub no_handle : (w : World) → IsLinked w → w.handles w.fresh ≡ none
  no_handle w l = elim (Option-cases (w.handles w.fresh)) [
    | inl e ↦ e
    | inr (h, e) ↦ absurd (omega (arith, l.new w.fresh h e))
  ]

  -- An entry without a handle gets one.
  pub push_entry-IsLinked :
      (w : World) (this e time : ℕ)
      → IsLinked w
      → (w.entries e).handle ≡ none
      → (w.entries e).valid ≡ true
      → IsLinked (push_entry std w this e time)
  unfolding push_entry
  push_entry-IsLinked w this e time l free valid =
      let gone = no_handle w l in
      let handles =
        replace w.handles w.fresh
          (some (record { entry = some e; scheduler = this; time = time })) in
      let key : ℕ → ℕ = λ a. time_of (handles a) in
      let heap = (w.schedulers this).heap in
      let agree : (s a : ℕ) → 0 < count a (w.schedulers s).heap → time_of (w.handles a) ≡ key a =
        λ s a some_there. ground (arith, l.counted s a, gone, some_there) in
      record {
        counted = λ s a. elim (Bool-cases (this == s)) [
          | inl same ↦ ground (arith, same, l.counted s a, laws.push_count key heap w.fresh a, gone)
          | inr other ↦ ground (arith, other, l.counted s a, gone)
        ];
        shaped = λ s. elim (Bool-cases (this == s)) [
          | inl same ↦ rw same (
              laws.push_shape key heap w.fresh
                (laws.same_keys _ key heap (agree this) (l.shaped this)))
          | inr other ↦ rw other (laws.same_keys _ key (w.schedulers s).heap (agree s) (l.shaped s))
        ];
        back = λ a f h at of. ground (arith, at, of, l.back a f h, free);
        forth = λ f a at. elim (Bool-cases (e == f)) [
          | inl same ↦ (
            record { entry = some e; scheduler = this; time = time },
            ground (arith, at, same),
            ground (arith, same),
          )
          | inr other ↦
              let (h, held, of) = l.forth f a (ground (arith, at, other)) in
              (h, ground (arith, held, gone), of)
        ];
        usable = λ f a at. ground (arith, at, valid, l.usable f a);
        new = λ a h at. ground (arith, at, l.new a h);
      }

  -- An entry is taken off its handle, which stays on the heap.
  pub set_handle-IsLinked :
      (w : World) (e a : ℕ)
      → IsLinked w
      → (w.entries e).handle ≡ some a
      → IsLinked (set_handle (drop_entry w a) e none)
  unfolding set_handle drop_entry
  set_handle-IsLinked w e a l at =
      let (h, held, of) = l.forth e a at in
      let key : ℕ → ℕ = λ b. time_of (replace w.handles a (without_entry (w.handles a)) b) in
      record {
        counted = λ s b. ground (arith, l.counted s b, held);
        shaped = λ s.
            laws.same_keys _ key (w.schedulers s).heap (λ b some_there. ground (arith, held))
              (l.shaped s);
        back = λ b f g there of_f. ground (arith, there, of_f, l.back b f g, of, held, at);
        forth = λ f b there. elim (Bool-cases (e == f)) [
          | inl same ↦ absurd (ground (arith, there, same))
          | inr other ↦
              let (g, held_g, of_g) = l.forth f b (ground (arith, there, other)) in
              (g, ground (arith, held_g, of_g, held, of, other), of_g)
        ];
        usable = λ f b there. ground (arith, there, l.usable f b);
        new = λ b g there. ground (arith, there, l.new b g, l.new a h held);
      }

  -- A handle in front whose entry is not scheduled by it goes away.
  pub pop_front-IsLinked :
      (w : World) (this a : ℕ) (rest : List ℕ) (h : SchedulerHandle)
      → IsLinked w
      → (w.schedulers this).heap ≡ a ∷ rest
      → w.handles a ≡ some h
      → h.entry ≡ none
      → IsLinked (pop_front std w this a)
  unfolding pop_front handle_time count
  pop_front-IsLinked w this a rest h l front at of =
      let key : ℕ → ℕ = λ b. time_of (w.handles b) in
      let key' : ℕ → ℕ = λ b. time_of (replace w.handles a none b) in
      let shape : laws.IsHeap key (a ∷ rest) = rw (sym front) (l.shaped this) in
      let mine : (b : ℕ) → count b (a ∷ rest) ≡ is_of (w.handles b) this =
        λ b. subst (λ hs. count b hs ≡ is_of (w.handles b) this) front (l.counted this b) in
      let popped : (b : ℕ) → count b (std.pop_heap key (w.schedulers this).heap) ≡ count b rest =
        λ b. rw front (laws.pop_count key rest a b shape) in
      let still : laws.IsHeap key (std.pop_heap key (w.schedulers this).heap) =
        rw front (laws.pop_shape key rest a shape) in
      let lone : count a rest ≡ 0 = ground (arith, mine a, at) in
      record {
        counted = λ s b. elim (Bool-cases (this == s)) [
          | inl same ↦ ground (arith, same, popped b, mine b, at, lone)
          | inr other ↦ ground (arith, other, l.counted s b, at, mine b)
        ];
        shaped = λ s. elim (Bool-cases (this == s)) [
          | inl same ↦ rw same (
              laws.same_keys key key' _ (λ b some_there. ground (arith, popped b, lone, some_there))
                still)
          | inr other ↦ rw other (
              laws.same_keys key key' (w.schedulers s).heap
                (λ b some_there. ground (arith, l.counted s b, mine b, other, some_there))
                (l.shaped s))
        ];
        back = λ b f g there of_f. ground (arith, there, of_f, l.back b f g);
        forth = λ f b there.
            let (g, held_g, of_g) = l.forth f b there in
            (g, ground (arith, held_g, of_g, at, of), of_g);
        usable = λ f b there. l.usable f b there;
        new = λ b g there. ground (arith, there, l.new b g);
      }
