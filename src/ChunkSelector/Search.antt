-- ===== src/ChunkSelector/Search.antt =====
-- The linear searches of src/download/chunk_selector.cc keep a queue usable, and put into it chunks that
-- the peer has and that are untouched.

use libtorrent.Ranges.Cover.{IsSorted, Above-IsSorted}
use libtorrent.Ranges.{Range, find}
use libtorrent.ChunkSelector.Advance.{EndsAbove, EndsAbove-next, find-EndsAbove, find-IsSorted}
use libtorrent.Bitfield.{Bitfield}
use libtorrent.Bitfield.Valid.{IsValid}
use libtorrent.Bitfield.Count.{bit}
use libtorrent.Common.{
  Bool, Bool-cases, List, arith, false, get_or, inl, inr, length, ltb, not, ok, refl, suc, true,
  zero, ℕ, ◌&&◌, ◌+◌, ◌<◌, ◌==◌, ◌≡◌, ◌≤◌, [], max, min, ◌-◌, ◌∙◌, ◌∷◌, ◌⊎◌,
}
use libtorrent.PartialQueue.{PartialQueue, num_layers, inserted, popped, clear}
use libtorrent.PartialQueue
use libtorrent.PartialQueue.Contents.{
  IsHolding, insert-IsHolding, IsHolding-IsEnabled, prepare_pop-IsHolding, clear-IsHolding,
}
use libtorrent.ChunkStatistics.{ChunkStatistics}
use libtorrent.ChunkSelector.{
  rarity, try_insert, search_linear_range, search_linear_from, search_linear, search_around,
  DownloadData,
}
use libtorrent.ChunkSelector.Bytes.{offer, search_linear_range-offer, in_both}

-- A queue of values of the kind, its array and limit hidden.
pub record Holding (P : ℕ → Type 0) (q : PartialQueue) : Type 0 where
  pub array : List ℕ
  pub limit : ℕ
  pub holding : IsHolding P q array limit

module _ (P : ℕ → Type 0) (s : ChunkStatistics) where
  offer-Holding :
      (f : ℕ → Bool) (n i : ℕ) (q : PartialQueue)
      → i + n ≤ length s.counters
      → ((j : ℕ) → i ≤ j → j < i + n → f j ≡ true → P j)
      → Holding P q
      → (q' : PartialQueue) × (go_on : Bool) × (offer s f n i q ≡ ok (q', go_on)) × Holding P q'
  unfolding offer try_insert rarity
  offer-Holding f zero i q le p h = (q, true, refl, h)
  offer-Holding f (suc n) i q le p h =
      let counted : ltb i (length s.counters) ≡ true = ground (arith, le) in
      let rest = λ (q' : PartialQueue) (h' : Holding P q').
        offer-Holding f n (i + 1) q' (omega (arith, le))
          (λ j lo hi. p j (omega (arith, lo)) (omega (arith, hi))) h' in
      elim (Bool-cases (f i)) [
        | inr off ↦ let (q', go_on, run, h') = rest q h in (q', go_on, rw off run, h')
        | inl on ↦
            let key = get_or s.counters i 0 in
            let (q', d', limit', run, h') =
              insert-IsHolding P q h.array h.limit key i h.holding
                (p i (omega arith) (omega arith) on) in
            elim (Bool-cases (not (ltb key q.ceiling) && q'.ceiling == 0)) [
              | inl full ↦ (
                q',
                false,
                rw (on, counted) (rw run (rw full refl)),
                record { array = d'; limit = limit'; holding = h' },
              )
              | inr room ↦
                  let (q2, go_on, run2, h2) =
                    rest q' (record { array = d'; limit = limit'; holding = h' }) in
                  (q2, go_on, rw (on, counted) (rw run (rw room run2)), h2)
            ]
      ]

pub prepared :
    (P : ℕ → Type 0) (q : PartialQueue)
    → Holding P q
    → (q' : PartialQueue) × (any : Bool) × (PartialQueue.prepare_pop q ≡ ok (q', any))
      × Holding P q'
      × (any ≡ true → popped q' q'.index < inserted q' q'.index)
prepared P q h =
    let (q', any, run, h', left, _) = prepare_pop-IsHolding P q h.array h.limit h.holding in
    (q', any, run, record { array = h.array; limit = h.limit; holding = h' }, left)

pub cleared-Holding :
    (P Q : ℕ → Type 0) (q : PartialQueue) → Holding P q → Holding Q (PartialQueue.clear q)
cleared-Holding P Q q h = record {
  array = h.array;
  limit = 8;
  holding = clear-IsHolding Q q h.array (IsHolding-IsEnabled P h.holding);
}

module _ (d : DownloadData) (s : ChunkStatistics) (bf : Bitfield) (us ps : List ℕ)
    (vu : IsValid d.untouched us) (vp : IsValid bf ps) (same : bf.size ≡ d.untouched.size)
    (counted : length s.counters ≡ d.untouched.size) where
  -- A chunk that the peer has, and one that is untouched as well.
  abbrev pub Had : ℕ → Type 0
  Had i = (i < d.untouched.size) × (bit ps i ≡ true)

  abbrev pub Open : ℕ → Type 0
  Open i = (i < d.untouched.size) × (bit ps i ≡ true) × (bit us i ≡ true)

  search_linear_range-Holding :
      (q : PartialQueue) (first last : ℕ)
      → first < last
      → last ≤ d.untouched.size
      → Holding Open q
      → (q' : PartialQueue) × (go_on : Bool) × (search_linear_range s d.untouched bf q first last
          ≡ ok (q', go_on))
        × Holding Open q'
  search_linear_range-Holding q first last lt le h =
      let (q', go_on, run, h') =
        offer-Holding Open s (in_both s d.untouched bf us ps vu vp same) (last - first) first q
          (omega (arith, lt, le, counted))
          (λ j lo hi e. (omega (arith, hi, lt, le), ground (arith, e), ground (arith, e))) h in
      (
        q',
        go_on,
        search_linear_range-offer s d.untouched bf us ps vu vp same q first last lt le ∙ run,
        h',
      )

  search_linear_from-Holding :
      (rs : List Range) (q : PartialQueue) (first last : ℕ)
      → IsSorted rs
      → EndsAbove first rs
      → (first < last) ⊎ (last ≡ 0)
      → last ≤ d.untouched.size
      → Holding Open q
      → (q' : PartialQueue) × (go_on : Bool) × (search_linear_from s d.untouched bf q rs first last
          ≡ ok (q', go_on))
        × Holding Open q'
  unfolding search_linear_from
  search_linear_from-Holding [] q first last so e lt le h = (q, true, refl, h)
  search_linear_from-Holding ((a, b) ∷ rest) q first last so e lt le h =
      elim (Bool-cases (ltb a last)) [
        | inr beyond ↦ (q, true, rw beyond refl, h)
        | inl inside ↦
            let (q', go_on, run, h') =
              search_linear_range-Holding q (max first a) (min last b)
                (ground (arith, inside, e, lt, so.0)) (omega (arith, le)) h in
            elim (Bool-cases go_on) [
              | inr full ↦ (q', false, rw inside (rw run (rw full refl)), h')
              | inl more ↦
                  let (q2, go_on2, run2, h2) =
                    search_linear_from-Holding rest q' first last (Above-IsSorted b rest so.1)
                      (EndsAbove-next first b rest e so.1) lt le h' in
                  (q2, go_on2, rw inside (rw run (rw more run2)), h2)
            ]
      ]

  pub search_around-Holding :
      (rs : List Range) (q : PartialQueue) (position : ℕ)
      → IsSorted rs
      → position < d.untouched.size
      → Holding Open q
      → (q' : PartialQueue) × (search_around d s bf q rs position ≡ ok q') × Holding Open q'
  unfolding search_around search_linear
  search_around-Holding rs q position so lt h =
      let (q1, go_on, run, h1) =
        search_linear_from-Holding (find position rs) q position d.untouched.size
          (find-IsSorted position rs so).1 (find-EndsAbove position rs) (inl lt) (omega arith) h in
      let around : (0 < position) ⊎ (position ≡ 0) = omega arith in
      let (q2, go_on2, run2, h2) =
        search_linear_from-Holding (find 0 rs) q1 0 position (find-IsSorted 0 rs so).1
          (find-EndsAbove 0 rs) around (omega (arith, lt)) h1 in
      elim (Bool-cases go_on) [
        | inl more ↦ (q2, rw run (rw more (rw run2 refl)), h2)
        | inr full ↦ (q1, rw run (rw full refl), h1)
      ]
