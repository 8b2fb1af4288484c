-- ===== src/Ranges/Union.antt =====
-- `create_union` merges two sorted lists of ranges into one that covers what either covers.
use libtorrent.Common.{
  Bool-cases, List, [], arith, inl, inr, ltb, max, refl, ℕ, ◌<◌, ◌||◌, ◌∙◌, ◌∷◌, ◌≡◌, ◌≤◌, Bool, ap,
  false, leb, true,
}
use libtorrent.Ranges.{Range, append_rest, union_loop, create_union}
use libtorrent.Ranges.Cover.{within, covers, Above, IsSorted}

-- Sorted, from `low` on.
abbrev From : ℕ → List Range → Type 0
From low [] = Unit {0}
From low ((a, b) ∷ rest) = (low ≤ a) × (a < b) × Above b rest

From-Above : (low mid : ℕ) (rs : List Range) → low < mid → From mid rs → Above low rs
From-Above low mid [] h f = tt
From-Above low mid ((a, b) ∷ rest) h f = (omega arith, f.1, f.2)

Above-From : (low mid : ℕ) (rs : List Range) → low ≤ mid → Above mid rs → From low rs
Above-From low mid [] h a = tt
Above-From low mid ((x, y) ∷ rest) h a = (omega arith, a.1, a.2)

From-IsSorted : (low : ℕ) (rs : List Range) → From low rs → IsSorted rs
From-IsSorted low [] f = tt
From-IsSorted low ((a, b) ∷ rest) f = (f.1, f.2)

append_rest-From :
    (lo hi : ℕ) (rs : List Range) → lo < hi → From lo rs → From lo (append_rest (lo, hi) rs)
unfolding append_rest
append_rest-From lo hi [] h f = (omega arith, h, tt)
append_rest-From lo hi ((a, b) ∷ rest) h f = ground (
  arith,
  append_rest-From lo (max b hi) rest (omega arith) (Above-From lo b rest (omega arith) f.2),
  From-Above hi a (append_rest (a, b) rest),
  append_rest-From a b rest f.1 (Above-From a b rest (omega arith) f.2),
)

append_rest-covers :
    (lo hi i : ℕ) (rs : List Range)
    → lo < hi
    → From lo rs
    → covers (append_rest (lo, hi) rs) i ≡ within lo hi i || covers rs i
unfolding append_rest covers
append_rest-covers lo hi i [] h f = refl
append_rest-covers lo hi i ((a, b) ∷ rest) h f = ground (
  arith,
  append_rest-covers lo (max b hi) i rest (omega arith) (Above-From lo b rest (omega arith) f.2),
  append_rest-covers a b i rest f.1 (Above-From a b rest (omega arith) f.2),
)

union_loop-From :
    (lo hi : ℕ) (l r : List Range)
    → lo < hi
    → From lo l
    → From lo r
    → From lo (union_loop (lo, hi) l r)
unfolding union_loop
union_loop-From lo hi [] r h f g = append_rest-From lo hi r h g
union_loop-From lo hi ((a, b) ∷ l) [] h f g = append_rest-From lo hi ((a, b) ∷ l) h f
union_loop-From lo hi ((a, b) ∷ l) ((c, d) ∷ r) h f g = elim (Bool-cases (ltb a c)) [
  | inl lt ↦
      let rest : From a ((c, d) ∷ r) = (ground arith, g.1, g.2) in
      elim (Bool-cases (leb a hi)) [
        | inl touch ↦
            rw (lt, touch)
              (union_loop-From lo (max b hi) l ((c, d) ∷ r) (omega arith)
                (Above-From lo b l (omega arith) f.2) g)
        | inr apart ↦
            rw (lt, apart)
              (
                omega arith,
                h,
                From-Above hi a _ (ground arith) (
                    union_loop-From a b l ((c, d) ∷ r) f.1 (Above-From a b l (omega arith) f.2)
                      rest),
              )
      ]
  | inr ge ↦
      let rest : From c ((a, b) ∷ l) = (ground arith, f.1, f.2) in
      elim (Bool-cases (leb c hi)) [
        | inl touch ↦
            rw (ge, touch)
              (union_loop-From lo (max d hi) ((a, b) ∷ l) r (omega arith) f
                (Above-From lo d r (omega arith) g.2))
        | inr apart ↦
            rw (ge, apart)
              (
                omega arith,
                h,
                From-Above hi c _ (ground arith) (
                    union_loop-From c d ((a, b) ∷ l) r g.1 rest
                      (Above-From c d r (omega arith) g.2)),
              )
      ]
]

-- The index is in the range that two touching ranges make exactly when it is in one of them.
within-joined :
    (lo hi a b i : ℕ)
    → lo ≤ a
    → a ≤ hi
    → a < b
    → lo < hi
    → within lo (max b hi) i ≡ within lo hi i || within a b i
within-joined lo hi a b i p q r s = ground arith

or_left : (w x y z : Bool) → (w || x) || (y || z) ≡ w || ((x || y) || z)
or_left true x y z = refl
or_left false true y z = refl
or_left false false y z = refl

or_right : (w x y z : Bool) → (w || x) || (y || z) ≡ w || (y || (x || z))
or_right true x y z = refl
or_right false true true z = refl
or_right false true false z = refl
or_right false false true z = refl
or_right false false false z = refl

union_loop-covers :
    (lo hi i : ℕ) (l r : List Range)
    → lo < hi
    → From lo l
    → From lo r
    → covers (union_loop (lo, hi) l r) i ≡ within lo hi i || (covers l i || covers r i)
unfolding union_loop covers
union_loop-covers lo hi i [] r h f g = append_rest-covers lo hi i r h g
union_loop-covers lo hi i ((a, b) ∷ l) [] h f g =
    append_rest-covers lo hi i ((a, b) ∷ l) h f ∙ (unfold covers in ground arith)
union_loop-covers lo hi i ((a, b) ∷ l) ((c, d) ∷ r) h f g = elim (Bool-cases (ltb a c)) [
  | inl lt ↦
      let rest : From a ((c, d) ∷ r) = (ground arith, g.1, g.2) in
      elim (Bool-cases (leb a hi)) [
        | inl touch ↦
            rw (lt, touch)
              (union_loop-covers lo (max b hi) i l ((c, d) ∷ r) (omega arith)
                  (Above-From lo b l (omega arith) f.2) g
                ∙ ap (λ w. w || (covers l i || (within c d i || covers r i)))
                    (within-joined lo hi a b i f.0 (ground arith) f.1 h)
                ∙ or_left (within lo hi i) (within a b i) (covers l i) (within c d i || covers r i))
        | inr apart ↦
            rw (lt, apart)
              (ap (λ w. within lo hi i || w)
                (union_loop-covers a b i l ((c, d) ∷ r) f.1 (Above-From a b l (omega arith) f.2)
                    rest
                  ∙ or_left false (within a b i) (covers l i) (within c d i || covers r i)))
      ]
  | inr ge ↦
      let rest : From c ((a, b) ∷ l) = (ground arith, f.1, f.2) in
      elim (Bool-cases (leb c hi)) [
        | inl touch ↦
            rw (ge, touch)
              (union_loop-covers lo (max d hi) i ((a, b) ∷ l) r (omega arith) f
                  (Above-From lo d r (omega arith) g.2)
                ∙ ap (λ w. w || ((within a b i || covers l i) || covers r i))
                    (within-joined lo hi c d i g.0 (ground arith) g.1 h)
                ∙ or_right (within lo hi i) (within c d i) (within a b i || covers l i)
                    (covers r i))
        | inr apart ↦
            rw (ge, apart)
              (ap (λ w. within lo hi i || w)
                (union_loop-covers c d i ((a, b) ∷ l) r g.1 rest
                    (Above-From c d r (omega arith) g.2)
                  ∙ or_right false (within c d i) (within a b i || covers l i) (covers r i)))
      ]
]

-- The union of two sorted lists of ranges is sorted, with the ranges apart, and covers an index
-- exactly when one of the two does.
pub create_union-covers :
    (l r : List Range)
    → IsSorted l
    → IsSorted r
    → IsSorted (create_union l r)
      × ((i : ℕ) → covers (create_union l r) i ≡ covers l i || covers r i)
unfolding create_union covers
create_union-covers [] r f g = (g, λ i. refl)
create_union-covers ((a, b) ∷ l) [] f g = (f, λ i. ground arith)
create_union-covers ((a, b) ∷ l) ((c, d) ∷ r) f g = elim (Bool-cases (ltb a c)) [
  | inl lt ↦
      let fl = Above-From a b l (omega arith) f.1 in
      let fr : From a ((c, d) ∷ r) = (ground arith, g.0, g.1) in
      rw lt (
        From-IsSorted a _ (union_loop-From a b l ((c, d) ∷ r) f.0 fl fr),
        λ i. union_loop-covers a b i l ((c, d) ∷ r) f.0 fl fr ∙ ground arith,
      )
  | inr ge ↦
      let fl : From c ((a, b) ∷ l) = (ground arith, f.0, f.1) in
      let fr = Above-From c d r (omega arith) g.1 in
      rw ge (
        From-IsSorted c _ (union_loop-From c d ((a, b) ∷ l) r g.0 fl fr),
        λ i. union_loop-covers c d i ((a, b) ∷ l) r g.0 fl fr ∙ ground arith,
      )
]
