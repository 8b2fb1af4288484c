-- ===== src/Ranges/Edit.antt =====
-- `insert` and `erase` keep the ranges sorted, and add or remove exactly the indices given.
use libtorrent.Common.{
  List, [], arith, max, min, refl, ℕ, ◌<◌, ◌||◌, ◌∷◌, ◌≡◌, ◌≤◌, Bool-cases, inl, inr, leb, not,
  ◌&&◌,
}
use libtorrent.Ranges.{Range, absorb, insert_from, insert, erase_to, erase_from, erase}
use libtorrent.Ranges.Cover.{
  within, covers, Above, covers-below, IsSorted, Above-mono, Above-IsSorted,
}

absorb-Above :
    (low lo hi mid : ℕ) (rs : List Range)
    → low < lo
    → lo < hi
    → lo ≤ mid
    → Above mid rs
    → Above low (absorb lo hi rs)
unfolding absorb
absorb-Above low lo hi mid [] p q r a = (p, q, tt)
absorb-Above low lo hi mid ((x, y) ∷ rest) p q r a =
    ground (arith, absorb-Above low lo hi y rest p q (omega arith) a.2)

absorb-covers :
    (lo hi mid i : ℕ) (rs : List Range)
    → lo < hi
    → lo ≤ mid
    → Above mid rs
    → covers (absorb lo hi rs) i ≡ within lo hi i || covers rs i
unfolding absorb covers
absorb-covers lo hi mid i [] q r a = refl
absorb-covers lo hi mid i ((x, y) ∷ rest) q r a =
    ground (arith, absorb-covers lo hi y i rest q (omega arith) a.2, covers-below y rest i a.2)

insert_from-Above :
    (low f l : ℕ) (rs : List Range)
    → low < f
    → f < l
    → Above low rs
    → Above low (insert_from f l rs)
unfolding insert_from
insert_from-Above low f l [] p q a = (p, q, tt)
insert_from-Above low f l ((x, y) ∷ rest) p q a = ground (
  arith,
  λ (h : y < f). insert_from-Above y f l rest h q a.2,
  absorb-Above low (min f x) (max l y) y rest (omega arith) (omega arith) (omega arith) a.2,
)

insert_from-covers :
    (low f l i : ℕ) (rs : List Range)
    → f < l
    → Above low rs
    → covers (insert_from f l rs) i ≡ within f l i || covers rs i
unfolding insert_from covers
insert_from-covers low f l i [] q a = refl
insert_from-covers low f l i ((x, y) ∷ rest) q a = ground (
  arith,
  insert_from-covers y f l i rest q a.2,
  absorb-covers (min f x) (max l y) y i rest (omega arith) (omega arith) a.2,
  covers-below y rest i a.2,
)

absorb-IsSorted :
    (lo hi mid : ℕ) (rs : List Range)
    → lo < hi
    → lo ≤ mid
    → Above mid rs
    → IsSorted (absorb lo hi rs)
unfolding absorb
absorb-IsSorted lo hi mid [] q r a = (q, tt)
absorb-IsSorted lo hi mid ((x, y) ∷ rest) q r a =
    ground (arith, absorb-IsSorted lo hi y rest q (omega arith) a.2)

insert_from-IsSorted :
    (f l : ℕ) (rs : List Range) → f < l → IsSorted rs → IsSorted (insert_from f l rs)
unfolding insert_from
insert_from-IsSorted f l [] q a = (q, tt)
insert_from-IsSorted f l ((x, y) ∷ rest) q a = ground (
  arith,
  λ (h : y < f). insert_from-Above y f l rest h q a.1,
  absorb-IsSorted (min f x) (max l y) y rest (omega arith) (omega arith) a.1,
)

insert_from-covers_sorted :
    (f l i : ℕ) (rs : List Range)
    → f < l
    → IsSorted rs
    → covers (insert_from f l rs) i ≡ covers rs i || within f l i
unfolding insert_from covers
insert_from-covers_sorted f l i [] q a = ground arith
insert_from-covers_sorted f l i ((x, y) ∷ rest) q a = ground (
  arith,
  insert_from-covers y f l i rest q a.1,
  absorb-covers (min f x) (max l y) y i rest (omega arith) (omega arith) a.1,
  covers-below y rest i a.1,
)

-- `insert` keeps the ranges sorted and apart, and adds exactly the indices from `first` up to `last`.
pub insert-covers :
    (first last : ℕ) (rs : List Range)
    → IsSorted rs
    → IsSorted (insert first last rs)
      × ((i : ℕ) → covers (insert first last rs) i ≡ covers rs i || within first last i)
unfolding insert
insert-covers first last rs s = elim (Bool-cases (leb last first)) [
  | inl none_new ↦ rw none_new (s, λ i. ground arith)
  | inr some_new ↦ rw some_new (
    insert_from-IsSorted first last rs (ground arith) s,
    λ i. insert_from-covers_sorted first last i rs (ground arith) s,
  )
]

erase_to-Above : (low last : ℕ) (rs : List Range) → Above low rs → Above low (erase_to last rs)
unfolding erase_to
erase_to-Above low last [] a = tt
erase_to-Above low last ((x, y) ∷ rest) a =
    ground (arith, erase_to-Above low last rest (Above-mono low y rest (omega arith) a.2))

erase_to-covers :
    (low last i : ℕ) (rs : List Range)
    → Above low rs
    → covers (erase_to last rs) i ≡ leb last i && covers rs i
unfolding erase_to covers
erase_to-covers low last i [] a = ground arith
erase_to-covers low last i ((x, y) ∷ rest) a =
    ground (arith, erase_to-covers y last i rest a.2, covers-below y rest i a.2)

erase_from-Above :
    (low f l : ℕ) (rs : List Range) → f < l → Above low rs → Above low (erase_from f l rs)
unfolding erase_from
erase_from-Above low f l [] q a = tt
erase_from-Above low f l ((x, y) ∷ rest) q a = ground (
  arith,
  erase_from-Above y f l rest q a.2,
  Above-mono low y (erase_to l rest) (omega arith),
  erase_to-Above y l rest a.2,
  erase_to-Above f l rest,
  Above-mono f y rest,
  Above-mono x y rest,
)

erase_from-covers :
    (low f l i : ℕ) (rs : List Range)
    → f < l
    → Above low rs
    → covers (erase_from f l rs) i ≡ covers rs i && not (within f l i)
unfolding erase_from covers
erase_from-covers low f l i [] q a = refl
erase_from-covers low f l i ((x, y) ∷ rest) q a = ground (
  arith,
  erase_from-covers y f l i rest q a.2,
  erase_to-covers y l i rest a.2,
  covers-below y rest i a.2,
)

erase_to-IsSorted : (last : ℕ) (rs : List Range) → IsSorted rs → IsSorted (erase_to last rs)
unfolding erase_to
erase_to-IsSorted last [] a = tt
erase_to-IsSorted last ((x, y) ∷ rest) a =
    ground (arith, erase_to-Above y last rest a.1, Above-IsSorted y (erase_to last rest))

erase_from-IsSorted :
    (f l : ℕ) (rs : List Range) → f < l → IsSorted rs → IsSorted (erase_from f l rs)
unfolding erase_from
erase_from-IsSorted f l [] q a = tt
erase_from-IsSorted f l ((x, y) ∷ rest) q a = ground (
  arith,
  erase_from-Above y f l rest q a.1,
  erase_to-Above y l rest a.1,
  Above-IsSorted y (erase_to l rest),
  erase_to-Above f l rest,
  Above-mono f y rest,
)

erase_from-covers_sorted :
    (f l i : ℕ) (rs : List Range)
    → f < l
    → IsSorted rs
    → covers (erase_from f l rs) i ≡ covers rs i && not (within f l i)
unfolding erase_from covers
erase_from-covers_sorted f l i [] q a = refl
erase_from-covers_sorted f l i ((x, y) ∷ rest) q a = ground (
  arith,
  erase_from-covers y f l i rest q a.1,
  erase_to-covers y l i rest a.1,
  covers-below y rest i a.1,
)

-- `erase` keeps the ranges sorted and apart, and removes exactly the indices from `first` up to
-- `last`.
pub erase-covers :
    (first last : ℕ) (rs : List Range)
    → IsSorted rs
    → IsSorted (erase first last rs)
      × ((i : ℕ) → covers (erase first last rs) i ≡ covers rs i && not (within first last i))
unfolding erase
erase-covers first last rs s = elim (Bool-cases (leb last first)) [
  | inl nothing ↦ rw nothing (s, λ i. ground arith)
  | inr something ↦ rw something (
    erase_from-IsSorted first last rs (ground arith) s,
    λ i. erase_from-covers_sorted first last i rs (ground arith) s,
  )
]
