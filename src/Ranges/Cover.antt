-- ===== src/Ranges/Cover.antt =====
-- The set that a list of ranges stands for, and the order that the operations keep.
use libtorrent.Common.{
  ℕ, Bool, List, [], arith, false, leb, ltb, refl, ◌&&◌, ◌<◌, ◌||◌, ◌∷◌, ◌≡◌, ◌≤◌,
}
use libtorrent.Ranges.{Range, has}

-- Whether `i` lies in one of the ranges.
abbrev pub within : ℕ → ℕ → ℕ → Bool
within a b i = leb a i && ltb i b

unfoldable pub covers : List Range → ℕ → Bool
covers [] i = false
covers ((a, b) ∷ rest) i = within a b i || covers rest i

-- The ranges are not empty and lie apart, with a gap between any two, from above `low` on.
abbrev pub Above : ℕ → List Range → Type 0
Above low [] = Unit {0}
Above low ((a, b) ∷ rest) = (low < a) × (a < b) × Above b rest

abbrev pub IsSorted : List Range → Type 0
IsSorted [] = Unit {0}
IsSorted ((a, b) ∷ rest) = (a < b) × Above b rest

pub Above-mono : (m n : ℕ) (rs : List Range) → m ≤ n → Above n rs → Above m rs
Above-mono m n [] h a = tt
Above-mono m n ((x, y) ∷ rest) h a = (omega arith, a.1, a.2)

pub Above-IsSorted : (low : ℕ) (rs : List Range) → Above low rs → IsSorted rs
Above-IsSorted low [] a = tt
Above-IsSorted low ((x, y) ∷ rest) a = (a.1, a.2)

-- Nothing is covered up to the low bound.
pub covers-below :
    (low : ℕ) (rs : List Range) (i : ℕ) → Above low rs → i ≤ low → covers rs i ≡ false
unfolding covers
covers-below low [] i a h = refl
covers-below low ((x, y) ∷ rest) i a h = ground (arith, covers-below y rest i a.2 (omega arith))

has_lem : (low : ℕ) (rs : List Range) (i : ℕ) → Above low rs → has i rs ≡ covers rs i
unfolding has covers
has_lem low [] i a = refl
has_lem low ((x, y) ∷ rest) i a = ground (arith, has_lem y rest i a.2, covers-below y rest i a.2)

-- On a sorted list `has` tells exactly the indices that a range covers.
has-covers : (rs : List Range) (i : ℕ) → IsSorted rs → has i rs ≡ covers rs i
unfolding has covers
has-covers [] i h = refl
has-covers ((x, y) ∷ rest) i h = ground (arith, has_lem y rest i h.1, covers-below y rest i h.1)
