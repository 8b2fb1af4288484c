-- ===== src/Common/Counting.antt =====
-- Lists of addresses, by how often each is there, and sums over them: std::find, std::find_if,
-- std::stable_partition and erase on vectors of pointers.
use libtorrent.Common.{ap}
use Prim.Native.Nat.{ℕ, ◌+◌, ◌<◌}
use mathlib.Core.Path.{◌≡◌, refl, sym}
use mathlib.Core.Logic.{inl, inr}
use mathlib.Core.Bool.{Bool, true, false, not, ◌||◌}
use mathlib.Core.List.{List, [], ◌∷◌, ◌++◌}
use native.Mathlib.Omega.{arith}
use libtorrent.Common.Tests.{◌==◌, if◌then◌else◌, Bool-cases}

unfoldable pub count : ℕ → List ℕ → ℕ
count a [] = 0
count a (b ∷ bs) = (if a == b then 1 else 0) + count a bs

unfoldable pub remove_one : ℕ → List ℕ → List ℕ
remove_one a [] = []
remove_one a (b ∷ bs) = if a == b then bs else b ∷ remove_one a bs

unfoldable pub elem : ℕ → List ℕ → Bool
elem a [] = false
elem a (b ∷ bs) = a == b || elem a bs

unfoldable pub filter : (ℕ → Bool) → List ℕ → List ℕ
filter p [] = []
filter p (a ∷ bs) = let rest = filter p bs in if p a then a ∷ rest else rest

-- A sum over the addresses of a list.
unfoldable pub tally : (ℕ → ℕ) → List ℕ → ℕ
tally f [] = 0
tally f (a ∷ bs) = f a + tally f bs

pub count-remove_one :
    (a b : ℕ) (hs : List ℕ)
    → 0 < count a hs
    → count b hs ≡ (if b == a then 1 else 0) + count b (remove_one a hs)
unfolding count remove_one
count-remove_one a b [] h = absurd (omega (arith, h))
count-remove_one a b (c ∷ cs) h = ground (arith, h, count-remove_one a b cs)

pub tally-remove_one :
    (f : ℕ → ℕ) (a : ℕ) (hs : List ℕ)
    → 0 < count a hs
    → tally f hs ≡ f a + tally f (remove_one a hs)
unfolding count remove_one tally
tally-remove_one f a [] h = absurd (omega (arith, h))
tally-remove_one f a (c ∷ cs) h = elim (Bool-cases (a == c)) [
  | inl same ↦ let e : a ≡ c = ground (arith, same) in rw same (rw e refl)
  | inr other ↦ rw other (omega (arith, tally-remove_one f a cs (ground (arith, h, other))))
]

pub elem-count : (a : ℕ) (hs : List ℕ) → 0 < count a hs → elem a hs ≡ true
unfolding count elem
elem-count a [] h = absurd (omega (arith, h))
elem-count a (c ∷ cs) h = ground (arith, h, elem-count a cs)

pub count-append : (a : ℕ) (xs ys : List ℕ) → count a (xs ++ ys) ≡ count a xs + count a ys
unfolding count
count-append a [] ys = omega arith
count-append a (x ∷ xs) ys = omega (arith, count-append a xs ys)

pub tally-append : (f : ℕ → ℕ) (xs ys : List ℕ) → tally f (xs ++ ys) ≡ tally f xs + tally f ys
unfolding tally
tally-append f [] ys = omega arith
tally-append f (x ∷ xs) ys = omega (arith, tally-append f xs ys)

pub tally_same :
    (f g : ℕ → ℕ) (hs : List ℕ) → ((a : ℕ) → 0 < count a hs → f a ≡ g a) → tally f hs ≡ tally g hs
unfolding count tally
tally_same f g [] same = refl
tally_same f g (c ∷ cs) same =
    let rest = tally_same f g cs (λ a there. same a (omega (arith, there))) in
    omega (arith, rest, same c (ground arith))

pub count-filter :
    (p : ℕ → Bool) (a : ℕ) (hs : List ℕ) → count a (filter p hs) ≡ (if p a then count a hs else 0)
unfolding count filter
count-filter p a [] = ground arith
count-filter p a (c ∷ cs) = elim (Bool-cases (a == c)) [
  | inl same ↦
      let e : a ≡ c = ground (arith, same) in rw (sym e) (ground (arith, count-filter p a cs))
  | inr other ↦ ground (arith, other, count-filter p a cs)
]

pub tally-filter :
    (f : ℕ → ℕ) (p : ℕ → Bool) (hs : List ℕ)
    → tally f hs ≡ tally f (filter p hs) + tally f (filter (λ a. not (p a)) hs)
unfolding tally filter
tally-filter f p [] = refl
tally-filter f p (c ∷ cs) = elim (Bool-cases (p c)) [
  | inl keep ↦ rw keep (omega (arith, tally-filter f p cs))
  | inr drop ↦ rw drop (omega (arith, tally-filter f p cs))
]

-- Two functions that differ at one address, which a list has once or not at all.
pub tally_once :
    (f g : ℕ → ℕ) (a : ℕ) (hs : List ℕ)
    → ((b : ℕ) → (b == a) ≡ false → f b ≡ g b)
    → count a hs ≡ 1
    → tally f hs + g a ≡ tally g hs + f a
tally_once f g a hs same one =
    let there : 0 < count a hs = omega (arith, one) in
    let rest =
      tally_same f g (remove_one a hs)
        (λ b some_there. same b (ground (arith, count-remove_one a a hs there, one, some_there))) in
    omega (arith, rest, tally-remove_one f a hs there, tally-remove_one g a hs there)

pub tally_never :
    (f g : ℕ → ℕ) (a : ℕ) (hs : List ℕ)
    → ((b : ℕ) → (b == a) ≡ false → f b ≡ g b)
    → count a hs ≡ 0
    → tally f hs ≡ tally g hs
tally_never f g a hs same zero_times =
    tally_same f g hs (λ b some_there. same b (ground (arith, zero_times, some_there)))

pub filter-append :
    (p : ℕ → Bool) (xs ys : List ℕ) → filter p (xs ++ ys) ≡ filter p xs ++ filter p ys
unfolding filter
filter-append p [] ys = refl
filter-append p (x ∷ xs) ys = elim (Bool-cases (p x)) [
  | inl keep ↦ rw keep (ap (◌∷◌ x) (filter-append p xs ys))
  | inr drop ↦ rw drop (filter-append p xs ys)
]

pub filter_all :
    (p : ℕ → Bool) (xs : List ℕ) → ((a : ℕ) → 0 < count a xs → p a ≡ true) → filter p xs ≡ xs
unfolding filter count
filter_all p [] all = refl
filter_all p (x ∷ xs) all =
    rw (all x (ground arith))
      (ap (◌∷◌ x) (filter_all p xs (λ a there. all a (omega (arith, there)))))

pub filter_none :
    (p : ℕ → Bool) (xs : List ℕ) → ((a : ℕ) → 0 < count a xs → p a ≡ false) → filter p xs ≡ []
unfolding filter count
filter_none p [] all = refl
filter_none p (x ∷ xs) all =
    rw (all x (ground arith)) (filter_none p xs (λ a there. all a (omega (arith, there))))

pub tally_zero : (xs : List ℕ) → tally (λ a. 0) xs ≡ 0
unfolding tally
tally_zero [] = refl
tally_zero (x ∷ xs) = omega (arith, tally_zero xs)

pub filter_one :
    (p : ℕ → Bool) (a : ℕ) (xs : List ℕ)
    → count a xs ≡ 1
    → p a ≡ true
    → ((b : ℕ) → 0 < count b xs → (b == a) ≡ false → p b ≡ false)
    → filter p xs ≡ a ∷ []
unfolding filter count
filter_one p a [] one here others = absurd (omega (arith, one))
filter_one p a (x ∷ xs) one here others = elim (Bool-cases (x == a)) [
  | inl same ↦
      let e : x ≡ a = ground (arith, same) in
      let gone : count a xs ≡ 0 = ground (arith, one, same) in
      rw e (
        rw here (
          ap (◌∷◌ a) (
            filter_none p xs
              (λ b there. others b (omega (arith, there)) (ground (arith, there, gone))))))
  | inr other ↦ rw (others x (ground arith) other) (
      filter_one p a xs (ground (arith, one, other)) here
        (λ b there. others b (omega (arith, there))))
]
