-- ===== src/Bitfield/Count.antt =====
-- Counting: the population counts of words against the number of indices whose bit is set.
use libtorrent.Common.{
  ℕ, zero, suc, ◌+◌, ◌*◌, ◌/◌, ◌%◌, ◌^◌, ◌≤◌, ◌<◌, ◌≡◌, refl, ap, ◌≢◌, ◌⊎◌, inl, inr, Bool, false,
  List, [], ◌∷◌, arith, length, get_or, All, IsByte, add32, Bool-cases, true, ◌==◌,
}
use libtorrent.Bitfield.{
  test_bit, popcount, count_bytes, count_word32, count_words64, word32, word64,
}
use libtorrent.Bitfield.Bytes.{one_if, popcount-test_bit}

-- How many indices below `n` satisfy `f`.
unfoldable pub ones : (ℕ → Bool) → ℕ → ℕ
ones f zero = 0
ones f (suc n) = ones f n + one_if (f n)

-- The bit that `idx` names in an array of bytes.
unfoldable pub bit : List ℕ → ℕ → Bool
bit bs i = test_bit (get_or bs (i / 8) 0) (i % 8)

pub ones-le : (f : ℕ → Bool) (n : ℕ) → ones f n ≤ n
unfolding ones
ones-le f zero = omega arith
ones-le f (suc n) = ground (arith, ones-le f n)

pub ones-ext : (f g : ℕ → Bool) (n : ℕ) → ((i : ℕ) → i < n → f i ≡ g i) → ones f n ≡ ones g n
unfolding ones
ones-ext f g zero h = refl
ones-ext f g (suc n) h =
    ground (arith, h n (omega arith), ones-ext f g n (λ i p. h i (omega arith)))

-- Setting or clearing one index below `n` moves the count by what stood there.
pub ones-set :
    (f g : ℕ → Bool) (i n : ℕ)
    → i < n
    → ((j : ℕ) → j < n → j ≢ i → g j ≡ f j)
    → ones g n + one_if (f i) ≡ ones f n + one_if (g i)
unfolding ones
ones-set f g i zero h e = elim h [ ]
ones-set f g i (suc n) h e = elim (split i n h) [
  | inl lt ↦
      let rest = ones-set f g i n lt (λ j p q. e j (omega arith) q) in
      ground (arith, rest, e n (omega arith) (omega arith))
  | inr eq ↦
      let same = ones-ext g f n (λ j p. e j (omega arith) (omega arith)) in
      rw eq (omega (arith, same))
]
  where
    split : (i n : ℕ) → i < suc n → (i < n) ⊎ (i ≡ n)
    split i n h = grind arith

pub ones-false :
    (f : ℕ → Bool) (n k : ℕ) → n ≤ k → ((i : ℕ) → n ≤ i → i < k → f i ≡ false) → ones f k ≡ ones f n
unfolding ones
ones-false f n zero h e = let z : n ≡ 0 = omega arith in rw z
ones-false f n (suc k) h e = elim (split n k h) [
  | inl le ↦ ground (arith, e k le, ones-false f n k le (λ i p q. e i p (omega arith)))
  | inr eq ↦ rw eq
]
  where
    split : (n k : ℕ) → n ≤ suc k → (n ≤ k) ⊎ (n ≡ suc k)
    split n k h = grind arith

ones-shift :
    (f : ℕ → Bool) (n : ℕ)
    → ones f (suc (suc (suc (suc (suc (suc (suc (suc n))))))))
      ≡ one_if (f 0)
        + one_if (f 1)
        + one_if (f 2)
        + one_if (f 3)
        + one_if (f 4)
        + one_if (f 5)
        + one_if (f 6)
        + one_if (f 7)
        + ones (λ i. f (suc (suc (suc (suc (suc (suc (suc (suc i))))))))) n
unfolding ones
ones-shift f zero = omega arith
ones-shift f (suc n) = omega (arith, ones-shift f n)

bit-cons :
    (b : ℕ) (bs : List ℕ) (i : ℕ)
    → bit (b ∷ bs) (suc (suc (suc (suc (suc (suc (suc (suc i)))))))) ≡ bit bs i
unfolding bit
bit-cons b bs i =
    let d : suc (suc (suc (suc (suc (suc (suc (suc i))))))) / 8 ≡ suc (i / 8) = omega arith in
    let m : suc (suc (suc (suc (suc (suc (suc (suc i))))))) % 8 ≡ i % 8 = omega arith in rw (d, m)

pub bit-head : (b : ℕ) (bs : List ℕ) (i : ℕ) → i < 8 → bit (b ∷ bs) i ≡ test_bit b i
unfolding bit
bit-head b bs i h = let d : i / 8 ≡ 0 = omega arith in let m : i % 8 ≡ i = omega arith in rw (d, m)

-- The sum of the bytes' population counts.
unfoldable pub total : List ℕ → ℕ
total [] = 0
total (b ∷ bs) = popcount 8 b + total bs

pub total-ones : (bs : List ℕ) → All IsByte bs → total bs ≡ ones (bit bs) (8 * length bs)
unfolding total
total-ones [] h = unfold ones in refl
total-ones (b ∷ bs) (hb, hbs) =
    let shift = ones-shift (bit (b ∷ bs)) (8 * length bs) in
    let inner =
      ones-ext (λ i. bit (b ∷ bs) (suc (suc (suc (suc (suc (suc (suc (suc i))))))))) (bit bs)
        (8 * length bs) (λ i _. bit-cons b bs i) in
    let e : 8 * suc (length bs) ≡ suc (suc (suc (suc (suc (suc (suc (suc (8 * length bs)))))))) =
      omega arith in
    rw e (omega (arith, shift, inner, heads, popcount-test_bit b hb, total-ones bs hbs))
  where
    at : (i : ℕ) → i < 8 → one_if (bit (b ∷ bs) i) ≡ one_if (test_bit b i)
    at i h = rw (bit-head b bs i h)

    heads :
        (one_if (bit (b ∷ bs) 0) ≡ one_if (test_bit b 0))
        × (one_if (bit (b ∷ bs) 1) ≡ one_if (test_bit b 1))
        × (one_if (bit (b ∷ bs) 2) ≡ one_if (test_bit b 2))
        × (one_if (bit (b ∷ bs) 3) ≡ one_if (test_bit b 3))
        × (one_if (bit (b ∷ bs) 4) ≡ one_if (test_bit b 4))
        × (one_if (bit (b ∷ bs) 5) ≡ one_if (test_bit b 5))
        × (one_if (bit (b ∷ bs) 6) ≡ one_if (test_bit b 6))
        × (one_if (bit (b ∷ bs) 7) ≡ one_if (test_bit b 7))
    heads = (
      at 0 (omega arith),
      at 1 (omega arith),
      at 2 (omega arith),
      at 3 (omega arith),
      at 4 (omega arith),
      at 5 (omega arith),
      at 6 (omega arith),
      at 7 (omega arith),
    )

popcount_step :
    (w b m h : ℕ) → popcount (suc w) (b + 2 * m * h) ≡ b % 2 + popcount w (b / 2 + m * h)
unfolding popcount
popcount_step w b m h =
    let r : (b + 2 * m * h) % 2 ≡ b % 2 = omega arith in
    let q : (b + 2 * m * h) / 2 ≡ b / 2 + m * h = omega arith in rw (r, q)

-- A byte is split off the low end of a word.
pub popcount_low :
    (w b h : ℕ)
    → b < 256
    → popcount (suc (suc (suc (suc (suc (suc (suc (suc w)))))))) (b + 256 * h)
      ≡ popcount 8 b + popcount w h
popcount_low w b h lt =
    let last : b / 2 / 2 / 2 / 2 / 2 / 2 / 2 / 2 + 1 * h ≡ h = omega arith in
    omega (
      arith,
      popcount_step (suc (suc (suc (suc (suc (suc (suc w))))))) b 128 h,
      popcount_step (suc (suc (suc (suc (suc (suc w)))))) (b / 2) 64 h,
      popcount_step (suc (suc (suc (suc (suc w))))) (b / 2 / 2) 32 h,
      popcount_step (suc (suc (suc (suc w)))) (b / 2 / 2 / 2) 16 h,
      popcount_step (suc (suc (suc w))) (b / 2 / 2 / 2 / 2) 8 h,
      popcount_step (suc (suc w)) (b / 2 / 2 / 2 / 2 / 2) 4 h,
      popcount_step (suc w) (b / 2 / 2 / 2 / 2 / 2 / 2) 2 h,
      popcount_step w (b / 2 / 2 / 2 / 2 / 2 / 2 / 2) 1 h,
      ap (popcount w) last,
      byte,
    )
  where
    byte :
        popcount 8 b
        ≡ b % 2
          + b / 2 % 2
          + b / 2 / 2 % 2
          + b / 2 / 2 / 2 % 2
          + b / 2 / 2 / 2 / 2 % 2
          + b / 2 / 2 / 2 / 2 / 2 % 2
          + b / 2 / 2 / 2 / 2 / 2 / 2 % 2
          + b / 2 / 2 / 2 / 2 / 2 / 2 / 2 % 2
    byte = unfold popcount in omega arith

count_bytes-total :
    (bs : List ℕ) (acc : ℕ) → acc + total bs < 2 ^ 32 → count_bytes bs acc ≡ acc + total bs
unfolding count_bytes total
count_bytes-total [] acc h = omega arith
count_bytes-total (b ∷ bs) acc h =
    let e : add32 acc (popcount 8 b) ≡ acc + popcount 8 b = omega arith in
    rw e (omega (arith, count_bytes-total bs (acc + popcount 8 b) (omega arith)))

popcount-word32 :
    (a b c d : ℕ)
    → IsByte a
    → IsByte b
    → IsByte c
    → IsByte d
    → popcount 32 (word32 a b c d) ≡ popcount 8 a + popcount 8 b + popcount 8 c + popcount 8 d
popcount-word32 a b c d ha hb hc hd = omega (
  arith,
  popcount_low 24 a (b + 256 * (c + 256 * d)) ha,
  popcount_low 16 b (c + 256 * d) hb,
  popcount_low 8 c d hc,
)

popcount-word64 :
    (a b c d e f g h : ℕ)
    → All IsByte (a ∷ b ∷ c ∷ d ∷ e ∷ f ∷ g ∷ h ∷ [])
    → popcount 64 (word64 a b c d e f g h)
      ≡ popcount 8 a
        + popcount 8 b
        + popcount 8 c
        + popcount 8 d
        + popcount 8 e
        + popcount 8 f
        + popcount 8 g
        + popcount 8 h
popcount-word64 a b c d e f g h (ha, (hb, (hc, (hd, (he, (hf, (hg, (hh, _)))))))) = omega (
  arith,
  popcount_low 56 a (b + 256 * (c + 256 * (d + 256 * word32 e f g h))) ha,
  popcount_low 48 b (c + 256 * (d + 256 * word32 e f g h)) hb,
  popcount_low 40 c (d + 256 * word32 e f g h) hc,
  popcount_low 32 d (word32 e f g h) hd,
  popcount-word32 e f g h he hf hg hh,
)

add_small : (acc p rest : ℕ) → acc + (p + rest) < 2 ^ 32 → add32 acc p ≡ acc + p
add_small acc p rest h = omega arith

count_word32-total :
    (bs : List ℕ) (acc : ℕ)
    → All IsByte bs
    → acc + total bs < 2 ^ 32
    → count_word32 bs acc ≡ acc + total bs
unfolding count_word32
count_word32-total (a ∷ b ∷ c ∷ d ∷ rest) acc (ha, (hb, (hc, (hd, _)))) lt =
    let word = popcount-word32 a b c d ha hb hc hd in
    let sum : total (a ∷ b ∷ c ∷ d ∷ rest) ≡ popcount 32 (word32 a b c d) + total rest =
      unfold total in omega (arith, word) in
    rw (add_small acc (popcount 32 (word32 a b c d)) (total rest) (omega (arith, sum))) (
      omega (
        arith,
        count_bytes-total rest (acc + popcount 32 (word32 a b c d)) (omega (arith, sum)),
        sum,
      ))
count_word32-total bs acc hs lt = count_bytes-total bs acc lt

-- Without overflow the three loops of `update` add up the bytes' population counts.
pub count_words64-total :
    (bs : List ℕ) (acc : ℕ)
    → All IsByte bs
    → acc + total bs < 2 ^ 32
    → count_words64 bs acc ≡ acc + total bs
unfolding count_words64
count_words64-total (a ∷ b ∷ c ∷ d ∷ e ∷ f ∷ g ∷ h ∷ rest) acc
      (ha, (hb, (hc, (hd, (he, (hf, (hg, (hh, hs)))))))) lt =
    let word = popcount-word64 a b c d e f g h (ha, (hb, (hc, (hd, (he, (hf, (hg, (hh, tt)))))))) in
    let sum : total (a ∷ b ∷ c ∷ d ∷ e ∷ f ∷ g ∷ h ∷ rest)
        ≡ popcount 64 (word64 a b c d e f g h) + total rest =
      unfold total in omega (arith, word) in
    rw (add_small acc (popcount 64 (word64 a b c d e f g h)) (total rest) (omega (arith, sum))) (
      omega (
        arith,
        count_words64-total rest (acc + popcount 64 (word64 a b c d e f g h)) hs
            (omega (arith, sum)),
        sum,
      ))
count_words64-total bs acc hs lt = count_word32-total bs acc hs lt

-- A count of nothing, and of everything.
pub ones_zero : (f : ℕ → Bool) (n i : ℕ) → ones f n ≡ 0 → i < n → f i ≡ false
unfolding ones
ones_zero f zero i e lt = absurd (omega (arith, lt))
ones_zero f (suc n) i e lt = elim (Bool-cases (i == n)) [
  | inl same ↦ let p : i ≡ n = ground (arith, same) in rw p (ground (arith, e))
  | inr other ↦ ones_zero f n i (ground (arith, e)) (ground (arith, other, lt))
]

pub ones_full : (f : ℕ → Bool) (n i : ℕ) → ones f n ≡ n → i < n → f i ≡ true
unfolding ones
ones_full f zero i e lt = absurd (omega (arith, lt))
ones_full f (suc n) i e lt = elim (Bool-cases (i == n)) [
  | inl same ↦ let p : i ≡ n = ground (arith, same) in rw p (ground (arith, e, ones-le f n))
  | inr other ↦ ones_full f n i (ground (arith, e, ones-le f n)) (ground (arith, other, lt))
]
