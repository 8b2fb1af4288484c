-- ===== src/Bitfield/Conjunction.antt =====
-- The conjunction of two bytes, bit by bit. `bit_and` is native: its law for the lowest digit is taken
-- from the definition that stands behind it.
use libtorrent.Common.{
  Bool, IsByte, ap, arith, bit_and, leb, ltb, refl, suc, zero, ℕ, ◌%◌, ◌&&◌, ◌-◌, ◌/◌, ◌<◌, ◌==◌,
  ◌∙◌, ◌≡◌, ◌≤◌,
}
use Prim.Native.Nat.{min, digits, bit_and-bitwise}
use libtorrent.Bitfield.{test_bit, mask_from, mask_before}
use libtorrent.Bitfield.Bytes.{tried, tried_lem, eqb, eqb→eq}

-- The digits of a conjunction, for at most `rounds` of them.
abbrev common : ℕ → ℕ → ℕ → ℕ
common rounds x y = digits (λ _. 0) min rounds x y

common-rounds : (r s x y : ℕ) → x ≤ r → x ≤ s → common r x y ≡ common s x y
common-rounds zero zero x y below below' = refl
common-rounds (suc r) zero zero y below below' = refl
common-rounds (suc r) zero (suc x) y below below' = absurd (omega (arith, below'))
common-rounds zero (suc s) zero y below below' = refl
common-rounds zero (suc s) (suc x) y below below' = absurd (omega (arith, below))
common-rounds (suc r) (suc s) zero y below below' = refl
common-rounds (suc r) (suc s) (suc x) y below below' =
    let halves =
      common-rounds r s (suc x / 2) (y / 2) (omega (arith, below)) (omega (arith, below')) in
    omega (arith, halves)

common-le : (r x y : ℕ) → common r x y ≤ x
common-le zero x y = omega arith
common-le (suc r) zero y = omega arith
common-le (suc r) (suc x) y = omega (arith, common-le r (suc x / 2) (y / 2))

bit_and-le : (x y : ℕ) → bit_and x y ≤ x
bit_and-le x y = omega (arith, bit_and-bitwise x y, common-le x x y)

lowest_digit :
    (x y : ℕ)
    → (bit_and x y / 2 ≡ bit_and (x / 2) (y / 2)) × (bit_and x y % 2 ≡ min (x % 2) (y % 2))
lowest_digit zero y =
    let none_left : bit_and 0 y ≡ 0 = bit_and-bitwise 0 y in
    let none_half : bit_and 0 (y / 2) ≡ 0 = bit_and-bitwise 0 (y / 2) in
    (omega (arith, none_left, none_half), omega (arith, none_left))
lowest_digit (suc x) y =
    let whole = bit_and-bitwise (suc x) y in
    let half = bit_and-bitwise (suc x / 2) (y / 2) in
    let enough = common-rounds x (suc x / 2) (suc x / 2) (y / 2) (omega arith) (omega arith) in
    (omega (arith, whole, half, enough), omega (arith, whole, half, enough))

-- `x` with its lowest `n` digits taken away.
halved : ℕ → ℕ → ℕ
halved zero x = x
halved (suc n) x = halved n (x / 2)

digit : ℕ → ℕ → Bool
unfolding halved
digit n x = halved n x % 2 == 1

digit-bit_and : (n x y : ℕ) → digit n (bit_and x y) ≡ digit n x && digit n y
unfolding digit halved
digit-bit_and zero x y = ground (arith, (lowest_digit x y).1)
digit-bit_and (suc n) x y = ap (digit n) (lowest_digit x y).0 ∙ digit-bit_and n (x / 2) (y / 2)

test_bit-digit : (b k : ℕ) → b < 256 → k < 8 → test_bit b k ≡ digit (7 - k) b
unfolding tried test_bit eqb digit halved
test_bit-digit b k hb hk = eqb→eq _ _ (
    tried_lem 8 (λ k. eqb (test_bit b k) (digit (7 - k) b)) k
      (tried_lem 256 (λ b. tried 8 (λ k. eqb (test_bit b k) (digit (7 - k) b))) b refl hb) hk)

pub bit_and-IsByte : (x y : ℕ) → x < 256 → IsByte (bit_and x y)
bit_and-IsByte x y h = omega (arith, h, bit_and-le x y)

-- A bit of the conjunction of two bytes.
pub test_bit-bit_and :
    (x y k : ℕ)
    → x < 256
    → y < 256
    → k < 8
    → test_bit (bit_and x y) k ≡ test_bit x k && test_bit y k
test_bit-bit_and x y k hx hy hk =
    test_bit-digit (bit_and x y) k (bit_and-IsByte x y hx) hk
    ∙ digit-bit_and (7 - k) x y
    ∙ ground (arith, test_bit-digit x k hx hk, test_bit-digit y k hy hk)

-- `mask_from` keeps the bits from `k` on, and `mask_before` those before `k`.
pub test_bit-mask_from : (k j : ℕ) → k < 8 → j < 8 → test_bit (mask_from k) j ≡ leb k j
unfolding tried test_bit eqb mask_from
test_bit-mask_from k j hk hj = eqb→eq _ _ (
    tried_lem 8 (λ j. eqb (test_bit (mask_from k) j) (leb k j)) j
      (tried_lem 8 (λ k. tried 8 (λ j. eqb (test_bit (mask_from k) j) (leb k j))) k refl hk) hj)

pub test_bit-mask_to : (k j : ℕ) → k < 9 → j < 8 → test_bit (mask_before k) j ≡ ltb j k
unfolding tried test_bit eqb mask_before
test_bit-mask_to k j hk hj = eqb→eq _ _ (
    tried_lem 8 (λ j. eqb (test_bit (mask_before k) j) (ltb j k)) j
      (tried_lem 9 (λ k. tried 8 (λ j. eqb (test_bit (mask_before k) j) (ltb j k))) k refl hk) hj)
