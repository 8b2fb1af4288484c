-- ===== src/Bitfield/Bytes.antt =====
-- Masks on one byte, each a table checked by evaluation.
use libtorrent.Common.{
  ℕ, zero, suc, ◌+◌, ◌<◌, ◌≡◌, refl, Bool, true, false, ◌&&◌, ◌||◌, not, ◌==◌, ltb, arith, ==_iff,
  bit_and, IsByte,
}
use libtorrent.Bitfield.{mask_before, test_bit, set_bit, unset_bit, popcount}

-- Whether a test holds for every byte, or bit index, below a bound: a fact about bytes is decided by
-- trying them all.
unfoldable pub tried : ℕ → (ℕ → Bool) → Bool
tried zero test = true
tried (suc bound) test = let smaller = tried bound test in test bound && smaller

pub tried_lem :
    (bound : ℕ) (test : ℕ → Bool) (k : ℕ) → tried bound test ≡ true → k < bound → test k ≡ true
unfolding tried
tried_lem zero test k run below = absurd (omega arith)
tried_lem (suc bound) test k run below = ground (arith, tried_lem bound test k)

unfoldable pub eqb : Bool → Bool → Bool
eqb true b = b
eqb false b = not b

pub eqb→eq : (a b : Bool) → eqb a b ≡ true → a ≡ b
unfolding eqb
eqb→eq a b h = ground arith

module _ (P : ℕ → ℕ → Bool) (n m : ℕ) where
  all2 : Bool
  unfolding tried
  all2 = tried n (λ b. tried m (P b))

  all2_sound : all2 ≡ true → (b i : ℕ) → b < n → i < m → P b i ≡ true
  unfolding all2
  all2_sound h b i hb hi = tried_lem m (P b) i (tried_lem n _ b h hb) hi

module _ (P : ℕ → ℕ → ℕ → Bool) where
  all3 : Bool
  unfolding tried
  all3 = tried 256 (λ b. tried 8 (λ i. tried 8 (P b i)))

  all3_sound : all3 ≡ true → (b i j : ℕ) → b < 256 → i < 8 → j < 8 → P b i j ≡ true
  unfolding all3
  all3_sound h b i j hb hi hj =
      tried_lem 8 (P b i) j
        (tried_lem 8 (λ x. tried 8 (P b x)) i
          (tried_lem 256 (λ x. tried 8 (λ y. tried 8 (P x y))) b h hb) hi)
        hj

pub test_bit-set_bit :
    (b i j : ℕ) → b < 256 → i < 8 → j < 8 → test_bit (set_bit b i) j ≡ (i == j) || test_bit b j
unfolding all3 test_bit set_bit eqb
test_bit-set_bit b i j hb hi hj = eqb→eq _ _ (
    all3_sound (λ b i j. eqb (test_bit (set_bit b i) j) ((i == j) || test_bit b j)) refl b i j hb hi
      hj)

pub test_bit-unset_bit :
    (b i j : ℕ)
    → b < 256
    → i < 8
    → j < 8
    → test_bit (unset_bit b i) j ≡ not (i == j) && test_bit b j
unfolding all3 test_bit unset_bit eqb
test_bit-unset_bit b i j hb hi hj = eqb→eq _ _ (
    all3_sound (λ b i j. eqb (test_bit (unset_bit b i) j) (not (i == j) && test_bit b j)) refl b i j
      hb hi hj)

pub set_bit-IsByte : (b i : ℕ) → b < 256 → i < 8 → IsByte (set_bit b i)
unfolding all2 set_bit
set_bit-IsByte b i hb hi =
    ground (arith, all2_sound (λ b i. ltb (set_bit b i) 256) 256 8 refl b i hb hi)

pub unset_bit-IsByte : (b i : ℕ) → b < 256 → i < 8 → IsByte (unset_bit b i)
unfolding all2 unset_bit
unset_bit-IsByte b i hb hi =
    ground (arith, all2_sound (λ b i. ltb (unset_bit b i) 256) 256 8 refl b i hb hi)

-- `clear_tail` keeps the first `k` bits of the last byte and clears the others.
pub test_bit-mask_before :
    (b k j : ℕ)
    → b < 256
    → k < 8
    → j < 8
    → test_bit (bit_and b (mask_before k)) j ≡ ltb j k && test_bit b j
unfolding all3 test_bit mask_before eqb
test_bit-mask_before b k j hb hi hj = eqb→eq _ _ (
    all3_sound (λ b k j. eqb (test_bit (bit_and b (mask_before k)) j) (ltb j k && test_bit b j))
      refl b k j hb hi hj)

pub mask_before-IsByte : (b k : ℕ) → b < 256 → k < 8 → IsByte (bit_and b (mask_before k))
unfolding all2 mask_before
mask_before-IsByte b i hb hi =
    ground (arith, all2_sound (λ b k. ltb (bit_and b (mask_before k)) 256) 256 8 refl b i hb hi)

pub test_bit-ones : (j : ℕ) → j < 8 → test_bit 255 j ≡ true
unfolding tried test_bit
test_bit-ones j h = tried_lem 8 (test_bit 255) j refl h

pub test_bit-zero : (j : ℕ) → j < 8 → test_bit 0 j ≡ false
unfolding tried test_bit eqb
test_bit-zero j h = eqb→eq _ _ (tried_lem 8 (λ j. eqb (test_bit 0 j) false) j refl h)

abbrev pub one_if : Bool → ℕ
one_if true = 1
one_if false = 0

-- The population count of a byte is the number of its bits that test true.
pub popcount-test_bit :
    (b : ℕ)
    → b < 256
    → popcount 8 b
      ≡ one_if (test_bit b 0)
        + one_if (test_bit b 1)
        + one_if (test_bit b 2)
        + one_if (test_bit b 3)
        + one_if (test_bit b 4)
        + one_if (test_bit b 5)
        + one_if (test_bit b 6)
        + one_if (test_bit b 7)
unfolding tried popcount test_bit
popcount-test_bit b h = (==_iff _ _).0 (
    tried_lem 256
      (λ b.
        popcount 8 b
        == one_if (test_bit b 0)
          + one_if (test_bit b 1)
          + one_if (test_bit b 2)
          + one_if (test_bit b 3)
          + one_if (test_bit b 4)
          + one_if (test_bit b 5)
          + one_if (test_bit b 6)
          + one_if (test_bit b 7))
      b refl h)
