-- ===== src/Bencode/Numbers.antt =====
-- Numbers and strings in bencode: what the readers make of what the writer prints.
use libtorrent.Common.{
  ==_iff, Bool-cases, List, [], ap, arith, drop-append_length, false, inl, inr, length,
  length-append, ok, pos, refl, suc, sym, take, take-append_length, true, zero, ℕ, ◌%◌, ◌*◌, ◌++◌,
  ◌+◌, ◌-◌, ◌/◌, ◌<◌, ◌==◌, ◌^◌, ◌∙◌, ◌∷◌, ◌≡◌, ◌≢◌, ◌≤◌, negsuc,
}
use native.Mathlib.Nat.{pow-suc}
use mathlib.Core.List.{append_assoc, append-nil}
use libtorrent.Bencode.{
  is_digit, read_digits, read_value, read_length, read_string, int64_max, take_colon, read_negative,
  negate, read_signed,
}
use libtorrent.Bencode.Writer.{digits, print_nat, print_value, print_string}

digit-IsDigit : (v : ℕ) → is_digit (b'0' + v % 10) ≡ true
unfolding is_digit
digit-IsDigit v = ground arith

digits-zero : (fuel : ℕ) (tail : List ℕ) → digits fuel 0 tail ≡ tail
unfolding digits
digits-zero zero tail = refl
digits-zero (suc fuel) tail = refl

digits_step :
    (fuel v : ℕ) (tail : List ℕ)
    → v ≢ 0
    → digits (suc fuel) v tail ≡ digits fuel (v / 10) ((b'0' + v % 10) ∷ tail)
unfolding digits
digits_step fuel v tail h = ground (arith, h)

-- The digits of a positive number begin with one that is not '0'.
digits-cons :
    (fuel v : ℕ) (tail : List ℕ)
    → v < 10 ^ fuel
    → v ≢ 0
    → (c : ℕ) × (cs : List ℕ) × (digits fuel v tail ≡ c ∷ cs) × (b'0' < c) × (c ≤ b'9')
digits-cons zero v tail h ne = absurd (ne (omega arith))
digits-cons (suc fuel) v tail h ne = elim (Bool-cases (v / 10 == 0)) [
  | inl e ↦
      let z : v / 10 ≡ 0 = (==_iff _ _).0 e in
      (
        b'0' + v % 10,
        tail,
        digits_step fuel v tail ne
            ∙ ap (λ w. digits fuel w ((b'0' + v % 10) ∷ tail)) z
            ∙ digits-zero fuel ((b'0' + v % 10) ∷ tail),
        omega arith,
        omega arith,
      )
  | inr e ↦
      let (c, cs, eq, lo, hi) =
        digits-cons fuel (v / 10) ((b'0' + v % 10) ∷ tail) (omega (arith, pow-suc 10 fuel))
          (λ p. ground (arith, p)) in
      (c, cs, digits_step fuel v tail ne ∙ eq, lo, hi)
]

-- One digit read after the others.
read_digit :
    (v : ℕ) (rest : List ℕ)
    → v ≤ int64_max
    → read_digits (v / 10) ((b'0' + v % 10) ∷ rest) ≡ read_digits v rest
unfolding read_digits
read_digit v rest h =
    let e : v / 10 * 10 + (b'0' + v % 10 - b'0') ≡ v = omega arith in
    rw (e, digit-IsDigit v) (ground arith)

length_digit :
    (v : ℕ) (rest : List ℕ)
    → v < 2 ^ 32
    → read_length (v / 10) ((b'0' + v % 10) ∷ rest) ≡ read_length v rest
unfolding read_length
length_digit v rest h =
    let e : (v / 10 * 10 + (b'0' + v % 10 - b'0')) % 2 ^ 32 ≡ v = omega arith in
    rw (e, digit-IsDigit v) refl

read_digits-digits :
    (fuel v : ℕ) (tail rest : List ℕ)
    → v < 10 ^ fuel
    → v ≤ int64_max
    → read_digits 0 (digits fuel v tail ++ rest) ≡ read_digits v (tail ++ rest)
read_digits-digits zero v tail rest h le =
    let z : v ≡ 0 = omega arith in rw z (unfold digits in refl)
read_digits-digits (suc fuel) v tail rest h le = elim (Bool-cases (v == 0)) [
  | inl e ↦
      let z : v ≡ 0 = (==_iff _ _).0 e in
      rw z (ap (λ t. read_digits 0 (t ++ rest)) (digits-zero (suc fuel) tail))
  | inr e ↦
      ap (λ t. read_digits 0 (t ++ rest)) (digits_step fuel v tail (λ p. ground (arith, p)))
      ∙ read_digits-digits fuel (v / 10) ((b'0' + v % 10) ∷ tail) rest
          (omega (arith, pow-suc 10 fuel)) (omega arith)
      ∙ read_digit v (tail ++ rest) le
]

read_length-digits :
    (fuel v : ℕ) (tail rest : List ℕ)
    → v < 10 ^ fuel
    → v < 2 ^ 32
    → read_length 0 (digits fuel v tail ++ rest) ≡ read_length v (tail ++ rest)
read_length-digits zero v tail rest h le =
    let z : v ≡ 0 = omega arith in rw z (unfold digits in refl)
read_length-digits (suc fuel) v tail rest h le = elim (Bool-cases (v == 0)) [
  | inl e ↦
      let z : v ≡ 0 = (==_iff _ _).0 e in
      rw z (ap (λ t. read_length 0 (t ++ rest)) (digits-zero (suc fuel) tail))
  | inr e ↦
      ap (λ t. read_length 0 (t ++ rest)) (digits_step fuel v tail (λ p. ground (arith, p)))
      ∙ read_length-digits fuel (v / 10) ((b'0' + v % 10) ∷ tail) rest
          (omega (arith, pow-suc 10 fuel)) (omega arith)
      ∙ length_digit v (tail ++ rest) le
]

-- A printed number begins with a digit, and with '0' only if it is 0.
pub print_nat-cons :
    (v : ℕ)
    → v < 2 ^ 64
    → (c : ℕ) × (cs : List ℕ) × (print_nat v ≡ c ∷ cs)
      × (b'0' ≤ c)
      × (c ≤ b'9')
      × (v ≢ 0 → b'0' < c)
unfolding print_nat
print_nat-cons v h = elim (Bool-cases (v == 0)) [
  | inl e ↦ (b'0', [], rw e, omega arith, omega arith, λ ne. absurd (ne ((==_iff _ _).0 e)))
  | inr e ↦
      let (c, cs, eq, lo, hi) = digits-cons 20 v [] (omega arith) (λ p. ground (arith, p)) in
      (c, cs, rw e eq, omega arith, hi, λ _. lo)
]

pub read_digits-print_nat :
    (v : ℕ) (c : ℕ) (rest : List ℕ)
    → v ≤ int64_max
    → is_digit c ≡ false
    → read_digits 0 (print_nat v ++ (c ∷ rest)) ≡ ok (v, c ∷ rest)
unfolding print_nat
read_digits-print_nat v c rest h nd = elim (Bool-cases (v == 0)) [
  | inl e ↦ let z : v ≡ 0 = (==_iff _ _).0 e in rw (e, z) (unfold read_digits is_digit in rw nd)
  | inr e ↦
      rw e (read_digits-digits 20 v [] (c ∷ rest) (omega arith) h ∙ unfold read_digits in rw nd)
]

pub read_length-print_nat :
    (v : ℕ) (c : ℕ) (rest : List ℕ)
    → v < 2 ^ 32
    → is_digit c ≡ false
    → read_length 0 (print_nat v ++ (c ∷ rest)) ≡ (v, c ∷ rest)
unfolding print_nat
read_length-print_nat v c rest h nd = elim (Bool-cases (v == 0)) [
  | inl e ↦ let z : v ≡ 0 = (==_iff _ _).0 e in rw (e, z) (unfold read_length is_digit in rw nd)
  | inr e ↦
      rw e (read_length-digits 20 v [] (c ∷ rest) (omega arith) h ∙ unfold read_length in rw nd)
]

-- The set top bit that the source starts from is shifted out by the first digit.
read_length-top_bit :
    (c : ℕ) (cs : List ℕ)
    → is_digit c ≡ true
    → read_length (2 ^ 31) (c ∷ cs) ≡ read_length 0 (c ∷ cs)
unfolding read_length
read_length-top_bit c cs h =
    let e : (2 ^ 31 * 10 + (c - b'0')) % 2 ^ 32 ≡ (0 * 10 + (c - b'0')) % 2 ^ 32 = omega arith in
    rw (h, e) refl

length-print_string :
    (v c : ℕ) (rest : List ℕ)
    → v < 2 ^ 32
    → is_digit c ≡ false
    → read_length (2 ^ 31) (print_nat v ++ (c ∷ rest)) ≡ (v, c ∷ rest)
length-print_string v c rest h nd =
    let (d, ds, e, lo, hi, _) = print_nat-cons v (omega arith) in
    ap (λ t. read_length (2 ^ 31) (t ++ (c ∷ rest))) e
    ∙ read_length-top_bit d (ds ++ (c ∷ rest)) (unfold is_digit in ground arith)
    ∙ ap (λ t. read_length 0 (t ++ (c ∷ rest))) (sym e)
    ∙ read_length-print_nat v c rest h nd

-- The reader of strings gives back a printed string and what follows it.
pub read_string-print_string :
    (s rest : List ℕ)
    → length s + 1 + length rest < 2 ^ 32
    → read_string (print_string s ++ rest) ≡ ok (s, rest)
unfolding read_string take_colon print_string
read_string-print_string s rest h =
    let n : length s % 2 ^ 32 ≡ length s = omega arith in
    let whole : take (length s) s ≡ s =
      ap (take (length s)) (sym (append-nil s)) ∙ take-append_length s [] in
    let split : (print_nat (length s) ++ (b':' ∷ s)) ++ rest
        ≡ print_nat (length s) ++ (b':' ∷ (s ++ rest)) =
      append_assoc (print_nat (length s)) (b':' ∷ s) rest in
    rw
      (
        n,
        whole,
        split,
        length-print_string (length s) b':' (s ++ rest) (omega arith) (unfold is_digit in refl),
      )
      (rw (take-append_length s rest, drop-append_length s rest)
        (ground (arith, length-append s rest)))

-- The reader of integers gives back a printed int64_t that is not the least one, up to the 'e'.
pub read_value-print_value :
    (n : ℕ) (rest : List ℕ)
    → n ≤ int64_max
    → read_value (print_value (pos n) ++ (b'e' ∷ rest)) ≡ ok (pos n, b'e' ∷ rest)
unfolding read_value read_signed print_value
read_value-print_value n rest h =
    let (d, ds, e, lo, hi, _) = print_nat-cons n (omega arith) in
    let run =
      ap (λ t. read_digits 0 (t ++ (b'e' ∷ rest))) (sym e)
      ∙ read_digits-print_nat n b'e' rest h (unfold is_digit in refl) in
    rw e (rw run (ground arith))

-- The same of a negative integer.
pub read_value-print_negative :
    (n : ℕ) (rest : List ℕ)
    → suc n ≤ int64_max
    → read_value (print_value (negsuc n) ++ (b'e' ∷ rest)) ≡ ok (negsuc n, b'e' ∷ rest)
unfolding read_value read_negative read_signed negate print_value
read_value-print_negative n rest h =
    let (d, ds, e, lo, hi, pos_lead) = print_nat-cons (suc n) (omega arith) in
    let lead : b'0' < d = pos_lead (λ p. absurd (omega arith)) in
    let run =
      ap (λ t. read_digits 0 (t ++ (b'e' ∷ rest))) (sym e)
      ∙ read_digits-print_nat (suc n) b'e' rest h (unfold is_digit in refl) in
    rw e (rw run (ground arith))
