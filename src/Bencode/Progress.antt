-- ===== src/Bencode/Progress.antt =====
-- The reader consumes input, and the fuel of `read_bencode` is enough for any input.
use libtorrent.Common.{
  List, [], arith, err, length, length-drop-le, ok, out_of_fuel, ℕ, ℤ, ◌%◌, ◌*◌, ◌+◌, ◌-◌, ◌<◌, ◌^◌,
  ◌∷◌, ◌≡◌, ◌≢◌, ◌≤◌, >>=-eq-ok, >>=-ne-err, Bool-cases, inl, inr, leb, ltb, pos, suc, ◌==◌, ◌>>=◌,
  ◌||◌, Result, zero,
}
use libtorrent.Object.{Object, object, value, string, Items, nil, Entries, insert_key}
use libtorrent.Bencode.{
  read_digits, read_value, read_length, read_string, expect_end, read_object, read_items,
  read_entries, read_negative, take_colon, negate, read_signed, end, inherit, snoc, order_flag,
  read_bencode, enough_fuel,
}

pub read_digits-le :
    (acc : ℕ) (input : List ℕ) (n : ℕ) (left : List ℕ)
    → read_digits acc input ≡ ok (n, left)
    → length left ≤ length input
unfolding read_digits
read_digits-le acc [] n left e = ground arith
read_digits-le acc (c ∷ rest) n left e =
    ground (arith, read_digits-le (acc * 10 + (c - b'0')) rest n left)

read_digits-ne-fuel : (acc : ℕ) (input : List ℕ) → read_digits acc input ≢ err out_of_fuel
unfolding read_digits
read_digits-ne-fuel acc [] e = cc
read_digits-ne-fuel acc (c ∷ rest) e =
    ground (arith, read_digits-ne-fuel (acc * 10 + (c - b'0')) rest)

read_signed-le :
    (k : ℕ → ℤ) (input : List ℕ) (v : ℤ) (left : List ℕ)
    → read_signed k input ≡ ok (v, left)
    → length left ≤ length input
unfolding read_signed
read_signed-le k input v left h =
    let ((m, l), e, f) = >>=-eq-ok (read_digits 0 input) _ h in
    ground (arith, read_digits-le 0 input m l e)

read_signed-ne-fuel : (k : ℕ → ℤ) (input : List ℕ) → read_signed k input ≢ err out_of_fuel
unfolding read_signed
read_signed-ne-fuel k input =
    >>=-ne-err (read_digits 0 input) _ out_of_fuel (read_digits-ne-fuel 0 input) (λ a _ p. cc)

read_negative-le :
    (input : List ℕ) (n : ℤ) (left : List ℕ)
    → read_negative input ≡ ok (n, left)
    → length left ≤ suc (length input)
unfolding read_negative
read_negative-le [] n left e = ground arith
read_negative-le (c ∷ rest) n left e = elim (Bool-cases (leb c b'0' || ltb b'9' c)) [
  | inl stop ↦ ground arith
  | inr go ↦ omega (arith, read_signed-le negate (c ∷ rest) n left (rw go at e))
]

read_negative-ne-fuel : (input : List ℕ) → read_negative input ≢ err out_of_fuel
unfolding read_negative
read_negative-ne-fuel [] = λ p. cc
read_negative-ne-fuel (c ∷ rest) = elim (Bool-cases (leb c b'0' || ltb b'9' c)) [
  | inl stop ↦ rw stop (λ p. cc)
  | inr go ↦ rw go (read_signed-ne-fuel negate (c ∷ rest))
]

read_value-le :
    (input : List ℕ) (n : ℤ) (left : List ℕ)
    → read_value input ≡ ok (n, left)
    → length left ≤ length input
unfolding read_value
read_value-le [] n left e = ground arith
read_value-le (c ∷ rest) n left e = elim (Bool-cases (c == b'-')) [
  | inl minus ↦ read_negative-le rest n left (rw minus at e)
  | inr plus ↦ read_signed-le pos (c ∷ rest) n left (rw plus at e)
]

read_value-ne-fuel : (input : List ℕ) → read_value input ≢ err out_of_fuel
unfolding read_value
read_value-ne-fuel [] = λ p. cc
read_value-ne-fuel (c ∷ rest) = elim (Bool-cases (c == b'-')) [
  | inl minus ↦ rw minus (read_negative-ne-fuel rest)
  | inr plus ↦ rw plus (read_signed-ne-fuel pos (c ∷ rest))
]

read_length-le : (acc : ℕ) (input : List ℕ) → length (read_length acc input).1 ≤ length input
unfolding read_length
read_length-le acc [] = omega arith
read_length-le acc (c ∷ rest) =
    ground (arith, read_length-le ((acc * 10 + (c - b'0')) % 2 ^ 32) rest)

take_colon-lt :
    (n : ℕ) (input s left : List ℕ) → take_colon n input ≡ ok (s, left) → length left < length input
unfolding take_colon
take_colon-lt n [] s left e = cc
take_colon-lt n (c ∷ rest) s left e = ground (arith, length-drop-le n rest)

take_colon-ne-fuel : (n : ℕ) (input : List ℕ) → take_colon n input ≢ err out_of_fuel
unfolding take_colon
take_colon-ne-fuel n [] e = cc
take_colon-ne-fuel n (c ∷ rest) e = ground arith

-- A string takes at least its colon.
pub read_string-lt :
    (input s left : List ℕ) → read_string input ≡ ok (s, left) → length left < length input
unfolding read_string
read_string-lt input s left e = ground (
  arith,
  read_length-le (2 ^ 31) input,
  take_colon-lt (read_length (2 ^ 31) input).0 (read_length (2 ^ 31) input).1 s left,
)

pub read_string-ne-fuel : (input : List ℕ) → read_string input ≢ err out_of_fuel
unfolding read_string
read_string-ne-fuel input e =
    ground (arith, take_colon-ne-fuel (read_length (2 ^ 31) input).0 (read_length (2 ^ 31) input).1)

expect_end-le :
    (o : Object) (input : List ℕ) (o' : Object) (left : List ℕ)
    → expect_end o input ≡ ok (o', left)
    → length left < length input
unfolding expect_end
expect_end-le o [] o' left e = cc
expect_end-le o (c ∷ rest) o' left e = ground arith

expect_end-ne-fuel : (o : Object) (input : List ℕ) → expect_end o input ≢ err out_of_fuel
unfolding expect_end
expect_end-ne-fuel o [] e = cc
expect_end-ne-fuel o (c ∷ rest) e = ground arith

-- The branches of `read_object` for integers and strings.
abbrev value_branch : List ℕ → Result (Object × List ℕ)
value_branch rest = do (v, left) ← read_value rest; expect_end (object 0 (value v)) left

abbrev string_branch : List ℕ → Result (Object × List ℕ)
string_branch input = do (s, left) ← read_string input; ok (object 0 (string s), left)

value_branch-shrinks :
    (rest : List ℕ) (o : Object) (left : List ℕ)
    → value_branch rest ≡ ok (o, left)
    → length left < length rest
value_branch-shrinks rest o left e =
    let ((v, mid), e1, e2) = >>=-eq-ok (read_value rest) _ e in
    omega (arith, read_value-le rest v mid e1, expect_end-le (object 0 (value v)) mid o left e2)

string_branch-shrinks :
    (input : List ℕ) (o : Object) (left : List ℕ)
    → string_branch input ≡ ok (o, left)
    → length left < length input
string_branch-shrinks input o left e =
    let ((s, mid), e1, e2) = >>=-eq-ok (read_string input) _ e in
    ground (arith, read_string-lt input s mid e1)

-- What a successful read leaves is shorter than what it was given.
mutual
  unfolding read_object

  read_object-shrinks :
      (fuel : ℕ) (input : List ℕ) (depth : ℕ) (o : Object) (left : List ℕ)
      → read_object fuel input depth ≡ ok (o, left)
      → length left < length input
  read_object-shrinks zero input depth o left e = cc
  read_object-shrinks (suc fuel) [] depth o left e = cc
  read_object-shrinks (suc fuel) (c ∷ rest) depth o left e = ground (
    arith,
    value_branch-shrinks rest o left,
    string_branch-shrinks (c ∷ rest) o left,
    read_items-shrinks fuel rest (depth + 1) 0 nil o left,
    read_entries-shrinks fuel rest (depth + 1) 0 [] end o left,
  )

  read_items-shrinks :
      (fuel : ℕ) (input : List ℕ) (depth f : ℕ) (items : Items) (o : Object) (left : List ℕ)
      → read_items fuel input depth f items ≡ ok (o, left)
      → length left < length input
  read_items-shrinks zero input depth f items o left e = cc
  read_items-shrinks (suc fuel) [] depth f items o left e = cc
  read_items-shrinks (suc fuel) (c ∷ rest) depth f items o left e = elim (Bool-cases (c == b'e')) [
    | inl stop ↦ ground arith
    | inr go ↦
        let ((x, mid), e1, e2) = >>=-eq-ok (read_object fuel (c ∷ rest) depth) _ (rw go at e) in
        omega (
          arith,
          read_object-shrinks fuel (c ∷ rest) depth x mid e1,
          read_items-shrinks fuel mid depth (inherit f x) (snoc items x) o left e2,
        )
  ]

  read_entries-shrinks :
      (fuel : ℕ) (input : List ℕ) (depth f : ℕ) (prev : List ℕ) (es : Entries) (o : Object)
      (left : List ℕ)
      → read_entries fuel input depth f prev es ≡ ok (o, left)
      → length left < length input
  read_entries-shrinks zero input depth f prev es o left e = cc
  read_entries-shrinks (suc fuel) [] depth f prev es o left e = cc
  read_entries-shrinks (suc fuel) (c ∷ rest) depth f prev es o left e =
      elim (Bool-cases (c == b'e')) [
        | inl stop ↦ ground arith
        | inr go ↦
            let ((k, mid), e1, e2) = >>=-eq-ok (read_string (c ∷ rest)) _ (rw go at e) in
            let ((x, mid'), e3, e4) = >>=-eq-ok (read_object fuel mid depth) _ e2 in
            omega (
              arith,
              read_string-lt (c ∷ rest) k mid e1,
              read_object-shrinks fuel mid depth x mid' e3,
              read_entries-shrinks fuel mid' depth (inherit (order_flag f k prev es) x) k
                  (insert_key k x es) o left e4,
            )
      ]

value_branch-ne-fuel : (rest : List ℕ) → value_branch rest ≢ err out_of_fuel
value_branch-ne-fuel rest =
    >>=-ne-err (read_value rest) _ out_of_fuel (read_value-ne-fuel rest)
      (λ a _. expect_end-ne-fuel (object 0 (value a.0)) a.1)

string_branch-ne-fuel : (input : List ℕ) → string_branch input ≢ err out_of_fuel
string_branch-ne-fuel input =
    >>=-ne-err (read_string input) _ out_of_fuel (read_string-ne-fuel input) (λ a _ p. cc)

-- Two rounds of fuel for each byte, and two more, are never used up.
mutual
  unfolding read_object

  read_object-ne-fuel :
      (fuel : ℕ) (input : List ℕ) (depth : ℕ)
      → 2 * length input + 1 ≤ fuel
      → read_object fuel input depth ≢ err out_of_fuel
  read_object-ne-fuel zero input depth h = absurd (omega arith)
  read_object-ne-fuel (suc fuel) [] depth h = λ p. cc
  read_object-ne-fuel (suc fuel) (c ∷ rest) depth h = λ e. ground (
    arith,
    value_branch-ne-fuel rest,
    string_branch-ne-fuel (c ∷ rest),
    read_items-ne-fuel fuel rest (depth + 1) 0 nil (omega arith),
    read_entries-ne-fuel fuel rest (depth + 1) 0 [] end (omega arith),
  )

  read_items-ne-fuel :
      (fuel : ℕ) (input : List ℕ) (depth f : ℕ) (items : Items)
      → 2 * length input + 2 ≤ fuel
      → read_items fuel input depth f items ≢ err out_of_fuel
  read_items-ne-fuel zero input depth f items h = absurd (omega arith)
  read_items-ne-fuel (suc fuel) [] depth f items h = λ p. cc
  read_items-ne-fuel (suc fuel) (c ∷ rest) depth f items h = elim (Bool-cases (c == b'e')) [
    | inl stop ↦ rw stop (λ p. cc)
    | inr go ↦ rw go (
        >>=-ne-err (read_object fuel (c ∷ rest) depth) _ out_of_fuel
          (read_object-ne-fuel fuel (c ∷ rest) depth (omega arith))
          (λ a e.
            read_items-ne-fuel fuel a.1 depth (inherit f a.0) (snoc items a.0)
              (omega (arith, read_object-shrinks fuel (c ∷ rest) depth a.0 a.1 e))))
  ]

  read_entries-ne-fuel :
      (fuel : ℕ) (input : List ℕ) (depth f : ℕ) (prev : List ℕ) (es : Entries)
      → 2 * length input + 2 ≤ fuel
      → read_entries fuel input depth f prev es ≢ err out_of_fuel
  read_entries-ne-fuel zero input depth f prev es h = absurd (omega arith)
  read_entries-ne-fuel (suc fuel) [] depth f prev es h = λ p. cc
  read_entries-ne-fuel (suc fuel) (c ∷ rest) depth f prev es h = elim (Bool-cases (c == b'e')) [
    | inl stop ↦ rw stop (λ p. cc)
    | inr go ↦ rw go (
        >>=-ne-err (read_string (c ∷ rest)) _ out_of_fuel (read_string-ne-fuel (c ∷ rest)) (λ k e.
          >>=-ne-err (read_object fuel k.1 depth) _ out_of_fuel
            (read_object-ne-fuel fuel k.1 depth
              (omega (arith, read_string-lt (c ∷ rest) k.0 k.1 e)))
            (λ a e'.
              read_entries-ne-fuel fuel a.1 depth (inherit (order_flag f k.0 prev es) a.0) k.0
                (insert_key k.0 a.0 es)
                (omega (
                  arith,
                  read_string-lt (c ∷ rest) k.0 k.1 e,
                  read_object-shrinks fuel k.1 depth a.0 a.1 e',
                )))))
  ]

-- On every input, well formed or not, the reader ends: it never runs out of the fuel it is given,
-- and where it succeeds it has taken at least one byte.
pub read_bencode_total :
    (input : List ℕ) (depth : ℕ)
    → (read_bencode input depth ≢ err out_of_fuel)
      × ((o : Object) (left : List ℕ)
          → read_bencode input depth ≡ ok (o, left)
          → length left < length input)
unfolding read_bencode
read_bencode_total input depth = (
  read_object-ne-fuel (enough_fuel input) input depth (omega arith),
  read_object-shrinks (enough_fuel input) input depth,
)
