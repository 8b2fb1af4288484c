-- ===== src/Bencode/Skip.antt =====
-- `object_read_bencode_skip_c` of src/torrent/object_stream.cc, which finds the end of an object without
-- building it. The stack of 128 chars is the list of the open containers, innermost first, where
-- `true` is a dictionary; its bottom entry, which is never a dictionary, is left out.
use libtorrent.Common.{
  Bool, List, Result, [], bencode_error, err, false, if◌then◌else◌, length, ok, out_of_fuel, suc,
  true, zero, ℕ, ◌+◌, ◌==◌, ◌>>=◌, ◌∷◌, >>=-eq-ok, >>=-ne-err, arith, ◌<◌, ◌≡◌, ◌≢◌, ◌≤◌,
  Bool-cases, inl, inr,
}
use libtorrent.Bencode.{is_digit, read_string}
use libtorrent.Bencode.Progress.{read_string-lt, read_string-ne-fuel}

-- `std::find_if(first, last, &object_is_not_digit)`, and the 'e' after it.
unfoldable pub skip_digits : List ℕ → Result (List ℕ)
skip_digits [] = err bencode_error
skip_digits (c ∷ rest) =
    let more = skip_digits rest in
    if is_digit c then more else if c == b'e' then ok rest else err bencode_error

unfoldable pub skip_minus : List ℕ → Result (List ℕ)
skip_minus [] = err bencode_error
skip_minus (c ∷ rest) = if c == b'0' then err bencode_error else skip_digits (c ∷ rest)

-- What follows an 'i'.
unfoldable pub skip_number : List ℕ → Result (List ℕ)
skip_number [] = err bencode_error
skip_number (c ∷ rest) = if c == b'-' then skip_minus rest else skip_digits (c ∷ rest)

unfoldable pub skip_string : List ℕ → Result (List ℕ)
skip_string input = do (s, left) ← read_string input; ok left

unfoldable pub open_container : Bool → List Bool → List ℕ → Result (List Bool × List ℕ)
open_container is_map stack rest =
    if length stack + 1 == 128 then err bencode_error else ok (is_map ∷ stack, rest)

-- The switch. Where the input has ended, the loop is left for the error.
unfoldable pub skip_item : List Bool → List ℕ → Result (List Bool × List ℕ)
unfolding skip_number skip_string open_container
skip_item stack [] = err bencode_error
skip_item stack (c ∷ rest) =
    if c == b'i'
    then (do left ← skip_number rest; ok (stack, left))
    else if c == b'l'
    then open_container false stack rest
    else if c == b'd'
    then open_container true stack rest
    else (do left ← skip_string (c ∷ rest); ok (stack, left))

unfoldable pub skip_key : List Bool → List ℕ → Result (List ℕ)
unfolding skip_string
skip_key [] input = ok input
skip_key (is_map ∷ stack) input = if is_map then skip_string input else ok input

unfoldable pub close_container : List Bool → List ℕ → Result (List Bool × List ℕ)
close_container [] rest = err bencode_error
close_container (is_map ∷ stack) rest = ok (stack, rest)

-- One round of the loop: the stack and the input after it.
unfoldable pub skip_round : List Bool → List ℕ → Result (List Bool × List ℕ)
unfolding skip_item skip_key close_container
skip_round stack [] = err bencode_error
skip_round stack (c ∷ rest) =
    if c == b'e'
    then close_container stack rest
    else (do left ← skip_key stack (c ∷ rest); skip_item stack left)

unfoldable pub skip_loop : ℕ → List Bool → List ℕ → Result (List ℕ)
unfolding skip_round
skip_loop zero stack input = err out_of_fuel
skip_loop (suc fuel) stack input = do
  (stack', left) ← skip_round stack input
  let more = skip_loop fuel stack' left
  elim stack' [ [] ↦ ok left | is_map ∷ below ↦ more ]

-- A round takes at least one byte.
unfoldable pub read_bencode_skip : List ℕ → Result (List ℕ)
read_bencode_skip input = skip_loop (length input + 1) [] input

skip_digits-lt : (input left : List ℕ) → skip_digits input ≡ ok left → length left < length input
unfolding skip_digits
skip_digits-lt [] left e = ground (arith, e)
skip_digits-lt (c ∷ rest) left e = ground (arith, e, skip_digits-lt rest left)

skip_number-le : (input left : List ℕ) → skip_number input ≡ ok left → length left ≤ length input
unfolding skip_number skip_minus
skip_number-le [] left e = ground (arith, e)
skip_number-le (c ∷ []) left e = ground (arith, e, skip_digits-lt (c ∷ []) left)
skip_number-le (c ∷ d ∷ rest) left e =
    ground (arith, e, skip_digits-lt (c ∷ d ∷ rest) left, skip_digits-lt (d ∷ rest) left)

skip_string-lt : (input left : List ℕ) → skip_string input ≡ ok left → length left < length input
unfolding skip_string
skip_string-lt input left e =
    let ((s, mid), e1, e2) = >>=-eq-ok (read_string input) _ e in
    ground (arith, read_string-lt input s mid e1, e2)

skip_digits-ne-fuel : (input : List ℕ) → skip_digits input ≢ err out_of_fuel
unfolding skip_digits
skip_digits-ne-fuel [] p = cc
skip_digits-ne-fuel (c ∷ rest) e = ground (arith, e, skip_digits-ne-fuel rest)

skip_number-ne-fuel : (input : List ℕ) → skip_number input ≢ err out_of_fuel
unfolding skip_number skip_minus
skip_number-ne-fuel [] p = cc
skip_number-ne-fuel (c ∷ []) e = ground (arith, e, skip_digits-ne-fuel (c ∷ []))
skip_number-ne-fuel (c ∷ d ∷ rest) e =
    ground (arith, e, skip_digits-ne-fuel (c ∷ d ∷ rest), skip_digits-ne-fuel (d ∷ rest))

skip_string-ne-fuel : (input : List ℕ) → skip_string input ≢ err out_of_fuel
unfolding skip_string
skip_string-ne-fuel input =
    >>=-ne-err (read_string input) _ out_of_fuel (read_string-ne-fuel input) (λ a _ p. cc)

tagged_number : List Bool → List ℕ → Result (List Bool × List ℕ)
tagged_number stack rest = do left ← skip_number rest; ok (stack, left)

tagged_string : List Bool → List ℕ → Result (List Bool × List ℕ)
tagged_string stack input = do left ← skip_string input; ok (stack, left)

tagged_number-le :
    (stack st : List Bool) (input left : List ℕ)
    → tagged_number stack input ≡ ok (st, left)
    → length left ≤ length input
unfolding tagged_number
tagged_number-le stack st input left e =
    let (mid, e1, e2) = >>=-eq-ok (skip_number input) _ e in
    ground (arith, skip_number-le input mid e1, e2)

tagged_string-lt :
    (stack st : List Bool) (input left : List ℕ)
    → tagged_string stack input ≡ ok (st, left)
    → length left < length input
unfolding tagged_string
tagged_string-lt stack st input left e =
    let (mid, e1, e2) = >>=-eq-ok (skip_string input) _ e in
    ground (arith, skip_string-lt input mid e1, e2)

skip_item-lt :
    (stack st : List Bool) (input left : List ℕ)
    → skip_item stack input ≡ ok (st, left)
    → length left < length input
unfolding skip_item open_container tagged_number tagged_string
skip_item-lt stack st [] left e = cc
skip_item-lt stack st (c ∷ rest) left e =
    ground
      (arith, e, tagged_number-le stack st rest left, tagged_string-lt stack st (c ∷ rest) left)

skip_key-le :
    (stack : List Bool) (input left : List ℕ)
    → skip_key stack input ≡ ok left
    → length left ≤ length input
unfolding skip_key
skip_key-le [] input left e = ground (arith, e)
skip_key-le (is_map ∷ stack) input left e = ground (arith, e, skip_string-lt input left)

skip_round-lt :
    (stack st : List Bool) (input left : List ℕ)
    → skip_round stack input ≡ ok (st, left)
    → length left < length input
unfolding skip_round close_container
skip_round-lt stack st [] left e = cc
skip_round-lt stack st (c ∷ rest) left e = elim (Bool-cases (c == b'e')) [
  | inl close ↦ closed stack (subst_close close e)
  | inr item ↦
      let (mid, e1, e2) = >>=-eq-ok (skip_key stack (c ∷ rest)) _ (subst_item item e) in
      omega (arith, skip_key-le stack (c ∷ rest) mid e1, skip_item-lt stack st mid left e2)
]
  where
    subst_close :
        (c == b'e') ≡ true
        → skip_round stack (c ∷ rest) ≡ ok (st, left)
        → close_container stack rest ≡ ok (st, left)
    subst_close h = rw h (λ p. p)

    subst_item :
        (c == b'e') ≡ false
        → skip_round stack (c ∷ rest) ≡ ok (st, left)
        → (skip_key stack (c ∷ rest) >>= skip_item stack) ≡ ok (st, left)
    subst_item h = rw h (λ p. p)

    closed :
        (s : List Bool) → close_container s rest ≡ ok (st, left) → length left < suc (length rest)
    closed [] p = cc
    closed (is_map ∷ s) p = ground (arith, p)

tagged_number-ne-fuel :
    (stack : List Bool) (input : List ℕ) → tagged_number stack input ≢ err out_of_fuel
unfolding tagged_number
tagged_number-ne-fuel stack input =
    >>=-ne-err (skip_number input) _ out_of_fuel (skip_number-ne-fuel input) (λ a _ p. cc)

tagged_string-ne-fuel :
    (stack : List Bool) (input : List ℕ) → tagged_string stack input ≢ err out_of_fuel
unfolding tagged_string
tagged_string-ne-fuel stack input =
    >>=-ne-err (skip_string input) _ out_of_fuel (skip_string-ne-fuel input) (λ a _ p. cc)

skip_item-ne-fuel : (stack : List Bool) (input : List ℕ) → skip_item stack input ≢ err out_of_fuel
unfolding skip_item open_container tagged_number tagged_string
skip_item-ne-fuel stack [] p = cc
skip_item-ne-fuel stack (c ∷ rest) p =
    ground (arith, p, tagged_number-ne-fuel stack rest, tagged_string-ne-fuel stack (c ∷ rest))

skip_key-ne-fuel : (stack : List Bool) (input : List ℕ) → skip_key stack input ≢ err out_of_fuel
unfolding skip_key
skip_key-ne-fuel [] input p = cc
skip_key-ne-fuel (is_map ∷ stack) input p = ground (arith, p, skip_string-ne-fuel input)

skip_round-ne-fuel : (stack : List Bool) (input : List ℕ) → skip_round stack input ≢ err out_of_fuel
unfolding skip_round close_container
skip_round-ne-fuel stack [] p = cc
skip_round-ne-fuel [] (c ∷ rest) p = ground (
  arith,
  p,
  >>=-ne-err (skip_key [] (c ∷ rest)) (skip_item []) out_of_fuel (skip_key-ne-fuel [] (c ∷ rest))
      (λ a _. skip_item-ne-fuel [] a),
)
skip_round-ne-fuel (is_map ∷ stack) (c ∷ rest) p = ground (
  arith,
  p,
  >>=-ne-err (skip_key (is_map ∷ stack) (c ∷ rest)) (skip_item (is_map ∷ stack)) out_of_fuel
      (skip_key-ne-fuel (is_map ∷ stack) (c ∷ rest)) (λ a _. skip_item-ne-fuel (is_map ∷ stack) a),
)

after_round : ℕ → List Bool × List ℕ → Result (List ℕ)
after_round fuel (stack, left) =
    let more = skip_loop fuel stack left in elim stack [ [] ↦ ok left | is_map ∷ below ↦ more ]

-- The loop ends on an input of which the fuel is more than the length.
Ends : ℕ → Type 0
Ends fuel =
    (stack : List Bool) (input : List ℕ)
    → length input < fuel
    → (skip_loop fuel stack input ≢ err out_of_fuel)
      × ((left : List ℕ) → skip_loop fuel stack input ≡ ok left → length left < length input)

after_round-ne-fuel :
    (fuel : ℕ) (st : List Bool) (mid : List ℕ)
    → Ends fuel
    → length mid < fuel
    → after_round fuel (st, mid) ≢ err out_of_fuel
unfolding after_round Ends
after_round-ne-fuel fuel [] mid ends lt p = cc
after_round-ne-fuel fuel (is_map ∷ st) mid ends lt p = (ends (is_map ∷ st) mid lt).0 p

after_round-le :
    (fuel : ℕ) (st : List Bool) (mid left : List ℕ)
    → Ends fuel
    → length mid < fuel
    → after_round fuel (st, mid) ≡ ok left
    → length left ≤ length mid
unfolding after_round Ends
after_round-le fuel [] mid left ends lt p = ground (arith, p)
after_round-le fuel (is_map ∷ st) mid left ends lt p =
    omega (arith, (ends (is_map ∷ st) mid lt).1 left p)

skip_loop-Ends : (fuel : ℕ) → Ends fuel
unfolding skip_loop after_round Ends
skip_loop-Ends zero stack input h = absurd (omega (arith, h))
skip_loop-Ends (suc fuel) stack input h =
    let ends = skip_loop-Ends fuel in
    let lt = skip_round-lt stack in
    (
      >>=-ne-err (skip_round stack input) (after_round fuel) out_of_fuel
          (skip_round-ne-fuel stack input)
          (λ a e. after_round-ne-fuel fuel a.0 a.1 ends (omega (arith, h, lt a.0 input a.1 e))),
      λ left e.
          let ((st, mid), e1, e2) = >>=-eq-ok (skip_round stack input) (after_round fuel) e in
          omega (
            arith,
            lt st input mid e1,
            after_round-le fuel st mid left ends (omega (arith, h, lt st input mid e1)) e2,
          ),
    )

-- On every input, well formed or not, the skipping reader ends: it never runs out of the fuel it is
-- given, and where it succeeds it has taken at least one byte.
pub read_bencode_skip_total :
    (input : List ℕ)
    → (read_bencode_skip input ≢ err out_of_fuel)
      × ((left : List ℕ) → read_bencode_skip input ≡ ok left → length left < length input)
unfolding read_bencode_skip Ends
read_bencode_skip_total input = skip_loop-Ends (length input + 1) [] input (omega arith)
