-- ===== src/Bencode.antt =====
-- src/torrent/object_stream.cc: reading and writing of bencode. The range [first, last) of the C
-- readers is the list of the bytes that are left.
pub mod Writer
pub mod Numbers
pub mod Progress
pub mod Skip
pub mod Normal
pub mod Reading
pub mod RoundTrip
pub mod Buffered
use libtorrent.Common.{
  Bool, List, Result, [], add32, bencode_error, bit_and, drop, err, false, if◌then◌else◌, leb,
  length, ltb, negsuc, not, ok, out_of_fuel, pos, suc, take, true, undefined, zero, ℕ, ℤ, ◌%◌, ◌&&◌,
  ◌*◌, ◌+◌, ◌-◌, ◌==◌, ◌>>=◌, ◌>>◌, ◌^◌, ◌||◌, ◌∷◌,
}
use libtorrent.Object.{
  Object, object, value, string, list, map, Items, nil, cons, Entries, entry, flags, key_le, end,
  flag_unordered, mark_unordered, insert_key,
}

unfoldable pub is_digit : ℕ → Bool
is_digit c = leb b'0' c && leb c b'9'

-- The largest int64_t. Signed overflow is undefined, so the loop is followed only up to it.
abbrev pub int64_max : ℕ
int64_max = 2 ^ 63 - 1

-- `value = value * 10 + (*first++ - '0')` while there are digits.
unfoldable pub read_digits : ℕ → List ℕ → Result (ℕ × List ℕ)
unfolding is_digit
read_digits acc [] = ok (acc, [])
read_digits acc (c ∷ rest) =
    let acc' = acc * 10 + (c - b'0') in
    let more = read_digits acc' rest in
    if is_digit c then (if ltb int64_max acc' then err undefined else more) else ok (acc, c ∷ rest)

unfoldable pub negate : ℕ → ℤ
negate zero = pos 0
negate (suc n) = negsuc n

-- The loop from 0, and then the sign.
unfoldable pub read_signed : (ℕ → ℤ) → List ℕ → Result (ℤ × List ℕ)
read_signed sign input = do (n, left) ← read_digits 0 input; ok (sign n, left)

-- After '-': "Don't allow '-0', or '-' followed by non-numeral"; then nothing is taken.
unfoldable pub read_negative : List ℕ → Result (ℤ × List ℕ)
read_negative [] = ok (pos 0, b'-' ∷ [])
read_negative (c ∷ rest) =
    if leb c b'0' || ltb b'9' c then ok (pos 0, b'-' ∷ c ∷ rest) else read_signed negate (c ∷ rest)

-- `object_read_bencode_c_value`, on a value that holds 0 before.
unfoldable pub read_value : List ℕ → Result (ℤ × List ℕ)
read_value [] = ok (pos 0, [])
read_value (c ∷ rest) = if c == b'-' then read_negative rest else read_signed pos (c ∷ rest)

-- `length = length * 10 + (*first++ - '0')` on an unsigned int of 32 bits.
unfoldable pub read_length : ℕ → List ℕ → ℕ × List ℕ
unfolding is_digit
read_length acc [] = (acc, [])
read_length acc (c ∷ rest) =
    let more = read_length ((acc * 10 + (c - b'0')) % 2 ^ 32) rest in
    if is_digit c then more else (acc, c ∷ rest)

unfoldable pub take_colon : ℕ → List ℕ → Result (List ℕ × List ℕ)
take_colon n [] = err bencode_error
take_colon n (c ∷ rest) = if c == b':' then ok (take n rest, drop n rest) else err bencode_error

-- `object_read_bencode_c_string`: the string and what follows it.
unfoldable pub read_string : List ℕ → Result (List ℕ × List ℕ)
read_string input =
    let (n, rest) = read_length (2 ^ 31) input in
    if ltb (length rest % 2 ^ 32) (add32 n 1) || add32 n 1 == 0
    then err bencode_error
    else take_colon n rest

-- `if (flags() & flag_unordered) set_internal_flags(flag_unordered)`.
unfoldable pub inherit : ℕ → Object → ℕ
inherit f o = if bit_and (flags o) flag_unordered == 0 then f else mark_unordered f

unfoldable pub snoc : Items → Object → Items
snoc nil o = cons o nil
snoc (cons x xs) o = cons x (snoc xs o)

is_end : Entries → Bool
is_end end = true
is_end (entry k o es) = false

-- `str <= prev && !object->as_map().empty()`.
unfoldable pub order_flag : ℕ → List ℕ → List ℕ → Entries → ℕ
unfolding is_end
order_flag f str prev es = if key_le str prev && not (is_end es) then mark_unordered f else f

-- `if (first == last || *first++ != 'e') break;`, where `break` leads to the error.
unfoldable pub expect_end : Object → List ℕ → Result (Object × List ℕ)
expect_end o [] = err bencode_error
expect_end o (c ∷ rest) = if c == b'e' then ok (o, rest) else err bencode_error

-- `object_read_bencode_c` and its two loops. Each loop's round and each nested object takes one of
-- the rounds of fuel.
unfoldable mutual
  pub read_object : ℕ → List ℕ → ℕ → Result (Object × List ℕ)
  read_object zero input depth = err out_of_fuel
  read_object (suc fuel) [] depth = err bencode_error
  read_object (suc fuel) (c ∷ rest) depth =
      let items = read_items fuel rest (depth + 1) 0 nil in
      let entries = read_entries fuel rest (depth + 1) 0 [] end in
      if c == b'i'
      then (do (v, left) ← read_value rest; expect_end (object 0 (value v)) left)
      else if c == b'l'
      then (if leb 1024 (depth + 1) then err bencode_error else items)
      else if c == b'd'
      then (if leb 1024 (depth + 1) then err bencode_error else entries)
      else if is_digit c
      then (do (s, left) ← read_string (c ∷ rest); ok (object 0 (string s), left))
      else err bencode_error

  pub read_items : ℕ → List ℕ → ℕ → ℕ → Items → Result (Object × List ℕ)
  read_items zero input depth f items = err out_of_fuel
  read_items (suc fuel) [] depth f items = err bencode_error
  read_items (suc fuel) (c ∷ rest) depth f items =
      let round = (do
        (o, left) ← read_object fuel (c ∷ rest) depth
        read_items fuel left depth (inherit f o) (snoc items o)) in
      if c == b'e' then ok (object f (list items), rest) else round

  pub read_entries : ℕ → List ℕ → ℕ → ℕ → List ℕ → Entries → Result (Object × List ℕ)
  read_entries zero input depth f prev es = err out_of_fuel
  read_entries (suc fuel) [] depth f prev es = err bencode_error
  read_entries (suc fuel) (c ∷ rest) depth f prev es =
      let round = (do
        (str, left) ← read_string (c ∷ rest)
        (o, left') ← read_object fuel left depth
        read_entries fuel left' depth (inherit (order_flag f str prev es) o) str
            (insert_key str o es)) in
      if c == b'e' then ok (object f (map es), rest) else round

-- The rounds that any input can need.
abbrev pub enough_fuel : List ℕ → ℕ
enough_fuel input = 2 * length input + 2

-- `object_read_bencode_c(first, last, object, depth)`.
unfoldable pub read_bencode : List ℕ → ℕ → Result (Object × List ℕ)
read_bencode input depth = read_object (enough_fuel input) input depth
