-- ===== src/Tests/Bencode.antt =====
-- Runs of src/torrent/object_stream.cc on a small dictionary.
use libtorrent.Common.{
  List, [], arith, err, length, negsuc, ok, out_of_fuel, refl, ℕ, ◌++◌, ◌<◌, ◌∷◌, ◌≡◌, ◌≢◌,
}
use libtorrent.Object.{
  Object, object, value, string, list, map, nil, cons, end, entry, key_lt, compare_keys, is_empty,
  flags,
}
use libtorrent.Bencode.{read_bencode}
use libtorrent.Bencode.Writer.{
  encode, write_bencode, fixed_buffer, print_value, write_object, print_string, write_obj_string,
  print_nat, write_nat, digits, write_char, write_string, write_loop, skipped, flush, flush_to,
}
use libtorrent.Bencode.Normal.{IsNormal, plain, height}
use libtorrent.Bencode.RoundTrip.{read_bencode-encode}
use libtorrent.Bencode.Progress.{read_bencode_total}
use libtorrent.Bencode.Skip.{
  read_bencode_skip, read_bencode_skip_total, skip_loop, skip_round, skip_item, skip_key,
  skip_string, skip_number, skip_minus, skip_digits, open_container, close_container,
}
use libtorrent.Bencode.{read_string, read_length, take_colon, is_digit}

-- d1:ali-7ee2:bc3:xyze
abbrev sample : Object
sample = object 0 (
    map (
      entry (b'a' ∷ []) (object 0 (list (cons (object 0 (value (negsuc 6))) nil)))
        (entry (b'b' ∷ b'c' ∷ []) (object 0 (string (b'x' ∷ b'y' ∷ b'z' ∷ []))) end)))

abbrev sample_bytes : List ℕ
sample_bytes =
    b'd' ∷ b'1' ∷ b':' ∷ b'a' ∷ b'l' ∷ b'i' ∷ b'-' ∷ b'7' ∷ b'e' ∷ b'e' ∷ b'2' ∷ b':' ∷ b'b' ∷ b'c'
    ∷ b'3' ∷ b':' ∷ b'x' ∷ b'y' ∷ b'z' ∷ b'e' ∷ []

encode_run : encode 0 sample ≡ ok sample_bytes
unfolding encode print_value print_string print_nat digits is_empty flags skipped
encode_run = refl

-- A fixed buffer of four bytes takes part of a string, and no error is raised.
truncated_run :
    write_bencode fixed_buffer 4 0 (object 0 (string (b'x' ∷ b'y' ∷ b'z' ∷ [])))
    ≡ ok (record {
      sink = fixed_buffer;
      cap = 0;
      pending = [];
      sent = b'3' ∷ b':' ∷ b'x' ∷ b'y' ∷ [];
    })
unfolding write_bencode write_object write_obj_string write_nat write_char write_string write_loop
    flush flush_to digits flags
truncated_run = refl

sample-IsNormal : IsNormal sample
unfolding key_lt compare_keys
sample-IsNormal = (
  refl,
  (
    (refl, tt),
    ((refl, ((refl, omega arith), tt)), ((refl, omega arith), tt, omega arith), omega arith),
  ),
)

read_bencode-encode_example :
    (bytes : List ℕ) × (encode 0 sample ≡ ok bytes)
    × (read_bencode (bytes ++ (b'e' ∷ [])) 0 ≡ ok (sample, b'e' ∷ []))
unfolding height plain print_value print_string print_nat digits
read_bencode-encode_example =
    read_bencode-encode sample 0 (b'e' ∷ []) sample-IsNormal (omega arith) (omega arith)

read_bencode_total_example :
    (read_bencode sample_bytes 0 ≢ err out_of_fuel)
    × ((o : Object) (left : List ℕ) → read_bencode sample_bytes 0 ≡ ok (o, left) → length left < 20)
read_bencode_total_example = read_bencode_total sample_bytes 0

-- The skipping reader finds the end of the dictionary, and takes a lone sign for a number.
skip_run : read_bencode_skip (sample_bytes ++ (b'x' ∷ [])) ≡ ok (b'x' ∷ [])
unfolding read_bencode_skip skip_loop skip_round skip_item skip_key skip_string skip_number
    skip_minus skip_digits open_container close_container read_string read_length take_colon
    is_digit
skip_run = refl

skip_sign_run : read_bencode_skip (b'i' ∷ b'-' ∷ b'e' ∷ []) ≡ ok []
unfolding read_bencode_skip skip_loop skip_round skip_item skip_key skip_number skip_minus
    skip_digits is_digit
skip_sign_run = refl

read_bencode_skip_total_example :
    (read_bencode_skip sample_bytes ≢ err out_of_fuel)
    × ((left : List ℕ) → read_bencode_skip sample_bytes ≡ ok left → length left < 20)
read_bencode_skip_total_example = read_bencode_skip_total sample_bytes
