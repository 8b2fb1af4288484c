-- ===== src/StringManip.antt =====
-- src/torrent/utils/string_manip.cc and the hex digits of string_manip.h: names and messages that come from
-- other peers are checked and made printable. A string is a list of bytes; whether `char` is signed
-- makes no difference, since a byte from 128 on is not printable either way.
pub mod Utf8
pub mod Sanitize
use libtorrent.Common.{
  ℕ, zero, suc, ◌+◌, ◌*◌, ◌/◌, ◌%◌, List, [], ◌∷◌, ◌++◌, reverse, Bool, true, false, not, ◌&&◌,
  ◌||◌, if◌then◌else◌, ltb, leb, ◌==◌, bit_and, ◌-◌,
}

-- The number of bytes after a leading byte; 4 for a byte that leads nothing.
unfoldable pub bytes_after : ℕ → ℕ
bytes_after byte =
    if bit_and byte 0x80 == 0
    then 0
    else if bit_and byte 0xe0 == 0xc0
    then 1
    else if bit_and byte 0xf0 == 0xe0
    then 2
    else if bit_and byte 0xf8 == 0xf0
    then 3
    else 4

-- The two loops of `is_valid_utf8`, with the number of continuation bytes that are to come.
unfoldable pub valid_from : ℕ → List ℕ → Bool
valid_from zero [] = true
valid_from zero (byte ∷ rest) =
    let more = valid_from (bytes_after byte) rest in if bytes_after byte == 4 then false else more
valid_from (suc num) [] = false
valid_from (suc num) (byte ∷ rest) =
    let more = valid_from num rest in if bit_and byte 0xc0 == 0x80 then more else false

unfoldable pub is_valid_utf8 : List ℕ → Bool
is_valid_utf8 str = valid_from 0 str

abbrev pub is_space : ℕ → Bool
is_space ch = ch == b' ' || ch == 9 || ch == 10 || ch == 13 || ch == 12 || ch == 11

unfoldable pub skip_spaces : List ℕ → List ℕ
skip_spaces [] = []
skip_spaces (ch ∷ rest) = let more = skip_spaces rest in if is_space ch then more else ch ∷ rest

-- `std::find_if` from the front, and then from the back as far as that.
unfoldable pub trim_spaces : List ℕ → List ℕ
trim_spaces s = reverse (skip_spaces (reverse (skip_spaces s)))

unfoldable pub value_to_hex0 : ℕ → ℕ
value_to_hex0 value = let v = value % 16 in if ltb v 10 then b'0' + v else b'A' + (v - 10)

unfoldable pub value_to_hex1 : ℕ → ℕ
value_to_hex1 value = let v = value / 16 % 16 in if ltb v 10 then b'0' + v else b'A' + (v - 10)

abbrev pub is_unprintable : ℕ → Bool
is_unprintable c = ltb c b' ' || ltb b'~' c

abbrev pub is_line_space : ℕ → Bool
is_line_space c = c == 10 || c == 13 || c == 9

abbrev pub escaped : ℕ → List ℕ → List ℕ
escaped c rest = b'%' ∷ value_to_hex1 c ∷ value_to_hex0 c ∷ rest

unfoldable pub string_with_escape_codes : List ℕ → List ℕ
string_with_escape_codes [] = []
string_with_escape_codes (c ∷ rest) =
    let more = string_with_escape_codes rest in
    if is_unprintable c then escaped c more else c ∷ more

-- The loop of `sanitize_string`, from what it remembers: `unprintable` and `space`.
unfoldable pub sanitize_from : Bool → Bool → List ℕ → List ℕ
sanitize_from unprintable space [] = []
sanitize_from unprintable space (c ∷ rest) =
    let blank = sanitize_from unprintable true rest in
    let bad = sanitize_from true false rest in
    let good = sanitize_from false false rest in
    if is_unprintable c
    then (if is_line_space c
        then (if not space && not unprintable then b' ' ∷ blank else blank)
        else (if unprintable then bad else b'*' ∷ bad))
    else c ∷ good

unfoldable pub sanitize_string : List ℕ → List ℕ
sanitize_string str = trim_spaces (sanitize_from false false str)

-- The loop of `sanitize_string_with_escape_codes`.
unfoldable pub escape_from : Bool → List ℕ → List ℕ
escape_from space [] = []
escape_from space (c ∷ rest) =
    let blank = escape_from true rest in
    let other = escape_from false rest in
    if is_unprintable c
    then (if is_line_space c then (if space then blank else b' ' ∷ blank) else escaped c other)
    else c ∷ other

unfoldable pub sanitize_string_with_escape_codes : List ℕ → List ℕ
sanitize_string_with_escape_codes str = trim_spaces (escape_from false str)

-- The loop of `sanitize_string_with_tags`.
unfoldable pub outside_tags : Bool → List ℕ → List ℕ
outside_tags in_tag [] = []
outside_tags in_tag (c ∷ rest) =
    let inside = outside_tags true rest in
    let outside = outside_tags false rest in
    if c == b'>' then outside else if in_tag || c == b'<' then inside else c ∷ outside

unfoldable pub sanitize_string_with_tags : List ℕ → List ℕ
sanitize_string_with_tags str =
    let sanitized = sanitize_string str in
    let result = trim_spaces (outside_tags false sanitized) in
    elim result [ [] ↦ trim_spaces sanitized | c ∷ rest ↦ c ∷ rest ]
