-- ===== src/Tests/StringManip.antt =====
-- Runs of src/torrent/utils/string_manip.cc on short strings.
use libtorrent.Common.{ℕ, List, [], ◌∷◌, true, false, ◌≡◌, ◌↔◌, refl, arith, All}
use libtorrent.StringManip.{
  is_valid_utf8, valid_from, bytes_after, sanitize_string, sanitize_from, trim_spaces, skip_spaces,
  string_with_escape_codes, sanitize_string_with_escape_codes, sanitize_string_with_tags,
  outside_tags,
}
use libtorrent.StringManip.Utf8.{IsUtf8, is_valid_utf8-IsUtf8}
use libtorrent.StringManip.Sanitize.{IsClean, IsPrintable, sanitize_string-IsClean}

-- "é", and a tab, "<b>", "a", two control bytes and a space.
abbrev accented : List ℕ
accented = 0xc3 ∷ 0xa9 ∷ []

abbrev tagged : List ℕ
tagged = 9 ∷ b'<' ∷ b'b' ∷ b'>' ∷ b'a' ∷ 1 ∷ 2 ∷ b' ' ∷ []

utf8_run : is_valid_utf8 accented ≡ true
unfolding is_valid_utf8 valid_from bytes_after
utf8_run = refl

cut_run : is_valid_utf8 (0xc3 ∷ []) ≡ false
unfolding is_valid_utf8 valid_from bytes_after
cut_run = refl

-- A form that is too long passes.
overlong_run : is_valid_utf8 (0xc0 ∷ 0x80 ∷ []) ≡ true
unfolding is_valid_utf8 valid_from bytes_after
overlong_run = refl

sanitize_run : sanitize_string tagged ≡ b'<' ∷ b'b' ∷ b'>' ∷ b'a' ∷ b'*' ∷ []
unfolding sanitize_string sanitize_from trim_spaces skip_spaces
sanitize_run = refl

tags_run : sanitize_string_with_tags tagged ≡ b'a' ∷ b'*' ∷ []
unfolding sanitize_string_with_tags sanitize_string sanitize_from trim_spaces skip_spaces
    outside_tags
tags_run = refl

is_valid_utf8-IsUtf8_example : (is_valid_utf8 accented ≡ true) ↔ IsUtf8 accented
is_valid_utf8-IsUtf8_example = is_valid_utf8-IsUtf8 accented (omega arith, (omega arith, tt))

sanitize_string-IsClean_example :
    IsClean (sanitize_string tagged)
    × IsClean (sanitize_string_with_escape_codes tagged)
    × IsClean (sanitize_string_with_tags tagged)
    × All IsPrintable (string_with_escape_codes tagged)
sanitize_string-IsClean_example = sanitize_string-IsClean tagged
