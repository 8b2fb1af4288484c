-- ===== src/StringManip/Sanitize.antt =====
-- What the functions of src/torrent/utils/string_manip.cc that make a string printable return.
use mathlib.Core.List.{reverse-cons, reverse-append, reverse-reverse}
use mathlib.Core.Path.{subst}
use libtorrent.Common.{
  ℕ, ◌+◌, ◌/◌, ◌%◌, ◌≤◌, ◌<◌, List, [], ◌∷◌, ◌++◌, reverse, Bool, Bool-cases, true, false, not,
  ◌&&◌, ◌||◌, if◌then◌else◌, ltb, ◌==◌, ◌≡◌, refl, arith, All, inl, inr, ◌-◌, sym, ap, ◌∙◌,
  All-append,
}
use libtorrent.StringManip.{
  is_space, skip_spaces, trim_spaces, value_to_hex0, value_to_hex1, is_unprintable,
  string_with_escape_codes, sanitize_from, sanitize_string, escape_from,
  sanitize_string_with_escape_codes, outside_tags, sanitize_string_with_tags, is_line_space,
  escaped,
}

abbrev pub IsPrintable : ℕ → Type 0
IsPrintable c = (b' ' ≤ c) × (c ≤ b'~')

-- A string without a space in front.
abbrev pub StartsClean : List ℕ → Type 0
StartsClean [] = Unit {0}
StartsClean (c ∷ rest) = is_space c ≡ false

-- Printable, and without spaces around it.
pub record IsClean (s : List ℕ) : Type 0 where
  pub printable : All IsPrintable s
  pub front : StartsClean s
  pub back : StartsClean (reverse s)

printable : (c : ℕ) → is_unprintable c ≡ false → IsPrintable c
printable c e = (ground (arith, e), ground (arith, e))

hex_digit : (v : ℕ) → v < 16 → IsPrintable (if ltb v 10 then b'0' + v else b'A' + (v - 10))
hex_digit v lt = (ground (arith, lt), ground (arith, lt))

value_to_hex0-IsPrintable : (c : ℕ) → IsPrintable (value_to_hex0 c)
unfolding value_to_hex0
value_to_hex0-IsPrintable c = hex_digit (c % 16) (omega arith)

value_to_hex1-IsPrintable : (c : ℕ) → IsPrintable (value_to_hex1 c)
unfolding value_to_hex1
value_to_hex1-IsPrintable c = hex_digit (c / 16 % 16) (omega arith)

either :
    (b : Bool) (x y : List ℕ)
    → All IsPrintable x
    → All IsPrintable y
    → All IsPrintable (if b then x else y)
either true x y p q = p
either false x y p q = q

-- A byte that is copied as it is, and one that is not.
kept_or :
    (c : ℕ) (instead rest : List ℕ)
    → All IsPrintable instead
    → All IsPrintable rest
    → All IsPrintable (if is_unprintable c then instead else c ∷ rest)
kept_or c instead rest p q = elim (Bool-cases (is_unprintable c)) [
  | inl bad ↦ rw bad p
  | inr good ↦ rw good (printable c good, q)
]

escaped-IsPrintable :
    (c : ℕ) (rest : List ℕ) → All IsPrintable rest → All IsPrintable (escaped c rest)
escaped-IsPrintable c rest p =
    ((omega arith, omega arith), (value_to_hex1-IsPrintable c, (value_to_hex0-IsPrintable c, p)))

string_with_escape_codes-IsPrintable : (s : List ℕ) → All IsPrintable (string_with_escape_codes s)
unfolding string_with_escape_codes
string_with_escape_codes-IsPrintable [] = tt
string_with_escape_codes-IsPrintable (c ∷ rest) =
    let more = string_with_escape_codes-IsPrintable rest in
    kept_or c (escaped c (string_with_escape_codes rest)) _ (escaped-IsPrintable c _ more) more

sanitize_from-IsPrintable :
    (unprintable space : Bool) (s : List ℕ) → All IsPrintable (sanitize_from unprintable space s)
unfolding sanitize_from
sanitize_from-IsPrintable unprintable space [] = tt
sanitize_from-IsPrintable unprintable space (c ∷ rest) =
    let blank = sanitize_from-IsPrintable unprintable true rest in
    let bad = sanitize_from-IsPrintable true false rest in
    let here : (ch : ℕ)
        → IsPrintable ch
        → (x : List ℕ) → All IsPrintable x
        → All IsPrintable (ch ∷ x) =
      λ ch p x q. (p, q) in
    kept_or c _ (sanitize_from false false rest)
      (either (is_line_space c) _ _
        (either (not space && not unprintable) _ _ (here b' ' (omega arith, omega arith) _ blank)
          blank)
        (either unprintable _ _ bad (here b'*' (omega arith, omega arith) _ bad)))
      (sanitize_from-IsPrintable false false rest)

escape_from-IsPrintable : (space : Bool) (s : List ℕ) → All IsPrintable (escape_from space s)
unfolding escape_from
escape_from-IsPrintable space [] = tt
escape_from-IsPrintable space (c ∷ rest) =
    let blank = escape_from-IsPrintable true rest in
    let other = escape_from-IsPrintable false rest in
    let here : (ch : ℕ)
        → IsPrintable ch
        → (x : List ℕ) → All IsPrintable x
        → All IsPrintable (ch ∷ x) =
      λ ch p x q. (p, q) in
    kept_or c _ (escape_from false rest)
      (either (is_line_space c) _ _
        (either space _ _ blank (here b' ' (omega arith, omega arith) _ blank))
        (escaped-IsPrintable c _ other))
      other

outside_tags-IsPrintable :
    (in_tag : Bool) (s : List ℕ) → All IsPrintable s → All IsPrintable (outside_tags in_tag s)
unfolding outside_tags
outside_tags-IsPrintable in_tag [] p = tt
outside_tags-IsPrintable in_tag (c ∷ rest) p =
    let here : (x : List ℕ) → All IsPrintable x → All IsPrintable (c ∷ x) = λ x q. (p.0, q) in
    let outside = outside_tags-IsPrintable false rest p.1 in
    either (c == b'>') _ _ outside
      (either (in_tag || c == b'<') _ _ (outside_tags-IsPrintable true rest p.1) (here _ outside))

skip_spaces-IsPrintable : (s : List ℕ) → All IsPrintable s → All IsPrintable (skip_spaces s)
unfolding skip_spaces
skip_spaces-IsPrintable [] p = tt
skip_spaces-IsPrintable (c ∷ rest) p =
    either (is_space c) (skip_spaces rest) (c ∷ rest) (skip_spaces-IsPrintable rest p.1) p

skip_spaces-StartsClean : (s : List ℕ) → StartsClean (skip_spaces s)
unfolding skip_spaces
skip_spaces-StartsClean [] = tt
skip_spaces-StartsClean (c ∷ rest) = elim (Bool-cases (is_space c)) [
  | inl space ↦ rw space (skip_spaces-StartsClean rest)
  | inr other ↦ rw other other
]

skip_spaces-append :
    (xs : List ℕ) (c : ℕ)
    → is_space c ≡ false
    → skip_spaces (xs ++ (c ∷ [])) ≡ skip_spaces xs ++ (c ∷ [])
unfolding skip_spaces
skip_spaces-append [] c e = rw e refl
skip_spaces-append (x ∷ xs) c e = elim (Bool-cases (is_space x)) [
  | inl space ↦ rw space (skip_spaces-append xs c e)
  | inr other ↦ rw other refl
]

All-reverse : (s : List ℕ) → All IsPrintable s → All IsPrintable (reverse s)
All-reverse [] p = tt
All-reverse (c ∷ rest) p =
    subst (All IsPrintable) (sym (reverse-cons c rest))
      (All-append IsPrintable (reverse rest) (c ∷ []) (All-reverse rest p.1) (p.0, tt))

-- Spaces that are taken off the end leave the front as it is.
trim_front : (s : List ℕ) → StartsClean s → StartsClean (reverse (skip_spaces (reverse s)))
unfolding skip_spaces
trim_front [] e = tt
trim_front (c ∷ rest) e =
    let same : reverse (skip_spaces (reverse (c ∷ rest)))
        ≡ c ∷ reverse (skip_spaces (reverse rest)) =
      ap (λ x. reverse (skip_spaces x)) (reverse-cons c rest)
      ∙ ap reverse (skip_spaces-append (reverse rest) c e)
      ∙ reverse-append (skip_spaces (reverse rest)) (c ∷ []) in
    subst StartsClean (sym same) e

trim_spaces-IsClean : (s : List ℕ) → All IsPrintable s → IsClean (trim_spaces s)
unfolding trim_spaces
trim_spaces-IsClean s p =
    let kept = skip_spaces s in
    record {
      printable =
          All-reverse (skip_spaces (reverse kept)) (
            skip_spaces-IsPrintable (reverse kept)
              (All-reverse kept (skip_spaces-IsPrintable s p)));
      front = trim_front kept (skip_spaces-StartsClean s);
      back =
          subst StartsClean (sym (reverse-reverse (skip_spaces (reverse kept))))
            (skip_spaces-StartsClean (reverse kept));
    }

with_tags-IsClean : (s : List ℕ) → IsClean (sanitize_string_with_tags s)
unfolding sanitize_string sanitize_string_with_tags
with_tags-IsClean s =
    let clean = trim_spaces-IsClean _ (sanitize_from-IsPrintable false false s) in
    let outside = trim_spaces-IsClean _ (outside_tags-IsPrintable false _ clean.printable) in
    whichever _ _ outside (trim_spaces-IsClean _ clean.printable)
  where
    whichever :
        (x y : List ℕ)
        → IsClean x
        → IsClean y
        → IsClean (elim x as (λ z. List ℕ) [ [] ↦ y | c ∷ rest ↦ c ∷ rest ])
    whichever [] y p q = q
    whichever (c ∷ rest) y p q = p

-- Whatever the bytes of a string, the three functions that sanitize it return printable characters only, without a
-- space in front or at the end, and string_with_escape_codes returns printable characters only.
pub sanitize_string-IsClean :
    (s : List ℕ)
    → IsClean (sanitize_string s)
      × IsClean (sanitize_string_with_escape_codes s)
      × IsClean (sanitize_string_with_tags s)
      × All IsPrintable (string_with_escape_codes s)
unfolding sanitize_string sanitize_string_with_escape_codes
sanitize_string-IsClean s = (
  trim_spaces-IsClean _ (sanitize_from-IsPrintable false false s),
  trim_spaces-IsClean _ (escape_from-IsPrintable false s),
  with_tags-IsClean s,
  string_with_escape_codes-IsPrintable s,
)
