-- ===== src/StringManip/Utf8.antt =====
-- What `is_valid_utf8` of src/torrent/utils/string_manip.cc accepts.
use libtorrent.Common.{
  ℕ, zero, suc, ◌≤◌, ◌<◌, List, [], ◌∷◌, Bool, true, false, ◌&&◌, if◌then◌else◌, ltb, leb, ◌==◌,
  ◌≡◌, ◌↔◌, refl, sym, arith, bit_and, All, IsByte, ◌∙◌,
}
use libtorrent.Bitfield.Bytes.{tried, tried_lem, eqb, eqb→eq}
use libtorrent.StringManip.{bytes_after, valid_from, is_valid_utf8}

abbrev pub IsContinuation : ℕ → Type 0
IsContinuation b = (0x80 ≤ b) × (b < 0xc0)

-- Sequences of one to four bytes, by the ranges of their leading bytes.
pub data IsUtf8 : List ℕ → Type 0 where
  no_more : IsUtf8 []
  one : (a : ℕ) (rest : List ℕ) → a < 0x80 → IsUtf8 rest → IsUtf8 (a ∷ rest)
  two :
      (a b : ℕ) (rest : List ℕ)
      → 0xc0 ≤ a
      → a < 0xe0
      → IsContinuation b
      → IsUtf8 rest
      → IsUtf8 (a ∷ b ∷ rest)
  three :
      (a b c : ℕ) (rest : List ℕ)
      → 0xe0 ≤ a
      → a < 0xf0
      → IsContinuation b
      → IsContinuation c
      → IsUtf8 rest
      → IsUtf8 (a ∷ b ∷ c ∷ rest)
  four :
      (a b c d : ℕ) (rest : List ℕ)
      → 0xf0 ≤ a
      → a < 0xf8
      → IsContinuation b
      → IsContinuation c
      → IsContinuation d
      → IsUtf8 rest
      → IsUtf8 (a ∷ b ∷ c ∷ d ∷ rest)

-- The leading bytes by range.
after : ℕ → ℕ
after c =
    if ltb c 0x80
    then 0
    else if ltb c 0xc0
    then 4
    else if ltb c 0xe0
    then 1
    else if ltb c 0xf0
    then 2
    else if ltb c 0xf8
    then 3
    else 4

bytes_after-after : (c : ℕ) → c < 256 → bytes_after c ≡ after c
unfolding tried bytes_after after
bytes_after-after c lt = ground (arith, tried_lem 256 (λ c. bytes_after c == after c) c refl lt)

continues : (c : ℕ) → c < 256 → (bit_and c 0xc0 == 0x80) ≡ leb 0x80 c && ltb c 0xc0
unfolding tried eqb
continues c lt =
    eqb→eq _ _
      (tried_lem 256 (λ c. eqb (bit_and c 0xc0 == 0x80) (leb 0x80 c && ltb c 0xc0)) c refl lt)

-- `n` continuation bytes and then whole sequences.
Follows : ℕ → List ℕ → Type 0
Follows zero s = IsUtf8 s
Follows (suc n) [] = ⊥
Follows (suc n) (b ∷ rest) = IsContinuation b × Follows n rest

lead :
    (n a : ℕ) (rest : List ℕ) → after a ≡ n → (n == 4) ≡ false → Follows n rest → IsUtf8 (a ∷ rest)
unfolding after Follows
lead zero a rest e short f = IsUtf8.one a rest (ground (arith, e)) f
lead (suc n) a [] e short f = absurd f
lead (suc zero) a (b ∷ rest) e short f =
    IsUtf8.two a b rest (ground (arith, e)) (ground (arith, e)) f.0 f.1
lead (suc (suc n)) a (b ∷ []) e short f = absurd f.1
lead (suc (suc zero)) a (b ∷ c ∷ rest) e short f =
    IsUtf8.three a b c rest (ground (arith, e)) (ground (arith, e)) f.0 f.1.0 f.1.1
lead (suc (suc (suc n))) a (b ∷ c ∷ []) e short f = absurd f.1.1
lead (suc (suc (suc zero))) a (b ∷ c ∷ d ∷ rest) e short f =
    IsUtf8.four a b c d rest (ground (arith, e)) (ground (arith, e)) f.0 f.1.0 f.1.1.0 f.1.1.1
lead (suc (suc (suc (suc n)))) a (b ∷ c ∷ d ∷ rest) e short f = absurd (ground (arith, e, short))

if_not : (b x : Bool) → (if b then false else x) ≡ true → (b ≡ false) × (x ≡ true)
if_not true x e = cc
if_not false x e = (refl, e)

if_so : (b x : Bool) → (if b then x else false) ≡ true → (b ≡ true) × (x ≡ true)
if_so true x e = (refl, e)
if_so false x e = cc

in_range : (c : ℕ) → c < 256 → (bit_and c 0xc0 == 0x80) ≡ true → IsContinuation c
in_range c lt e = let is = sym (continues c lt) ∙ e in (ground (arith, is), ground (arith, is))

out_range : (c : ℕ) → c < 256 → IsContinuation c → (bit_and c 0xc0 == 0x80) ≡ true
out_range c lt r = continues c lt ∙ ground (arith, r)

valid_from-Follows : (n : ℕ) (s : List ℕ) → All IsByte s → valid_from n s ≡ true → Follows n s
unfolding valid_from Follows
valid_from-Follows zero [] bytes valid = IsUtf8.no_more
valid_from-Follows zero (a ∷ rest) bytes valid =
    let (short, more) = if_not (bytes_after a == 4) (valid_from (bytes_after a) rest) valid in
    lead (bytes_after a) a rest (sym (bytes_after-after a bytes.0)) short
      (valid_from-Follows (bytes_after a) rest bytes.1 more)
valid_from-Follows (suc n) [] bytes valid = cc
valid_from-Follows (suc n) (b ∷ rest) bytes valid =
    let (is, more) = if_so (bit_and b 0xc0 == 0x80) (valid_from n rest) valid in
    (in_range b bytes.0 is, valid_from-Follows n rest bytes.1 more)

starts :
    (n a : ℕ) (rest : List ℕ)
    → a < 256
    → after a ≡ n
    → (n == 4) ≡ false
    → valid_from n rest ≡ true
    → valid_from 0 (a ∷ rest) ≡ true
unfolding valid_from
starts n a rest byte e short more =
    let is : bytes_after a ≡ n = bytes_after-after a byte ∙ e in rw is (rw short more)

carries_on :
    (n b : ℕ) (rest : List ℕ)
    → IsContinuation b
    → valid_from n rest ≡ true
    → valid_from (suc n) (b ∷ rest) ≡ true
unfolding valid_from
carries_on n b rest r more = rw (out_range b (omega (arith, r.1)) r) more

IsUtf8-valid_from : {s : List ℕ} → IsUtf8 s → valid_from 0 s ≡ true
unfolding valid_from after
IsUtf8-valid_from IsUtf8.no_more = refl
IsUtf8-valid_from (IsUtf8.one a rest lt u) =
    starts 0 a rest (omega (arith, lt)) (ground (arith, lt)) refl (IsUtf8-valid_from u)
IsUtf8-valid_from (IsUtf8.two a b rest lo hi rb u) =
    starts 1 a (b ∷ rest) (omega (arith, hi)) (ground (arith, lo, hi)) refl
      (carries_on 0 b rest rb (IsUtf8-valid_from u))
IsUtf8-valid_from (IsUtf8.three a b c rest lo hi rb rc u) =
    starts 2 a (b ∷ c ∷ rest) (omega (arith, hi)) (ground (arith, lo, hi)) refl
      (carries_on 1 b (c ∷ rest) rb (carries_on 0 c rest rc (IsUtf8-valid_from u)))
IsUtf8-valid_from (IsUtf8.four a b c d rest lo hi rb rc rd u) =
    starts 3 a (b ∷ c ∷ d ∷ rest) (omega (arith, hi)) (ground (arith, lo, hi)) refl (
      carries_on 2 b (c ∷ d ∷ rest) rb
        (carries_on 1 c (d ∷ rest) rc (carries_on 0 d rest rd (IsUtf8-valid_from u))))

-- On bytes, `is_valid_utf8` accepts exactly the strings that are sequences of one to four bytes, each with a
-- leading byte from the range for its length and continuation bytes after it.
pub is_valid_utf8-IsUtf8 : (s : List ℕ) → All IsByte s → (is_valid_utf8 s ≡ true) ↔ IsUtf8 s
unfolding is_valid_utf8 Follows
is_valid_utf8-IsUtf8 s bytes = (valid_from-Follows 0 s bytes, IsUtf8-valid_from)
