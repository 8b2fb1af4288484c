-- ===== src/Bencode/Normal.antt =====
-- The objects that object_write_bencode_c of src/torrent/object_stream.cc encodes and object_read_bencode_c
-- gives back, and their encoding.

use libtorrent.Common.{
  negsuc, pos, suc, ◌≡◌, ◌≤◌, List, [], ap, arith, false, length, max, ok, refl, take, ℕ, ◌%◌, ◌++◌,
  ◌+◌, ◌==◌, ◌^◌, ◌∷◌, ◌<◌,
}
use libtorrent.Object.{
  Object, object, Value, none, raw_bencode, raw_string, raw_list, raw_map, value, string, list, map,
  dict_key, Items, nil, cons, Entries, end, entry, is_empty, flags,
}
use libtorrent.Object.Keys.{IsOrdered}
use libtorrent.Bencode.{int64_max}
use libtorrent.Bencode.Numbers.{print_nat-cons}
use libtorrent.Bencode.Writer.{
  print_value, print_string, encode, encode_items, encode_entries, skipped,
}

-- What a C++ program encodes and can read back: no flags, no empty or raw part, integers whose
-- magnitude is at most 2 ^ 63 - 1, strings shorter than 2 ^ 32, and maps whose keys ascend, as a `std::map` keeps them.
abbrev mutual
  pub IsNormal : Object → Type 0
  IsNormal (object f v) = (f ≡ 0) × IsNormalValue v

  pub IsNormalValue : Value → Type 0
  IsNormalValue none = ⊥
  IsNormalValue (raw_bencode s) = ⊥
  IsNormalValue (raw_string s) = ⊥
  IsNormalValue (raw_list s) = ⊥
  IsNormalValue (raw_map s) = ⊥
  IsNormalValue (value (pos n)) = n ≤ int64_max
  IsNormalValue (value (negsuc n)) = suc n ≤ int64_max
  IsNormalValue (string s) = length s < 2 ^ 32
  IsNormalValue (list xs) = AreNormal xs
  IsNormalValue (map es) = IsOrdered es × AreNormalEntries es
  IsNormalValue dict_key = ⊥

  pub AreNormal : Items → Type 0
  AreNormal nil = Unit {0}
  AreNormal (cons o xs) = IsNormal o × AreNormal xs

  pub AreNormalEntries : Entries → Type 0
  AreNormalEntries end = Unit {0}
  AreNormalEntries (entry k o es) = IsNormal o × AreNormalEntries es × (length k < 2 ^ 32)

-- The encoding as a plain function, and the sizes that bound the reader's recursion.
unfoldable mutual
  pub plain : Object → List ℕ
  plain (object f v) = plain_value v

  pub plain_value : Value → List ℕ
  plain_value none = []
  plain_value (raw_bencode s) = []
  plain_value (raw_string s) = []
  plain_value (raw_list s) = []
  plain_value (raw_map s) = []
  plain_value (value n) = b'i' ∷ (print_value n ++ b'e' ∷ [])
  plain_value (string s) = print_string s
  plain_value (list xs) = b'l' ∷ plain_items xs
  plain_value (map es) = b'd' ∷ plain_entries es
  plain_value dict_key = []

  pub plain_items : Items → List ℕ
  plain_items nil = b'e' ∷ []
  plain_items (cons o xs) = plain o ++ plain_items xs

  pub plain_entries : Entries → List ℕ
  plain_entries end = b'e' ∷ []
  plain_entries (entry k o es) = (print_string k ++ plain o) ++ plain_entries es

-- How deep lists and maps are nested.
unfoldable mutual
  pub height : Object → ℕ
  height (object f v) = height_value v

  pub height_value : Value → ℕ
  height_value (list xs) = suc (height_items xs)
  height_value (map es) = suc (height_entries es)
  height_value none = 0
  height_value (raw_bencode s) = 0
  height_value (raw_string s) = 0
  height_value (raw_list s) = 0
  height_value (raw_map s) = 0
  height_value (value n) = 0
  height_value (string s) = 0
  height_value dict_key = 0

  pub height_items : Items → ℕ
  height_items nil = 0
  height_items (cons o xs) = max (height o) (height_items xs)

  pub height_entries : Entries → ℕ
  height_entries end = 0
  height_entries (entry k o es) = max (height o) (height_entries es)

-- The rounds of fuel that reading the encoding takes.
unfoldable mutual
  pub cost : Object → ℕ
  cost (object f v) = suc (cost_value v)

  pub cost_value : Value → ℕ
  cost_value (list xs) = cost_items xs
  cost_value (map es) = cost_entries es
  cost_value none = 0
  cost_value (raw_bencode s) = 0
  cost_value (raw_string s) = 0
  cost_value (raw_list s) = 0
  cost_value (raw_map s) = 0
  cost_value (value n) = 0
  cost_value (string s) = 0
  cost_value dict_key = 0

  pub cost_items : Items → ℕ
  cost_items nil = 1
  cost_items (cons o xs) = suc (cost o + cost_items xs)

  pub cost_entries : Entries → ℕ
  cost_entries end = 1
  cost_entries (entry k o es) = suc (cost o + cost_entries es)

pub print_string-cons :
    (s : List ℕ) → (c : ℕ) × (cs : List ℕ) × (print_string s ≡ c ∷ cs) × (b'0' ≤ c) × (c ≤ b'9')
unfolding print_string
print_string-cons s =
    let (c, cs, e, lo, hi, _) = print_nat-cons (length s % 2 ^ 32) (omega arith) in
    (
      c,
      cs ++ (b':' ∷ take (length s % 2 ^ 32) s),
      ap (λ t. t ++ (b':' ∷ take (length s % 2 ^ 32) s)) e,
      lo,
      hi,
    )

-- The first byte of an encoding is never the one that ends a list or a map.
pub plain-cons :
    (o : Object) → IsNormal o → (c : ℕ) × (cs : List ℕ) × (plain o ≡ c ∷ cs) × ((c == b'e') ≡ false)
unfolding plain
plain-cons (object f none) h = absurd h.1
plain-cons (object f (raw_bencode s)) h = absurd h.1
plain-cons (object f (raw_string s)) h = absurd h.1
plain-cons (object f (raw_list s)) h = absurd h.1
plain-cons (object f (raw_map s)) h = absurd h.1
plain-cons (object f (value n)) h = (b'i', _, refl, refl)
plain-cons (object f (string s)) h =
    let (c, cs, e, lo, hi) = print_string-cons s in (c, cs, e, ground arith)
plain-cons (object f (list xs)) h = (b'l', _, refl, refl)
plain-cons (object f (map es)) h = (b'd', _, refl, refl)
plain-cons (object f dict_key) h = absurd h.1

pub skipped-normal : (o : Object) → IsNormal o → skipped 0 o ≡ false
unfolding skipped is_empty flags
skipped-normal (object f none) h = absurd h.1
skipped-normal (object f (raw_bencode s)) h = absurd h.1
skipped-normal (object f (raw_string s)) h = absurd h.1
skipped-normal (object f (raw_list s)) h = absurd h.1
skipped-normal (object f (raw_map s)) h = absurd h.1
skipped-normal (object f (value n)) h = rw (h.0) refl
skipped-normal (object f (string s)) h = rw (h.0) refl
skipped-normal (object f (list xs)) h = rw (h.0) refl
skipped-normal (object f (map es)) h = rw (h.0) refl
skipped-normal (object f dict_key) h = absurd h.1

-- On a normal object the encoder succeeds, and writes the plain encoding.
mutual
  unfolding encode plain

  pub encode-plain : (o : Object) → IsNormal o → encode 0 o ≡ ok (plain o)
  encode-plain (object f none) h = absurd h.1
  encode-plain (object f (raw_bencode s)) h = absurd h.1
  encode-plain (object f (raw_string s)) h = absurd h.1
  encode-plain (object f (raw_list s)) h = absurd h.1
  encode-plain (object f (raw_map s)) h = absurd h.1
  encode-plain (object f (value n)) h = refl
  encode-plain (object f (string s)) h = refl
  encode-plain (object f (list xs)) h = rw (encode_items-plain xs h.1) refl
  encode-plain (object f (map es)) h = rw (encode_entries-plain es h.1.1) refl
  encode-plain (object f dict_key) h = absurd h.1

  pub encode_items-plain : (xs : Items) → AreNormal xs → encode_items 0 xs ≡ ok (plain_items xs)
  encode_items-plain nil h = refl
  encode_items-plain (cons o xs) h =
      rw (skipped-normal o h.0, encode-plain o h.0, encode_items-plain xs h.1) refl

  pub encode_entries-plain :
      (es : Entries) → AreNormalEntries es → encode_entries 0 es ≡ ok (plain_entries es)
  encode_entries-plain end h = refl
  encode_entries-plain (entry k o es) h =
      rw (skipped-normal o h.0, encode-plain o h.0, encode_entries-plain es h.1) refl
