-- ===== src/Bencode/Reading.antt =====
-- Single steps of object_read_bencode_c of src/torrent/object_stream.cc on an encoding.
use mathlib.Core.List.{append_assoc, append-nil}
use libtorrent.Common.{
  negsuc, pos, suc, ◌≡◌, ◌≤◌, List, [], ap, arith, false, length, ok, refl, take, ℕ, ◌%◌, ◌++◌, ◌+◌,
  ◌==◌, ◌^◌, ◌∷◌, sym, ℤ, ◌<◌, ◌∙◌, leb, length-append, take-append_length,
}
use libtorrent.Object.{
  Object, object, value, string, list, map, Items, nil, cons, Entries, end, entry, flags, key_le,
  insert_key,
}
use libtorrent.Object.Keys.{
  IsOrdered, append_entries, KeysBelow, append_entries_assoc, Ascending, KeysBelow-next,
  key_lt-asymm,
}
use libtorrent.Bencode.{
  read_object, snoc, inherit, order_flag, read_string, expect_end, read_items, is_digit,
  read_entries,
}
use libtorrent.Bencode.Numbers.{
  read_string-print_string, read_value-print_value, read_value-print_negative,
}
use libtorrent.Bencode.Writer.{print_value, print_string, print_nat}
use libtorrent.Bencode.Normal.{IsNormal, IsNormalValue, print_string-cons}

pub string_case :
    (fuel depth : ℕ) (s rest : List ℕ)
    → length s + 1 + length rest < 2 ^ 32
    → read_object (suc fuel) (print_string s ++ rest) depth ≡ ok (object 0 (string s), rest)
string_case fuel depth s rest h =
    let (c, cs, e, lo, hi) = print_string-cons s in
    let whole = ap (λ t. read_string (t ++ rest)) (sym e) ∙ read_string-print_string s rest h in
    ap (λ t. read_object (suc fuel) (t ++ rest) depth) e ∙ at_digit c (cs ++ rest) lo hi whole
  where
    at_digit :
        (c : ℕ) (cs : List ℕ)
        → b'0' ≤ c
        → c ≤ b'9'
        → read_string (c ∷ cs) ≡ ok (s, rest)
        → read_object (suc fuel) (c ∷ cs) depth ≡ ok (object 0 (string s), rest)
    at_digit c cs lo hi e = unfold read_object is_digit in ground arith

pub value_case :
    (fuel depth : ℕ) (n : ℤ) (rest : List ℕ)
    → IsNormalValue (value n)
    → read_object (suc fuel) ((b'i' ∷ (print_value n ++ b'e' ∷ [])) ++ rest) depth
      ≡ ok (object 0 (value n), rest)
unfolding read_object expect_end
value_case fuel depth (pos n) rest h =
    rw (append_assoc (print_value (pos n)) (b'e' ∷ []) rest, read_value-print_value n rest h) refl
value_case fuel depth (negsuc n) rest h =
    rw (append_assoc (print_value (negsuc n)) (b'e' ∷ []) rest, read_value-print_negative n rest h)
      refl

-- One round of the loop over a list's items.
pub items_step :
    (fuel depth : ℕ) (acc : Items) (t left : List ℕ) (o : Object) (c : ℕ) (cs : List ℕ)
    → t ≡ c ∷ cs
    → (c == b'e') ≡ false
    → read_object fuel t depth ≡ ok (o, left)
    → read_items (suc fuel) t depth 0 acc ≡ read_items fuel left depth (inherit 0 o) (snoc acc o)
unfolding read_object
items_step fuel depth acc t left o c cs e ne r =
    ap (λ t. read_items (suc fuel) t depth 0 acc) e
    ∙ rw (ne, (sym (ap (λ t. read_object fuel t depth) e) ∙ r)) refl

pub entries_step :
    (fuel depth : ℕ) (prev : List ℕ) (acc : Entries) (t left left' str : List ℕ) (o : Object)
    (c : ℕ) (cs : List ℕ)
    → t ≡ c ∷ cs
    → (c == b'e') ≡ false
    → read_string t ≡ ok (str, left)
    → read_object fuel left depth ≡ ok (o, left')
    → read_entries (suc fuel) t depth 0 prev acc
      ≡ read_entries fuel left' depth
          (inherit (order_flag 0 str prev acc) o)
          str
          (insert_key str o acc)
unfolding read_object
entries_step fuel depth prev acc t left left' str o c cs e ne s r =
    ap (λ t. read_entries (suc fuel) t depth 0 prev acc) e
    ∙ rw (ne, (sym (ap read_string e) ∙ s), r) refl

unfoldable pub append_items : Items → Items → Items
append_items nil ys = ys
append_items (cons x xs) ys = cons x (append_items xs ys)

pub append_items-nil : (xs : Items) → append_items xs nil ≡ xs
unfolding append_items
append_items-nil nil = refl
append_items-nil (cons x xs) = ap (cons x) (append_items-nil xs)

pub append_items-snoc :
    (xs : Items) (o : Object) (ys : Items)
    → append_items (snoc xs o) ys ≡ append_items xs (cons o ys)
unfolding append_items snoc
append_items-snoc nil o ys = refl
append_items-snoc (cons x xs) o ys = ap (cons x) (append_items-snoc xs o ys)

pub append_entries-end : (es : Entries) → append_entries es end ≡ es
unfolding append_entries
append_entries-end end = refl
append_entries-end (entry k o es) = ap (entry k o) (append_entries-end es)

pub append_entries-middle :
    (es : Entries) (k : List ℕ) (o : Object) (fs : Entries)
    → append_entries (append_entries es (entry k o end)) fs ≡ append_entries es (entry k o fs)
append_entries-middle es k o fs =
    append_entries_assoc es (entry k o end) fs
    ∙ ap (append_entries es) (unfold append_entries in refl)

pub inherit-normal : (o : Object) → IsNormal o → inherit 0 o ≡ 0
unfolding inherit flags
inherit-normal (object f v) h = rw (h.0) refl

-- The next key keeps the map ordered and sets no flag.
abbrev pub Ready : List ℕ → Entries → Entries → Type 0
Ready prev acc end = Unit {0}
Ready prev acc (entry k o es) = KeysBelow k acc × (order_flag 0 k prev acc ≡ 0) × Ascending k es

pub Ready-first : (es : Entries) → IsOrdered es → Ready [] end es
Ready-first end h = tt
Ready-first (entry k o es) h = (tt, (unfold order_flag key_le in ground arith), h)

pub Ready-next :
    (k : List ℕ) (o : Object) (acc es : Entries)
    → KeysBelow k acc
    → Ascending k es
    → Ready k (append_entries acc (entry k o end)) es
Ready-next k o acc end b h = tt
Ready-next k o acc (entry l p es) b h = (
  KeysBelow-next k l o acc h.0 b,
  (unfold order_flag in ground (arith, key_lt-asymm k l h.0)),
  h.1,
)

pub length-print_string_le :
    (s : List ℕ) → length s < 2 ^ 32 → length s + 1 ≤ length (print_string s)
unfolding print_string
length-print_string_le s h =
    let n : length s % 2 ^ 32 ≡ length s = omega arith in
    let whole : take (length s) s ≡ s =
      ap (take (length s)) (sym (append-nil s)) ∙ take-append_length s [] in
    rw (n, whole) (omega (arith, length-append (print_nat (length s)) (b':' ∷ s)))

pub list_head :
    (fuel depth : ℕ) (t : List ℕ)
    → leb 1024 (depth + 1) ≡ false
    → read_object (suc fuel) (b'l' ∷ t) depth ≡ read_items fuel t (depth + 1) 0 nil
unfolding read_object
list_head fuel depth t h = rw h refl

pub map_head :
    (fuel depth : ℕ) (t : List ℕ)
    → leb 1024 (depth + 1) ≡ false
    → read_object (suc fuel) (b'd' ∷ t) depth ≡ read_entries fuel t (depth + 1) 0 [] end
unfolding read_object
map_head fuel depth t h = rw h refl

pub append_items-start : (xs : Items) → append_items nil xs ≡ xs
unfolding append_items
append_items-start xs = refl

pub append_entries-start : (es : Entries) → append_entries end es ≡ es
unfolding append_entries
append_entries-start es = refl

pub items_end :
    (fuel depth : ℕ) (rest : List ℕ) (acc : Items)
    → read_items (suc fuel) (b'e' ∷ rest) depth 0 acc ≡ ok (object 0 (list acc), rest)
unfolding read_object
items_end fuel depth rest acc = refl

pub entries_end :
    (fuel depth : ℕ) (prev rest : List ℕ) (acc : Entries)
    → read_entries (suc fuel) (b'e' ∷ rest) depth 0 prev acc ≡ ok (object 0 (map acc), rest)
unfolding read_object
entries_end fuel depth prev rest acc = refl

pub below : (d h : ℕ) → d + suc h ≤ 1023 → leb 1024 (d + 1) ≡ false
below d h p = ground arith
