-- ===== src/Bencode/RoundTrip.antt =====
-- Encoding and then reading gives the object back.
use mathlib.Core.List.{append_assoc}
use libtorrent.Common.{
  suc, ◌≡◌, ◌≤◌, List, [], ap, arith, length, ok, refl, ℕ, ◌++◌, ◌+◌, ◌^◌, ◌∷◌, ◌<◌, ◌∙◌,
  length-append, zero, ◌*◌,
}
use libtorrent.Object.{
  Object, object, none, raw_bencode, raw_string, raw_list, raw_map, value, string, list, map,
  dict_key, Items, nil, cons, Entries, end, entry, insert_key,
}
use libtorrent.Object.Keys.{append_entries, insert_key-last}
use libtorrent.Bencode.{
  read_object, snoc, inherit, read_items, read_entries, read_bencode, enough_fuel,
}
use libtorrent.Bencode.Numbers.{read_string-print_string}
use libtorrent.Bencode.Writer.{print_value, print_string, encode}
use libtorrent.Bencode.Normal.{
  IsNormal, AreNormal, AreNormalEntries, plain, plain_items, plain_entries, height, height_items,
  height_entries, cost, cost_items, cost_entries, print_string-cons, plain-cons, encode-plain,
}
use libtorrent.Bencode.Reading.{
  string_case, value_case, items_step, entries_step, append_items, append_items-nil,
  append_items-snoc, append_entries-end, append_entries-middle, inherit-normal, Ready, Ready-first,
  Ready-next, length-print_string_le, list_head, map_head, append_items-start, append_entries-start,
  items_end, entries_end, below,
}

-- Reading an encoding, whatever follows it.
mutual
  unfolding plain height cost

  read-plain :
      (o : Object) (fuel depth : ℕ) (rest : List ℕ)
      → IsNormal o
      → cost o ≤ fuel
      → depth + height o ≤ 1023
      → length (plain o) + length rest < 2 ^ 32
      → read_object fuel (plain o ++ rest) depth ≡ ok (o, rest)
  read-plain (object f v) zero depth rest h c d l = absurd (omega arith)
  read-plain (object f none) (suc fuel) depth rest h c d l = absurd h.1
  read-plain (object f (raw_bencode s)) (suc fuel) depth rest h c d l = absurd h.1
  read-plain (object f (raw_string s)) (suc fuel) depth rest h c d l = absurd h.1
  read-plain (object f (raw_list s)) (suc fuel) depth rest h c d l = absurd h.1
  read-plain (object f (raw_map s)) (suc fuel) depth rest h c d l = absurd h.1
  read-plain (object f (value n)) (suc fuel) depth rest h c d l =
      value_case fuel depth n rest h.1 ∙ rw h.0 refl
  read-plain (object f (string s)) (suc fuel) depth rest h c d l =
      string_case fuel depth s rest (omega (arith, length-print_string_le s h.1, l)) ∙ rw h.0 refl
  read-plain (object f (list xs)) (suc fuel) depth rest h c d l =
      list_head fuel depth (plain_items xs ++ rest) (below depth (height_items xs) d)
      ∙ read_items-plain xs fuel (depth + 1) nil rest h.1 (omega arith) (omega arith) (omega arith)
      ∙ rw (h.0, append_items-start xs) refl
  read-plain (object f (map es)) (suc fuel) depth rest h c d l =
      map_head fuel depth (plain_entries es ++ rest) (below depth (height_entries es) d)
      ∙ read_entries-plain es fuel (depth + 1) [] end rest h.1.1 (Ready-first es h.1.0)
          (omega arith) (omega arith) (omega arith)
      ∙ rw (h.0, append_entries-start es) refl
  read-plain (object f dict_key) (suc fuel) depth rest h c d l = absurd h.1

  read_items-plain :
      (xs : Items) (fuel depth : ℕ) (acc : Items) (rest : List ℕ)
      → AreNormal xs
      → cost_items xs ≤ fuel
      → depth + height_items xs ≤ 1023
      → length (plain_items xs) + length rest < 2 ^ 32
      → read_items fuel (plain_items xs ++ rest) depth 0 acc
        ≡ ok (object 0 (list (append_items acc xs)), rest)
  read_items-plain nil zero depth acc rest h c d l = absurd (omega arith)
  read_items-plain nil (suc fuel) depth acc rest h c d l =
      rw (append_items-nil acc) (items_end fuel depth rest acc)
  read_items-plain (cons o xs) zero depth acc rest h c d l = absurd (omega arith)
  read_items-plain (cons o xs) (suc fuel) depth acc rest h c d l =
      let (b, bs, e, ne) = plain-cons o h.0 in
      let tail = plain_items xs ++ rest in
      let split = append_assoc (plain o) (plain_items xs) rest in
      let size = length-append (plain o) (plain_items xs) in
      let size' = length-append (plain_items xs) rest in
      let here =
        read-plain o fuel depth tail h.0 (omega arith) (omega arith) (omega (arith, size, size')) in
      ap (λ t. read_items (suc fuel) t depth 0 acc) split
      ∙ items_step fuel depth acc (plain o ++ tail) tail o b (bs ++ tail) (ap (λ t. t ++ tail) e) ne
          here
      ∙ ap (λ f. read_items fuel tail depth f (snoc acc o)) (inherit-normal o h.0)
      ∙ read_items-plain xs fuel depth (snoc acc o) rest h.1 (omega arith) (omega arith)
          (omega (arith, size))
      ∙ ap (λ ys. ok (object 0 (list ys), rest)) (append_items-snoc acc o xs)

  read_entries-plain :
      (es : Entries) (fuel depth : ℕ) (prev : List ℕ) (acc : Entries) (rest : List ℕ)
      → AreNormalEntries es
      → Ready prev acc es
      → cost_entries es ≤ fuel
      → depth + height_entries es ≤ 1023
      → length (plain_entries es) + length rest < 2 ^ 32
      → read_entries fuel (plain_entries es ++ rest) depth 0 prev acc
        ≡ ok (object 0 (map (append_entries acc es)), rest)
  read_entries-plain end zero depth prev acc rest h r c d l = absurd (omega arith)
  read_entries-plain end (suc fuel) depth prev acc rest h r c d l =
      rw (append_entries-end acc) (entries_end fuel depth prev rest acc)
  read_entries-plain (entry k o es) zero depth prev acc rest h r c d l = absurd (omega arith)
  read_entries-plain (entry k o es) (suc fuel) depth prev acc rest h r c d l =
      let (b, bs, e, lo, hi) = print_string-cons k in
      let tail = plain_entries es ++ rest in
      let split =
        append_assoc (print_string k ++ plain o) (plain_entries es) rest
        ∙ append_assoc (print_string k) (plain o) tail in
      let size = length-append (print_string k ++ plain o) (plain_entries es) in
      let size' = length-append (print_string k) (plain o) in
      let size'' = length-append (plain_entries es) rest in
      let size''' = length-append (plain o) tail in
      let key =
        read_string-print_string k (plain o ++ tail)
          (omega (arith, length-print_string_le k h.2, size, size', size'', size''')) in
      let here =
        read-plain o fuel depth tail h.0 (omega arith) (omega arith)
          (omega (arith, size, size', size'')) in
      ap (λ t. read_entries (suc fuel) t depth 0 prev acc) split
      ∙ entries_step fuel depth prev acc (print_string k ++ (plain o ++ tail)) (plain o ++ tail)
          tail k o b (bs ++ (plain o ++ tail)) (ap (λ t. t ++ (plain o ++ tail)) e) (ground arith)
          key here
      ∙ ap (λ f. read_entries fuel tail depth (inherit f o) k (insert_key k o acc)) r.1
      ∙ ap (λ f. read_entries fuel tail depth f k (insert_key k o acc)) (inherit-normal o h.0)
      ∙ ap (λ m. read_entries fuel tail depth 0 k m) (insert_key-last k o acc r.0)
      ∙ read_entries-plain es fuel depth k (append_entries acc (entry k o end)) rest h.1
          (Ready-next k o acc es r.0 r.2) (omega arith) (omega arith) (omega (arith, size))
      ∙ ap (λ fs. ok (object 0 (map fs), rest)) (append_entries-middle acc k o es)

-- Twice the length of an encoding is more than its cost.
mutual
  unfolding plain cost

  cost-lt : (o : Object) → IsNormal o → cost o + 1 ≤ 2 * length (plain o)
  cost-lt (object f none) h = absurd h.1
  cost-lt (object f (raw_bencode s)) h = absurd h.1
  cost-lt (object f (raw_string s)) h = absurd h.1
  cost-lt (object f (raw_list s)) h = absurd h.1
  cost-lt (object f (raw_map s)) h = absurd h.1
  cost-lt (object f (value n)) h = omega (arith, length-append (print_value n) (b'e' ∷ []))
  cost-lt (object f (string s)) h = omega (arith, length-print_string_le s h.1)
  cost-lt (object f (list xs)) h = omega (arith, cost_items-le xs h.1)
  cost-lt (object f (map es)) h = omega (arith, cost_entries-le es h.1.1)
  cost-lt (object f dict_key) h = absurd h.1

  cost_items-le : (xs : Items) → AreNormal xs → cost_items xs ≤ 2 * length (plain_items xs)
  cost_items-le nil h = omega arith
  cost_items-le (cons o xs) h =
      omega (arith, cost-lt o h.0, cost_items-le xs h.1, length-append (plain o) (plain_items xs))

  cost_entries-le :
      (es : Entries) → AreNormalEntries es → cost_entries es ≤ 2 * length (plain_entries es)
  cost_entries-le end h = omega arith
  cost_entries-le (entry k o es) h = omega (
    arith,
    cost-lt o h.0,
    cost_entries-le es h.1,
    length-append (print_string k ++ plain o) (plain_entries es),
    length-append (print_string k) (plain o),
  )

-- Every normal object is encoded without an error, and reading the encoding, whatever bytes follow
-- it, gives back the same object and leaves exactly those bytes, if the nesting stays within the
-- reader's limit of 1023 and the whole input is shorter than 2 ^ 32.
pub read_bencode-encode :
    (o : Object) (depth : ℕ) (rest : List ℕ)
    → IsNormal o
    → depth + height o ≤ 1023
    → length (plain o) + length rest < 2 ^ 32
    → (bytes : List ℕ) × (encode 0 o ≡ ok bytes)
      × (read_bencode (bytes ++ rest) depth ≡ ok (o, rest))
unfolding read_bencode
read_bencode-encode o depth rest h d l = (
  plain o,
  encode-plain o h,
  read-plain o (enough_fuel (plain o ++ rest)) depth rest h
      (omega (arith, cost-lt o h, length-append (plain o) rest)) d l,
)
