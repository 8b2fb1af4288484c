-- ===== src/Object.antt =====
-- src/torrent/object.h and src/torrent/object.cc: the tree of values that bencode encodes.
-- A byte is a number below 256. `std::map` is the list of its entries in the order of their keys.
pub mod Keys
use libtorrent.Common.{
  ℕ, Bool, List, Option, Ordering, Result, [], bencode_error, bit_or, compare, err, false, ok, some,
  true, ℤ, ◌∷◌,
}

-- An object is its flags, those of `mask_flags`, and its value. `TYPE_DICT_KEY` carries no content
-- here: the encoder refuses it and the decoder never makes it.
mutual
  pub data Object : Type 0 where
    object : ℕ → Value → Object

  pub data Value : Type 0 where
    none : Value
    raw_bencode raw_string raw_list raw_map : List ℕ → Value
    value : ℤ → Value
    string : List ℕ → Value
    list : Items → Value
    map : Entries → Value
    dict_key : Value

  pub data Items : Type 0 where
    nil : Items
    cons : Object → Items → Items

  pub data Entries : Type 0 where
    end : Entries
    entry : List ℕ → Object → Entries → Entries

abbrev pub flag_unordered : ℕ
flag_unordered = 0x100

unfoldable pub flags : Object → ℕ
flags (object f v) = f

unfoldable pub value_of : Object → Value
value_of (object f v) = v

unfoldable pub is_empty : Object → Bool
is_empty (object f none) = true
is_empty (object f v) = false

-- `object->set_internal_flags(Object::flag_unordered)`.
unfoldable pub mark_unordered : ℕ → ℕ
mark_unordered f = bit_or f flag_unordered

-- `std::string` compares its bytes from the left, and a proper prefix is smaller.
unfoldable pub compare_keys : List ℕ → List ℕ → Ordering
compare_keys [] [] = Ordering.eq
compare_keys [] (y ∷ ys) = Ordering.lt
compare_keys (x ∷ xs) [] = Ordering.gt
compare_keys (x ∷ xs) (y ∷ ys) =
    let rest = compare_keys xs ys in
    elim (compare x y) [
      | Ordering.lt ↦ Ordering.lt
      | Ordering.gt ↦ Ordering.gt
      | Ordering.eq ↦ rest
    ]

unfoldable pub key_le : List ℕ → List ℕ → Bool
key_le a b = elim (compare_keys a b) [ Ordering.gt ↦ false | _ ↦ true ]

unfoldable pub key_lt : List ℕ → List ℕ → Bool
key_lt a b = elim (compare_keys a b) [ Ordering.lt ↦ true | _ ↦ false ]

-- `_map()[k] = b`: the entry is replaced, or inserted in the order of the keys.
unfoldable pub insert_key : List ℕ → Object → Entries → Entries
insert_key k b end = entry k b end
insert_key k b (entry j o rest) =
    let later = insert_key k b rest in
    elim (compare_keys k j) [
      | Ordering.lt ↦ entry k b (entry j o rest)
      | Ordering.eq ↦ entry j b rest
      | Ordering.gt ↦ entry j o later
    ]

-- `_map().find(k)`, and `get_key`, which throws where there is no such key.
unfoldable pub find_key : List ℕ → Entries → Option Object
find_key k end = Option.none
find_key k (entry j o rest) =
    let later = find_key k rest in
    elim (compare_keys k j) [
      | Ordering.eq ↦ some o
      | Ordering.lt ↦ Option.none
      | Ordering.gt ↦ later
    ]

unfoldable pub get_key : List ℕ → Object → Result Object
unfolding find_key
get_key k (object f (map es)) = elim (find_key k es) [
  | Option.none ↦ err bencode_error
  | some o ↦ ok o
]
get_key k (object f v) = err bencode_error

drop_key : List ℕ → Entries → Entries
drop_key k end = end
drop_key k (entry j o rest) =
    let later = drop_key k rest in
    elim (compare_keys k j) [
      | Ordering.eq ↦ rest
      | Ordering.lt ↦ entry j o rest
      | Ordering.gt ↦ entry j o later
    ]

unfoldable pub erase_key : List ℕ → Object → Result Object
unfolding drop_key
erase_key k (object f (map es)) = ok (object f (map (drop_key k es)))
erase_key k (object f v) = err bencode_error

-- `insert_preserve_any`: an entry that is there stays, and the flag says whether `b` went in.
unfoldable pub insert_preserve_any : List ℕ → Object → Object → Result (Object × Bool)
unfolding find_key insert_key
insert_preserve_any k b (object f (map es)) = elim (find_key k es) [
  | Option.none ↦ ok (object f (map (insert_key k b es)), true)
  | some o ↦ ok (object f (map es), false)
]
insert_preserve_any k b (object f v) = err bencode_error
