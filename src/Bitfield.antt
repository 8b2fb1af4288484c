-- ===== src/Bitfield.antt =====
-- src/torrent/bitfield.h and src/torrent/bitfield.cc: the chunk bitfield of a download or a peer.
-- `m_size` and `m_set` are `size` and `num_set`; `m_data` is `bytes`, with `none` for nullptr.
-- An access through nullptr or outside the array is `err undefined`.
pub mod Bytes
pub mod Conjunction
pub mod Count
pub mod Valid
pub mod Update
pub mod Range
use libtorrent.Common.{
  ℕ, zero, suc, ◌+◌, ◌-◌, ◌*◌, ◌/◌, ◌%◌, ◌^◌, min, bit_and, bit_or, Bool, true, false, not, ◌||◌,
  Option, none, some, List, [], ◌∷◌, ltb, ◌==◌, if◌then◌else◌, length, get_or, set, replicate,
  add32, sub32, Result, Error, ok, err, internal_error, undefined, ◌>>=◌, ◌>>◌, throw_if,
}

pub record Bitfield : Type 0 where
  pub size : ℕ
  pub num_set : ℕ
  pub bytes : Option (List ℕ)

-- `1 << (7 - idx)`, `value_type{0xff} << (8 - idx)` and `value_type{0xff} >> idx` as bytes.
unfoldable pub mask_at : ℕ → ℕ
mask_at idx = 2 ^ (7 - idx) % 256

unfoldable pub mask_before : ℕ → ℕ
mask_before idx = 0xff * 2 ^ (8 - idx) % 256

unfoldable pub mask_from : ℕ → ℕ
mask_from idx = 0xff / 2 ^ idx

unfoldable pub size_bytes : Bitfield → ℕ
size_bytes bf = add32 bf.size 7 / 8

unfoldable pub size_unset : Bitfield → ℕ
size_unset bf = sub32 bf.size bf.num_set

unfoldable pub is_all_set : Bitfield → Bool
is_all_set bf = bf.num_set == bf.size

unfoldable pub is_all_unset : Bitfield → Bool
is_all_unset bf = bf.num_set == 0

-- `m_data[idx / 8] & mask_at(idx % 8)`, on the byte.
unfoldable pub test_bit : ℕ → ℕ → Bool
unfolding mask_at
test_bit b i = not (bit_and b (mask_at i) == 0)

unfoldable pub set_bit : ℕ → ℕ → ℕ
unfolding mask_at
set_bit b i = bit_or b (mask_at i)

unfoldable pub unset_bit : ℕ → ℕ → ℕ
unfolding mask_at
unset_bit b i = bit_and b (255 - mask_at i)

-- The byte that `m_data[idx / 8]` names.
unfoldable pub byte_at : Bitfield → ℕ → Result ℕ
byte_at bf idx = elim bf.bytes [
  | none ↦ err undefined
  | some bs ↦ if ltb (idx / 8) (length bs) then ok (get_or bs (idx / 8) 0) else err undefined
]

store_byte : Bitfield → ℕ → ℕ → Result Bitfield
store_byte bf i b = elim bf.bytes [
  | none ↦ err undefined
  | some bs ↦ ok (record bf { bytes = some (set bs i b) })
]

unfoldable pub get : Bitfield → ℕ → Result Bool
unfolding byte_at
get bf idx = do b ← byte_at bf idx; ok (test_bit b (idx % 8))

-- `m_set += !get(idx); m_data[idx / 8] |= mask_at(idx % 8);`
unfoldable pub set_index : Bitfield → ℕ → Result Bitfield
unfolding byte_at store_byte
set_index bf idx = do
  b ← byte_at bf idx
  let count = if test_bit b (idx % 8) then bf.num_set else add32 bf.num_set 1
  store_byte (record bf { num_set = count }) (idx / 8) (set_bit b (idx % 8))

unfoldable pub unset_index : Bitfield → ℕ → Result Bitfield
unfolding byte_at store_byte
unset_index bf idx = do
  b ← byte_at bf idx
  let count = if test_bit b (idx % 8) then sub32 bf.num_set 1 else bf.num_set
  store_byte (record bf { num_set = count }) (idx / 8) (unset_bit b (idx % 8))

unfoldable pub empty_bitfield : Bitfield
empty_bitfield = record { size = 0; num_set = 0; bytes = none }

is_null : Option (List ℕ) → Bool
is_null none = true
is_null (some bs) = false

unfoldable pub set_size_bits : Bitfield → ℕ → Result Bitfield
unfolding is_null
set_size_bits bf s = do
  throw_if (not (is_null bf.bytes)) internal_error
  ok (record bf { size = s })

unfoldable pub set_size_set : Bitfield → ℕ → Result Bitfield
unfolding is_null
set_size_set bf s = do
  throw_if (ltb bf.size s || not (is_null bf.bytes)) internal_error
  ok (record bf { num_set = s })

-- `std::make_unique<value_type[]>` fills the array with zeros.
unfoldable pub allocate : Bitfield → Bitfield
unfolding size_bytes
allocate bf = elim bf.bytes [
  | none ↦ record bf { bytes = some (replicate (size_bytes bf) 0) }
  | some bs ↦ bf
]

unfoldable pub unallocate : Bitfield → Bitfield
unallocate bf = record bf { bytes = none }

unfoldable pub clear : Bitfield → Bitfield
clear bf = record { size = 0; num_set = 0; bytes = none }

-- `*(end() - 1) &= mask_before(m_size % 8)`, on the array.
unfoldable pub mask_last : ℕ → List ℕ → List ℕ
mask_last m [] = []
mask_last m (b ∷ []) = bit_and b m ∷ []
mask_last m (b ∷ c ∷ bs) = b ∷ mask_last m (c ∷ bs)

unfoldable pub clear_tail : Bitfield → Result Bitfield
unfolding mask_before
clear_tail bf = if bf.size % 8 == 0 then ok bf else elim bf.bytes [
  | none ↦ err undefined
  | some [] ↦ err undefined
  | some (b ∷ bs) ↦ ok (record bf { bytes = some (mask_last (mask_before (bf.size % 8)) (b ∷ bs)) })
]

-- `std::popcount` of a word of `w` bits.
unfoldable pub popcount : ℕ → ℕ → ℕ
popcount zero x = 0
popcount (suc w) x = x % 2 + popcount w (x / 2)

-- `std::memcpy` of four or eight bytes into a word, on a little-endian machine.
abbrev word32 : ℕ → ℕ → ℕ → ℕ → ℕ
word32 a b c d = a + 256 * (b + 256 * (c + 256 * d))

abbrev word64 : ℕ → ℕ → ℕ → ℕ → ℕ → ℕ → ℕ → ℕ → ℕ
word64 a b c d e f g h = a + 256 * (b + 256 * (c + 256 * (d + 256 * word32 e f g h)))

-- The three loops of `Bitfield::update`: by eight bytes, then four at most once, then one by one.
unfoldable pub count_bytes : List ℕ → ℕ → ℕ
count_bytes [] acc = acc
count_bytes (b ∷ bs) acc = count_bytes bs (add32 acc (popcount 8 b))

unfoldable pub count_word32 : List ℕ → ℕ → ℕ
count_word32 (a ∷ b ∷ c ∷ d ∷ rest) acc =
    count_bytes rest (add32 acc (popcount 32 (word32 a b c d)))
count_word32 bs acc = count_bytes bs acc

unfoldable pub count_words64 : List ℕ → ℕ → ℕ
count_words64 (a ∷ b ∷ c ∷ d ∷ e ∷ f ∷ g ∷ h ∷ rest) acc =
    count_words64 rest (add32 acc (popcount 64 (word64 a b c d e f g h)))
count_words64 bs acc = count_word32 bs acc

unfoldable pub update : Bitfield → Result Bitfield
update bf = do
  cleared ← clear_tail bf
  ok (record cleared { num_set = elim cleared.bytes [ none ↦ 0 | some bs ↦ count_words64 bs 0 ] })

-- `std::memcpy(m_data.get(), str, size_bytes()); update();` for `str` of that many bytes.
unfoldable pub from_c_str : Bitfield → List ℕ → Result Bitfield
from_c_str bf str = elim bf.bytes [
  | none ↦ err undefined
  | some bs ↦ update (record bf { bytes = some str })
]

-- The receiver's own array is released first; nothing of it remains.
unfoldable pub copy : Bitfield → Bitfield → Bitfield
copy self bf = record { size = bf.size; num_set = bf.num_set; bytes = bf.bytes }

unfoldable pub set_all : Bitfield → Result Bitfield
unfolding size_bytes
set_all bf = elim bf.bytes [
  | none ↦ err undefined
  | some bs ↦
      clear_tail (record bf { num_set = bf.size; bytes = some (replicate (size_bytes bf) 255) })
]

unfoldable pub unset_all : Bitfield → Result Bitfield
unfolding size_bytes
unset_all bf = elim bf.bytes [
  | none ↦ err undefined
  | some bs ↦ ok (record bf { num_set = 0; bytes = some (replicate (size_bytes bf) 0) })
]

-- `while (first != last) set(first++);`: the rounds are `last - first`, counted modulo 2 ^ 32.
unfoldable pub set_from : ℕ → ℕ → Bitfield → Result Bitfield
set_from zero first bf = ok bf
set_from (suc n) first bf = set_index bf first >>= set_from n (add32 first 1)

unfoldable pub set_range : Bitfield → ℕ → ℕ → Result Bitfield
set_range bf first last = set_from (sub32 last first) first bf

unfoldable pub unset_from : ℕ → ℕ → Bitfield → Result Bitfield
unset_from zero first bf = ok bf
unset_from (suc n) first bf = unset_index bf first >>= unset_from n (add32 first 1)

unfoldable pub unset_range : Bitfield → ℕ → ℕ → Result Bitfield
unset_range bf first last = unset_from (sub32 last first) first bf

-- `while (first < last)` of `find_first_set`, with `last - first` rounds at most.
unfoldable pub find_from : ℕ → Bitfield → ℕ → ℕ → Result ℕ
find_from zero bf first last = ok last
find_from (suc n) bf first last = do
  hit ← get bf first
  let rest = find_from n bf (first + 1) last
  if hit then ok first else rest

unfoldable pub find_first_set : Bitfield → ℕ → ℕ → Result ℕ
find_first_set bf first last = find_from (last - first) bf first last
