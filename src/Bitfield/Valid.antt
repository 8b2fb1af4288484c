-- ===== src/Bitfield/Valid.antt =====
-- The invariant of an allocated bitfield, and the single-bit operations.
use libtorrent.Common.{
  ℕ, ◌+◌, ◌*◌, ◌/◌, ◌%◌, ◌^◌, ◌≤◌, ◌<◌, ◌≡◌, refl, sym, ap, ◌∙◌, ◌≢◌, inl, inr, Bool, true, false,
  some, List, ◌==◌, ==_iff, arith, length, get_or, set, All, IsByte, if◌then◌else◌, ok, length-set,
  get_or-set_self, get_or-set_ne, All-get_or, All-set, Bool-cases, add32, sub32,
}
use libtorrent.Bitfield.{
  Bitfield, test_bit, set_bit, unset_bit, get, byte_at, set_index, unset_index,
}
use libtorrent.Bitfield.Bytes.{
  one_if, test_bit-set_bit, test_bit-unset_bit, set_bit-IsByte, unset_bit-IsByte,
}
use libtorrent.Bitfield.Count.{ones, bit, ones-set, ones-le}

-- The array `bs` fits the size, holds no bit past the size, and `num_set` counts the bits.
pub record Holds (size num_set : ℕ) (bs : List ℕ) : Type 0 where
  pub fits : size + 7 < 2 ^ 32
  pub len : length bs ≡ (size + 7) / 8
  pub are_bytes : All IsByte bs
  pub tail : (i : ℕ) → size ≤ i → i < 8 * length bs → bit bs i ≡ false
  pub counted : num_set ≡ ones (bit bs) size

-- An allocated bitfield that satisfies the invariant, with its array.
abbrev pub IsValid : Bitfield → List ℕ → Type 0
IsValid bf bs = (bf.bytes ≡ some bs) × Holds bf.size bf.num_set bs

index_below : (i size : ℕ) (bs : List ℕ) → length bs ≡ (size + 7) / 8 → i < size → i / 8 < length bs
index_below i size bs e h = omega arith

pub bit-set_same :
    (bs : List ℕ) (i j b : ℕ)
    → i / 8 < length bs
    → j / 8 ≡ i / 8
    → bit (set bs (i / 8) b) j ≡ test_bit b (j % 8)
unfolding bit
bit-set_same bs i j b h e = rw (e, get_or-set_self bs (i / 8) b 0 h)

pub bit-set_other : (bs : List ℕ) (i j b : ℕ) → j / 8 ≢ i / 8 → bit (set bs (i / 8) b) j ≡ bit bs j
unfolding bit
bit-set_other bs i j b h = rw (get_or-set_ne bs (i / 8) (j / 8) b 0 (λ e. h (sym e)))

div_mod_ne : (i j : ℕ) → i ≢ j → j / 8 ≡ i / 8 → (i % 8 == j % 8) ≡ false
div_mod_ne i j h e = ground arith

-- One byte is rewritten so that only the bit at `i` may change, to `v`.
module _ (bs : List ℕ) (i b : ℕ) (v : Bool) (lt : i / 8 < length bs)
    (new : (j : ℕ)
      → j < 8
      → test_bit b j ≡ (if i % 8 == j then v else test_bit (get_or bs (i / 8) 0) j)) where
  pub bit-write_self : bit (set bs (i / 8) b) i ≡ v
  bit-write_self =
      bit-set_same bs i i b lt refl
      ∙ rw (new (i % 8) (omega arith), (==_iff (i % 8) (i % 8)).1 refl)

  pub bit-write_other : (j : ℕ) → j ≢ i → bit (set bs (i / 8) b) j ≡ bit bs j
  bit-write_other j ne = elim (Bool-cases (j / 8 == i / 8)) [
    | inl e ↦
        let same : j / 8 ≡ i / 8 = (==_iff _ _).0 e in
        bit-set_same bs i j b lt same
        ∙ rw (new (j % 8) (omega arith), div_mod_ne i j (λ p. ne (sym p)) same)
            (unfold bit in rw same)
    | inr e ↦ bit-set_other bs i j b (λ p. ground (arith, p))
  ]

module _ (size num_set : ℕ) (bs : List ℕ) (i b : ℕ) (v : Bool) (h : Holds size num_set bs)
    (lt : i < size) (byte : IsByte b)
    (new : (j : ℕ)
      → j < 8
      → test_bit b j ≡ (if i % 8 == j then v else test_bit (get_or bs (i / 8) 0) j)) where
  -- The invariant after such a write, with the count moved accordingly.
  pub write-Holds :
      (count : ℕ)
      → count + one_if (bit bs i) ≡ num_set + one_if v
      → Holds size count (set bs (i / 8) b)
  write-Holds count e =
      let inside = index_below i size bs h.len lt in
      let moved =
        ones-set (bit bs) (bit (set bs (i / 8) b)) i size lt
          (λ j _ ne. bit-write_other bs i b v inside new j ne) in
      record {
        fits = h.fits;
        len = length-set bs (i / 8) b ∙ h.len;
        are_bytes = All-set IsByte bs (i / 8) b byte h.are_bytes;
        tail = λ j lo hi.
            bit-write_other bs i b v inside new j (omega arith)
            ∙ h.tail j lo (omega (arith, length-set bs (i / 8) b));
        counted = omega (arith, moved, h.counted, ap one_if (bit-write_self bs i b v inside new));
      }

set_new :
    (b k j : ℕ)
    → b < 256
    → k < 8
    → j < 8
    → test_bit (set_bit b k) j ≡ (if k == j then true else test_bit b j)
set_new b k j hb hk hj = ground (arith, test_bit-set_bit b k j hb hk hj)

unset_new :
    (b k j : ℕ)
    → b < 256
    → k < 8
    → j < 8
    → test_bit (unset_bit b k) j ≡ (if k == j then false else test_bit b j)
unset_new b k j hb hk hj = ground (arith, test_bit-unset_bit b k j hb hk hj)

module _ (bf : Bitfield) (bs : List ℕ) (i : ℕ) (v : IsValid bf bs) (lt : i < bf.size) where
  inside : i / 8 < length bs
  inside = index_below i bf.size bs v.1.len lt

  -- The byte of an index below the size.
  pub the_byte : byte_at bf i ≡ ok (get_or bs (i / 8) 0)
  unfolding byte_at
  the_byte = rw (v.0, byte_at) (ground (arith, inside))

  pub byte_lt : get_or bs (i / 8) 0 < 256
  byte_lt = All-get_or IsByte bs (i / 8) 0 inside v.1.are_bytes

  -- `get` reads the bit, for every index below the size.
  pub get-bit : get bf i ≡ ok (bit bs i)
  unfolding get bit
  get-bit = rw the_byte

-- What a single-bit write leaves: the invariant, bit `i` set to `v`, all others and the size as before.
pub record Wrote (bf bf' : Bitfield) (bs bs' : List ℕ) (i : ℕ) (v : Bool) : Type 0 where
  pub valid : IsValid bf' bs'
  pub same_size : bf'.size ≡ bf.size
  pub written : bit bs' i ≡ v
  pub others : (j : ℕ) → j ≢ i → bit bs' j ≡ bit bs j

module _ (bf : Bitfield) (bs : List ℕ) (i : ℕ) (h : IsValid bf bs) (lt : i < bf.size) where
  counted-le : one_if (bit bs i) ≤ bf.num_set
  counted-le = omega (
    arith,
    ones-set (bit bs) (λ j. if j == i then false else bit bs j) i bf.size lt
        (λ j _ ne. ground (arith, ne)),
    h.1.counted,
    the_off,
  )
    where
      the_off : one_if (if i == i then false else bit bs i) ≡ 0
      the_off = ground arith

  wrote :
      (v : Bool) (count b : ℕ) (bf' : Bitfield)
      → IsByte b
      → ((j : ℕ)
          → j < 8
          → test_bit b j ≡ (if i % 8 == j then v else test_bit (get_or bs (i / 8) 0) j))
      → count + one_if (bit bs i) ≡ bf.num_set + one_if v
      → bf' ≡ record { size = bf.size; num_set = count; bytes = some (set bs (i / 8) b) }
      → Wrote bf bf' bs (set bs (i / 8) b) i v
  wrote v count b bf' byte new e same =
      let lt' = inside bf bs i h lt in
      rw same (record {
        valid = (refl, write-Holds bf.size bf.num_set bs i b v h.1 lt byte new count e);
        same_size = refl;
        written = bit-write_self bs i b v lt' new;
        others = bit-write_other bs i b v lt' new;
      })

  -- On an index below the size of a valid bitfield, `set` succeeds, keeps the invariant (so the
  -- count) and the size, sets that bit and leaves every other.
  pub set_index-Wrote :
      (bf' : Bitfield) × (bs' : List ℕ) × (set_index bf i ≡ ok bf') × Wrote bf bf' bs bs' i true
  unfolding set_index bit
  set_index-Wrote =
      let b = get_or bs (i / 8) 0 in
      let count = if test_bit b (i % 8) then bf.num_set else add32 bf.num_set 1 in
      (
        record {
          size = bf.size;
          num_set = count;
          bytes = some (set bs (i / 8) (set_bit b (i % 8)));
        },
        set bs (i / 8) (set_bit b (i % 8)),
        rw (the_byte bf bs i h lt, h.0) refl,
        wrote true count (set_bit b (i % 8)) _
            (set_bit-IsByte b (i % 8) (byte_lt bf bs i h lt) (omega arith))
            (λ j hj. set_new b (i % 8) j (byte_lt bf bs i h lt) (omega arith) hj)
            (ground (arith, h.1.counted, ones-le (bit bs) bf.size, h.1.fits)) refl,
      )

  -- On an index below the size of a valid bitfield, `unset` succeeds, keeps the invariant (so the
  -- count) and the size, clears that bit and leaves every other.
  pub unset_index-Wrote :
      (bf' : Bitfield) × (bs' : List ℕ) × (unset_index bf i ≡ ok bf') × Wrote bf bf' bs bs' i false
  unfolding unset_index bit
  unset_index-Wrote =
      let b = get_or bs (i / 8) 0 in
      let count = if test_bit b (i % 8) then sub32 bf.num_set 1 else bf.num_set in
      (
        record {
          size = bf.size;
          num_set = count;
          bytes = some (set bs (i / 8) (unset_bit b (i % 8)));
        },
        set bs (i / 8) (unset_bit b (i % 8)),
        rw (the_byte bf bs i h lt, h.0) refl,
        wrote false count (unset_bit b (i % 8)) _
            (unset_bit-IsByte b (i % 8) (byte_lt bf bs i h lt) (omega arith))
            (λ j hj. unset_new b (i % 8) j (byte_lt bf bs i h lt) (omega arith) hj)
            (ground (arith, counted-le, h.1.counted, ones-le (bit bs) bf.size, h.1.fits)) refl,
      )
