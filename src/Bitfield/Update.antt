-- ===== src/Bitfield/Update.antt =====
-- The operations that write the whole array: `clear_tail`, `update`, `set_all` and `unset_all`.
use libtorrent.Common.{
  ℕ, zero, suc, ◌≡◌, List, Bool, length, ok, ◌∷◌, get_or, All, some, true, ap, IsByte, arith,
  All-get_or, All-replicate, Bool-cases, [], add32, bit_and, err, false, if◌then◌else◌, inl, inr,
  length-replicate, ltb, none, refl, replicate, sym, undefined, ◌%◌, ◌&&◌, ◌*◌, ◌+◌, ◌/◌, ◌<◌, ◌==◌,
  ◌^◌, ◌∙◌, ◌≢◌, ◌≤◌,
}
use libtorrent.Bitfield.{
  Bitfield, mask_last, mask_before, clear_tail, update, set_all, unset_all, size_bytes,
  count_words64, test_bit,
}
use libtorrent.Bitfield.Bytes.{
  test_bit-mask_before, mask_before-IsByte, test_bit-ones, test_bit-zero,
}
use libtorrent.Bitfield.Count.{ones, bit, ones-le, total-ones, count_words64-total, ones-false}
use libtorrent.Bitfield.Valid.{IsValid}

length-mask_last : (m : ℕ) (bs : List ℕ) → length (mask_last m bs) ≡ length bs
unfolding mask_last
length-mask_last m [] = refl
length-mask_last m (b ∷ []) = refl
length-mask_last m (b ∷ c ∷ bs) = ap suc (length-mask_last m (c ∷ bs))

get_or-mask_last :
    (m : ℕ) (bs : List ℕ) (k : ℕ)
    → k < length bs
    → get_or (mask_last m bs) k 0
      ≡ (if k + 1 == length bs then bit_and (get_or bs k 0) m else get_or bs k 0)
unfolding mask_last
get_or-mask_last m [] k h = elim h [ ]
get_or-mask_last m (b ∷ []) zero h = refl
get_or-mask_last m (b ∷ []) (suc k) h = absurd (omega arith)
get_or-mask_last m (b ∷ c ∷ bs) zero h = ground arith
get_or-mask_last m (b ∷ c ∷ bs) (suc k) h =
    ground (arith, get_or-mask_last m (c ∷ bs) k (omega arith))

mask_last-IsByte :
    (r : ℕ) (bs : List ℕ) → r < 8 → All IsByte bs → All IsByte (mask_last (mask_before r) bs)
unfolding mask_last
mask_last-IsByte r [] h a = tt
mask_last-IsByte r (b ∷ []) h a = (mask_before-IsByte b r a.0 h, tt)
mask_last-IsByte r (b ∷ c ∷ bs) h a = (a.0, mask_last-IsByte r (c ∷ bs) h a.1)

-- An array of the right length for the size, with any content.
pub record Fits (bf : Bitfield) (bs : List ℕ) : Type 0 where
  pub fits : bf.size + 7 < 2 ^ 32
  pub present : bf.bytes ≡ some bs
  pub len : length bs ≡ (bf.size + 7) / 8
  pub are_bytes : All IsByte bs

-- What clearing the tail leaves: the bits below the size stay, and no other is set.
pub record Cleared (size : ℕ) (bs bs' : List ℕ) : Type 0 where
  pub len : length bs' ≡ length bs
  pub are_bytes : All IsByte bs'
  pub kept : (i : ℕ) → i < size → bit bs' i ≡ bit bs i
  pub tail : (i : ℕ) → size ≤ i → i < 8 * length bs' → bit bs' i ≡ false

-- The test of one bit after the mask, by the position of its byte.
bit-mask_last :
    (r : ℕ) (bs : List ℕ) (i : ℕ)
    → r < 8
    → All IsByte bs
    → i / 8 < length bs
    → bit (mask_last (mask_before r) bs) i
      ≡ (if i / 8 + 1 == length bs then ltb (i % 8) r && bit bs i else bit bs i)
unfolding bit
bit-mask_last r bs i hr a h = rw (get_or-mask_last (mask_before r) bs (i / 8) h) (
    ground (
      arith,
      test_bit-mask_before (get_or bs (i / 8) 0) r (i % 8) (All-get_or IsByte bs (i / 8) 0 h a) hr
          (omega arith),
    ))

mask_last-Cleared :
    (size : ℕ) (bs : List ℕ)
    → length bs ≡ (size + 7) / 8
    → All IsByte bs
    → size % 8 ≢ 0
    → Cleared size bs (mask_last (mask_before (size % 8)) bs)
mask_last-Cleared size bs e a h =
    let len = length-mask_last (mask_before (size % 8)) bs in
    let at = λ (i : ℕ) (p : i / 8 < length bs). bit-mask_last (size % 8) bs i (omega arith) a p in
    record {
      len = len;
      are_bytes = mask_last-IsByte (size % 8) bs (omega arith) a;
      kept = λ i p. ground (arith, at i (omega arith));
      tail = λ i lo hi. ground (arith, at i (omega (arith, len)));
    }

-- `clear_tail` on a fitting array.
clear_tail-Cleared :
    (bf : Bitfield) (bs : List ℕ)
    → Fits bf bs
    → (bs' : List ℕ) × (clear_tail bf ≡ ok (record bf { bytes = some bs' }))
      × Cleared bf.size bs bs'
unfolding clear_tail
clear_tail-Cleared bf bs f = elim (Bool-cases (bf.size % 8 == 0)) [
  | inl e ↦ (
    bs,
    rw e (ground (arith, f.present)),
    record {
      len = refl;
      are_bytes = f.are_bytes;
      kept = λ i p. refl;
      tail = λ i lo hi. absurd (ground (arith, f.len));
    },
  )
  | inr e ↦ (
    mask_last (mask_before (bf.size % 8)) bs,
    rw (e, f.present) (nonempty bs (ground (arith, f.len))),
    mask_last-Cleared bf.size bs f.len f.are_bytes (ground arith),
  )
]
  where
    nonempty :
        (xs : List ℕ)
        → 0 < length xs
        → (elim (some xs) [
          | none ↦ err undefined
          | some [] ↦ err undefined
          | some (b ∷ bs) ↦
              ok (record bf { bytes = some (mask_last (mask_before (bf.size % 8)) (b ∷ bs)) })
        ])
          ≡ ok (record bf { bytes = some (mask_last (mask_before (bf.size % 8)) xs) })
    nonempty [] h = elim h [ ]
    nonempty (x ∷ xs) h = refl

-- The population counts after the clearing are the bits below the size.
count-Cleared :
    (size : ℕ) (bs bs' : List ℕ)
    → size + 7 < 2 ^ 32
    → length bs ≡ (size + 7) / 8
    → Cleared size bs bs'
    → count_words64 bs' 0 ≡ ones (bit bs') size
count-Cleared size bs bs' fits e c =
    let sum = total-ones bs' c.are_bytes in
    let low = ones-false (bit bs') size (8 * length bs') (omega (arith, c.len)) c.tail in
    omega (
      arith,
      sum,
      low,
      count_words64-total bs' 0 c.are_bytes (omega (arith, sum, low, ones-le (bit bs') size)),
    )

-- `update` on an array of the right length, whatever it holds, succeeds and leaves a valid bitfield
-- of the same size in which the bits below the size are as they were.
pub update-IsValid :
    (bf : Bitfield) (bs : List ℕ)
    → Fits bf bs
    → (bf' : Bitfield) × (bs' : List ℕ) × (update bf ≡ ok bf')
      × IsValid bf' bs'
      × (bf'.size ≡ bf.size)
      × ((i : ℕ) → i < bf.size → bit bs' i ≡ bit bs i)
unfolding update
update-IsValid bf bs f =
    let (bs', e, c) = clear_tail-Cleared bf bs f in
    (
      record { size = bf.size; num_set = count_words64 bs' 0; bytes = some bs' },
      bs',
      rw e refl,
      (
        refl,
        record {
          fits = f.fits;
          len = c.len ∙ f.len;
          are_bytes = c.are_bytes;
          tail = c.tail;
          counted = count-Cleared bf.size bs bs' f.fits f.len c;
        },
      ),
      refl,
      c.kept,
    )

bit-replicate : (n b i : ℕ) → i / 8 < n → bit (replicate n b) i ≡ test_bit b (i % 8)
unfolding bit
bit-replicate n b i h = rw (get_or-replicate n b (i / 8) h)
  where
    get_or-replicate : (n b k : ℕ) → k < n → get_or (replicate n b) k 0 ≡ b
    get_or-replicate zero b k h = elim h [ ]
    get_or-replicate (suc n) b zero h = refl
    get_or-replicate (suc n) b (suc k) h = get_or-replicate n b k (omega arith)

ones-all : (f : ℕ → Bool) (n : ℕ) → ((i : ℕ) → i < n → f i ≡ true) → ones f n ≡ n
unfolding ones
ones-all f zero h = refl
ones-all f (suc n) h = ground (arith, h n (omega arith), ones-all f n (λ i p. h i (omega arith)))

-- On an array of the right length, whatever it holds, `set_all` succeeds and leaves a valid bitfield
-- with every bit below the size set, and counts the size.
set_all-IsValid :
    (bf : Bitfield) (bs : List ℕ)
    → Fits bf bs
    → (bf' : Bitfield) × (bs' : List ℕ) × (set_all bf ≡ ok bf')
      × IsValid bf' bs'
      × (bf'.num_set ≡ bf.size)
      × ((i : ℕ) → i < bf.size → bit bs' i ≡ true)
unfolding set_all
set_all-IsValid bf bs f =
    let n = (bf.size + 7) / 8 in
    let full : Bitfield = record {
      size = bf.size;
      num_set = bf.size;
      bytes = some (replicate n 255);
    } in
    let fitting : Fits full (replicate n 255) = record {
      fits = f.fits;
      present = refl;
      len = length-replicate n 255;
      are_bytes = All-replicate IsByte n 255 (omega arith);
    } in
    let (bs', e, c) = clear_tail-Cleared full (replicate n 255) fitting in
    let on = λ (i : ℕ) (p : i < bf.size).
      c.kept i p ∙ bit-replicate n 255 i (omega arith) ∙ test_bit-ones (i % 8) (omega arith) in
    (
      record { size = bf.size; num_set = bf.size; bytes = some bs' },
      bs',
      rw (f.present, set_all) (rw (bytes_eq f.fits) e),
      (
        refl,
        record {
          fits = f.fits;
          len = c.len ∙ length-replicate n 255;
          are_bytes = c.are_bytes;
          tail = c.tail;
          counted = sym (ones-all (bit bs') bf.size on);
        },
      ),
      refl,
      on,
    )
  where
    bytes_eq : bf.size + 7 < 2 ^ 32 → size_bytes bf ≡ (bf.size + 7) / 8
    bytes_eq h = unfold size_bytes in omega arith

-- On an array of the right length, whatever it holds, `unset_all` succeeds and leaves a valid
-- bitfield of the same size with no bit set.
unset_all-IsValid :
    (bf : Bitfield) (bs : List ℕ)
    → Fits bf bs
    → (bf' : Bitfield) × (bs' : List ℕ) × (unset_all bf ≡ ok bf')
      × IsValid bf' bs'
      × (bf'.num_set ≡ 0)
      × (bf'.size ≡ bf.size)
unfolding unset_all size_bytes ones
unset_all-IsValid bf bs f =
    let n = (bf.size + 7) / 8 in
    let off =
      λ (i : ℕ) (p : i / 8 < n). bit-replicate n 0 i p ∙ test_bit-zero (i % 8) (omega arith) in
    let len = length-replicate n (zero) in
    let e : add32 bf.size 7 / 8 ≡ n = omega (arith, f.fits) in
    (
      record { size = bf.size; num_set = 0; bytes = some (replicate n 0) },
      replicate n 0,
      rw (f.present, unset_all) (rw e refl),
      (
        refl,
        record {
          fits = f.fits;
          len = len;
          are_bytes = All-replicate IsByte n 0 (omega arith);
          tail = λ i lo hi. off i (omega (arith, len));
          counted = sym (
              ones-false (bit (replicate n 0)) 0 bf.size (omega arith)
                (λ i lo hi. off i (omega arith)));
        },
      ),
      refl,
      refl,
    )
