-- ===== src/Bitfield/Range.antt =====
-- The loops over a range of indices: `set_range`, `unset_range` and `find_first_set`.
use libtorrent.Common.{
  ℕ, zero, suc, ◌≡◌, ==_iff, Bool, Bool-cases, List, add32, arith, false, if◌then◌else◌, inl, inr,
  leb, ltb, ok, refl, sub32, true, ◌&&◌, ◌+◌, ◌-◌, ◌<◌, ◌==◌, ◌∙◌, ◌≤◌, ap, ◌>>=◌,
}
use libtorrent.Bitfield.{Bitfield, set_from, set_range, unset_from, unset_range}
use libtorrent.Bitfield.{find_from, find_first_set}
use libtorrent.Bitfield.Count.{bit}
use libtorrent.Bitfield.Valid.{IsValid, Wrote, set_index-Wrote, unset_index-Wrote, get-bit}

-- The range `first` to `last` is set to `v`, and nothing else changes.
pub record Filled (bf bf' : Bitfield) (bs bs' : List ℕ) (first last : ℕ) (v : Bool) : Type 0 where
  pub valid : IsValid bf' bs'
  pub same_size : bf'.size ≡ bf.size
  pub content : (j : ℕ) → bit bs' j ≡ (if leb first j && ltb j last then v else bit bs j)

Filled-none :
    (bf : Bitfield) (bs : List ℕ) (i : ℕ) (v : Bool) → IsValid bf bs → Filled bf bf bs bs i i v
Filled-none bf bs i v h = record { valid = h; same_size = refl; content = λ j. ground arith }

-- One write at the front of a range and the rest after it.
Filled-cons :
    {bf mid bf' : Bitfield} {bs ms bs' : List ℕ} {first last : ℕ} {v : Bool}
    → first < last
    → Wrote bf mid bs ms first v
    → Filled mid bf' ms bs' (first + 1) last v
    → Filled bf bf' bs bs' first last v
Filled-cons {bs = bs} {ms = ms} {bs' = bs'} {first = first} {last = last} {v = v} lt w f = record {
  valid = f.valid;
  same_size = f.same_size ∙ w.same_size;
  content = λ j. elim (Bool-cases (j == first)) [
    | inl e ↦
        let j_eq : j ≡ first = (==_iff j first).0 e in
        f.content j ∙ rw j_eq (ground (arith, w.written))
    | inr e ↦ f.content j ∙ ground (arith, w.others j (λ p. ground (arith, p)))
  ];
}

set_from-Filled :
    (n first : ℕ) (bf : Bitfield) (bs : List ℕ)
    → IsValid bf bs
    → first + n ≤ bf.size
    → (bf' : Bitfield) × (bs' : List ℕ) × (set_from n first bf ≡ ok bf')
      × Filled bf bf' bs bs' first (first + n) true
unfolding set_from
set_from-Filled zero first bf bs h le =
    let e : first + zero ≡ first = omega arith in
    (bf, bs, refl, rw e (Filled-none bf bs first true h))
set_from-Filled (suc n) first bf bs h le =
    let (mid, ms, e, w) = set_index-Wrote bf bs first h (omega arith) in
    let next : add32 first 1 ≡ first + 1 = omega (arith, h.1.fits) in
    let (bf', bs', e', f) =
      set_from-Filled n (first + 1) mid ms w.valid (omega (arith, w.same_size)) in
    let last : first + 1 + n ≡ first + suc n = omega arith in
    (
      bf',
      bs',
      ap (λ r. r >>= set_from n (add32 first 1)) e ∙ ap (λ k. set_from n k mid) next ∙ e',
      Filled-cons (omega arith) w (rw last at f),
    )

unset_from-Filled :
    (n first : ℕ) (bf : Bitfield) (bs : List ℕ)
    → IsValid bf bs
    → first + n ≤ bf.size
    → (bf' : Bitfield) × (bs' : List ℕ) × (unset_from n first bf ≡ ok bf')
      × Filled bf bf' bs bs' first (first + n) false
unfolding unset_from
unset_from-Filled zero first bf bs h le =
    let e : first + zero ≡ first = omega arith in
    (bf, bs, refl, rw e (Filled-none bf bs first false h))
unset_from-Filled (suc n) first bf bs h le =
    let (mid, ms, e, w) = unset_index-Wrote bf bs first h (omega arith) in
    let next : add32 first 1 ≡ first + 1 = omega (arith, h.1.fits) in
    let (bf', bs', e', f) =
      unset_from-Filled n (first + 1) mid ms w.valid (omega (arith, w.same_size)) in
    let last : first + 1 + n ≡ first + suc n = omega arith in
    (
      bf',
      bs',
      ap (λ r. r >>= unset_from n (add32 first 1)) e ∙ ap (λ k. unset_from n k mid) next ∙ e',
      Filled-cons (omega arith) w (rw last at f),
    )

-- On a valid bitfield and a range within its size, `set_range` succeeds, keeps the invariant and
-- the size, sets exactly the bits from `first` up to `last`, and leaves every other bit.
pub set_range-Filled :
    (bf : Bitfield) (bs : List ℕ) (first last : ℕ)
    → IsValid bf bs
    → first ≤ last
    → last ≤ bf.size
    → (bf' : Bitfield) × (bs' : List ℕ) × (set_range bf first last ≡ ok bf')
      × Filled bf bf' bs bs' first last true
unfolding set_range
set_range-Filled bf bs first last h le lt =
    let n : sub32 last first ≡ last - first = omega (arith, h.1.fits) in
    let e : first + (last - first) ≡ last = omega arith in
    let (bf', bs', run, f) = set_from-Filled (last - first) first bf bs h (omega arith) in
    (bf', bs', ap (λ k. set_from k first bf) n ∙ run, rw e at f)

-- On a valid bitfield and a range within its size, `unset_range` succeeds, keeps the invariant and
-- the size, clears exactly the bits from `first` up to `last`, and leaves every other bit.
pub unset_range-Filled :
    (bf : Bitfield) (bs : List ℕ) (first last : ℕ)
    → IsValid bf bs
    → first ≤ last
    → last ≤ bf.size
    → (bf' : Bitfield) × (bs' : List ℕ) × (unset_range bf first last ≡ ok bf')
      × Filled bf bf' bs bs' first last false
unfolding unset_range
unset_range-Filled bf bs first last h le lt =
    let n : sub32 last first ≡ last - first = omega (arith, h.1.fits) in
    let e : first + (last - first) ≡ last = omega arith in
    let (bf', bs', run, f) = unset_from-Filled (last - first) first bf bs h (omega arith) in
    (bf', bs', ap (λ k. unset_from k first bf) n ∙ run, rw e at f)

-- `i` is the first set index from `first` on, or `last` if there is none before it.
pub record IsFirstSet (bs : List ℕ) (first last i : ℕ) : Type 0 where
  pub above : first ≤ i
  pub below : i ≤ last
  pub clear_before : (j : ℕ) → first ≤ j → j < i → bit bs j ≡ false
  pub hit : i < last → bit bs i ≡ true

find_from-IsFirstSet :
    (n : ℕ) (bf : Bitfield) (bs : List ℕ) (first last : ℕ)
    → IsValid bf bs
    → first + n ≡ last
    → last ≤ bf.size
    → (i : ℕ) × (find_from n bf first last ≡ ok i) × IsFirstSet bs first last i
unfolding find_from
find_from-IsFirstSet zero bf bs first last h e le = (
  last,
  refl,
  record {
    above = omega arith;
    below = omega arith;
    clear_before = λ j lo hi. absurd (omega arith);
    hit = λ p. absurd (omega arith);
  },
)
find_from-IsFirstSet (suc n) bf bs first last h e le = elim (Bool-cases (bit bs first)) [
  | inl on ↦ (
    first,
    rw (get-bit bf bs first h (omega arith), on),
    record {
      above = omega arith;
      below = omega arith;
      clear_before = λ j lo hi. absurd (omega arith);
      hit = λ p. on;
    },
  )
  | inr off ↦
      let (i, run, f) = find_from-IsFirstSet n bf bs (first + 1) last h (omega arith) le in
      (
        i,
        rw (get-bit bf bs first h (omega arith), off) run,
        record {
          above = omega (arith, f.above);
          below = f.below;
          clear_before = λ j lo hi. elim (Bool-cases (j == first)) [
            | inl eq ↦ let p : j ≡ first = (==_iff j first).0 eq in rw p off
            | inr ne ↦ f.clear_before j (ground arith) hi
          ];
          hit = f.hit;
        },
      )
]

-- On a valid bitfield `find_first_set` ends and returns the lowest set index in the range, or `last`.
pub find_first_set-IsFirstSet :
    (bf : Bitfield) (bs : List ℕ) (first last : ℕ)
    → IsValid bf bs
    → first ≤ last
    → last ≤ bf.size
    → (i : ℕ) × (find_first_set bf first last ≡ ok i) × IsFirstSet bs first last i
unfolding find_first_set
find_first_set-IsFirstSet bf bs first last h le lt =
    find_from-IsFirstSet (last - first) bf bs first last h (omega arith) lt
