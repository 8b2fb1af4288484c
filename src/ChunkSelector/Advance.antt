-- ===== src/ChunkSelector/Advance.antt =====
-- Where `advance_position` moves the position: to a wanted chunk, of high priority if there is one.
use libtorrent.Common.{
  Bool-cases, List, [], arith, false, inl, inr, ltb, ltb→lt, refl, true, ℕ, ◌&&◌, ◌<◌, ◌∙◌, ◌∷◌,
  ◌≡◌, ◌≤◌, ◌⊎◌, leb, leb→gt, max, min, ok, sym, ◌==◌, Result, err, if◌then◌else◌, ltb→ge, ◌||◌,
  ◌≢◌,
}
use libtorrent.Bitfield.{Bitfield}
use libtorrent.Bitfield.Count.{bit}
use libtorrent.Bitfield.Valid.{IsValid}
use libtorrent.Bitfield.Range.{find_first_set-IsFirstSet}
use libtorrent.Ranges.{Range, find}
use libtorrent.Ranges.Cover.{covers, Above, IsSorted, covers-below, Above-IsSorted, Above-mono}
use libtorrent.ChunkSelector.{
  invalid_chunk, next_wanted_from, next_wanted_in_ranges, DownloadData, or_else, advance_position,
}

-- `r` is an index from `first` up to `last` that is set and covered, or `invalid_chunk` if there is
-- none.
pub IsWantedIn : List ℕ → List Range → ℕ → ℕ → ℕ → Type 0
IsWantedIn bs rs first last r =
    ((r ≡ invalid_chunk) × ((i : ℕ) → first ≤ i → i < last → bit bs i && covers rs i ≡ false))
    ⊎ ((first ≤ r) × (r < last) × (bit bs r && covers rs r ≡ true))

-- What is left of the ranges from the first that ends above `first` on.
find-covers :
    (first : ℕ) (rs : List Range) (low : ℕ)
    → Above low rs
    → ((i : ℕ) → first ≤ i → covers (find first rs) i ≡ covers rs i) × Above low (find first rs)
unfolding find covers
find-covers first [] low a = (λ i h. refl, tt)
find-covers first ((x, y) ∷ rest) low a = elim (Bool-cases (ltb first y)) [
  | inl here ↦ rw here (λ i h. refl, a)
  | inr past ↦
      let (same, above) = find-covers first rest y a.2 in
      rw past (
        λ i h. same i h ∙ ground (arith, h, past),
        Above-mono low y (find first rest) (omega (arith, a.0, a.1)) above,
      )
]

pub find-IsSorted :
    (first : ℕ) (rs : List Range)
    → IsSorted rs
    → ((i : ℕ) → first ≤ i → covers (find first rs) i ≡ covers rs i) × IsSorted (find first rs)
unfolding find covers
find-IsSorted first [] a = (λ i h. refl, tt)
find-IsSorted first ((x, y) ∷ rest) a = elim (Bool-cases (ltb first y)) [
  | inl here ↦ rw here (λ i h. refl, a)
  | inr past ↦
      let (same, above) = find-covers first rest y a.1 in
      rw past (λ i h. same i h ∙ ground (arith, h, past), Above-IsSorted y (find first rest) above)
]

-- The first range ends above `first`.
abbrev pub EndsAbove : ℕ → List Range → Type 0
EndsAbove first [] = Unit {0}
EndsAbove first ((a, b) ∷ rest) = first < b

pub find-EndsAbove : (first : ℕ) (rs : List Range) → EndsAbove first (find first rs)
unfolding find
find-EndsAbove first [] = tt
find-EndsAbove first ((x, y) ∷ rest) = elim (Bool-cases (ltb first y)) [
  | inl here ↦ rw here (ltb→lt first y here)
  | inr past ↦ rw past (find-EndsAbove first rest)
]

pub EndsAbove-next :
    (first b : ℕ) (rest : List Range) → first < b → Above b rest → EndsAbove first rest
EndsAbove-next first b [] h a = tt
EndsAbove-next first b ((x, y) ∷ rest) h a = omega (arith, a.0, a.1)

module _ (bf : Bitfield) (bs : List ℕ) (v : IsValid bf bs) where
  next_wanted_from-IsWantedIn :
      (rs : List Range) (first last : ℕ)
      → IsSorted rs
      → EndsAbove first rs
      → first < last
      → last ≤ bf.size
      → (r : ℕ) × (next_wanted_from bf rs first last ≡ ok r) × IsWantedIn bs rs first last r
  unfolding next_wanted_from covers IsWantedIn
  next_wanted_from-IsWantedIn [] first last s e lt le =
      (invalid_chunk, refl, inl (refl, λ i lo hi. ground arith))
  next_wanted_from-IsWantedIn ((a, b) ∷ rest) first last s e lt le =
      elim (Bool-cases (ltb a last)) [
        | inr beyond ↦ (
          invalid_chunk,
          rw beyond refl,
          inl (refl, λ i lo hi. ground (arith, beyond, hi, covers-below b rest i s.1)),
        )
        | inl inside ↦
            let (chunk, run, f) =
              find_first_set-IsFirstSet bf bs (max first a) (min last b) v
                (omega (arith, ltb→lt a last inside, s.0)) (omega arith) in
            elim (Bool-cases (chunk == min last b)) [
              | inr found ↦
                  let hit = f.hit (ground (arith, found, f.below)) in
                  (
                    chunk,
                    rw inside (rw run (rw found refl)),
                    inr (
                      omega (arith, f.above),
                      ground (arith, found, f.below),
                      ground (arith, hit, found, f.below, f.above),
                    ),
                  )
              | inl none_here ↦
                  let (r, run', w) =
                    next_wanted_from-IsWantedIn rest first last (Above-IsSorted b rest s.1)
                      (EndsAbove-next first b rest e s.1) lt le in
                  (
                    r,
                    rw inside (rw run (rw none_here run')),
                    elim w [
                      | inl (bad, none_later) ↦ inl (
                        bad,
                        λ i lo hi.
                            ground (arith, none_later i lo hi, f.clear_before i, none_here, lo, hi),
                      )
                      | inr (lo, hi, good) ↦ inr (lo, hi, ground (arith, good))
                    ],
                  )
            ]
      ]

  -- `next_wanted_in_ranges` ends, and tells a wanted index of the range, if there is one.
  pub next_wanted_in_ranges-IsWantedIn :
      (rs : List Range) (first last : ℕ)
      → IsSorted rs
      → last ≤ bf.size
      → (r : ℕ) × (next_wanted_in_ranges bf rs first last ≡ ok r) × IsWantedIn bs rs first last r
  unfolding next_wanted_in_ranges IsWantedIn
  next_wanted_in_ranges-IsWantedIn rs first last s le = elim (Bool-cases (leb last first)) [
    | inl none_at_all ↦ (
      invalid_chunk,
      rw none_at_all refl,
      inl (refl, λ i lo hi. absurd (ground (arith, none_at_all, lo, hi))),
    )
    | inr some_left ↦
        let (same, sorted) = find-IsSorted first rs s in
        let (r, run, w) =
          next_wanted_from-IsWantedIn (find first rs) first last sorted (find-EndsAbove first rs)
            (leb→gt last first some_left) le in
        (
          r,
          rw some_left run,
          elim w [
            | inl (bad, nothing) ↦ inl (bad, λ i lo hi. rw (sym (same i lo)) (nothing i lo hi))
            | inr (lo, hi, good) ↦ inr (lo, hi, rw (sym (same r lo)) good)
          ],
        )
  ]

-- A position of high priority, or one of normal priority where no chunk of high priority is left, or
-- `invalid_chunk` where no chunk at all is wanted.
pub record IsChosen (bs : List ℕ) (d : DownloadData) (p : ℕ) : Type 0 where
  pub wanted : p ≢ invalid_chunk → bit bs p && (covers d.high p || covers d.normal p) ≡ true
  pub below : p ≢ invalid_chunk → p < d.untouched.size
  pub high_first :
      (i : ℕ)
      → p ≢ invalid_chunk
      → covers d.high p ≡ false
      → i < d.untouched.size
      → bit bs i && covers d.high i ≡ false
  pub none_left :
      p ≡ invalid_chunk
      → (i : ℕ) → i < d.untouched.size
      → bit bs i && (covers d.high i || covers d.normal i) ≡ false

or_else-runs :
    (x y : Result ℕ) (r : ℕ) → x ≡ ok r → or_else x y ≡ (if r == invalid_chunk then y else ok r)
unfolding or_else
or_else-runs x y r e = rw e refl

-- Two searches, the second up to where the first began.
around-IsWantedIn :
    (bf : Bitfield) (bs : List ℕ) (rs : List Range) (start : ℕ)
    → IsValid bf bs
    → IsSorted rs
    → start ≤ bf.size
    → (r : ℕ) × (or_else
          (next_wanted_in_ranges bf rs start bf.size)
          (next_wanted_in_ranges bf rs 0 start)
        ≡ ok r)
      × IsWantedIn bs rs 0 bf.size r
unfolding IsWantedIn
around-IsWantedIn bf bs rs start v s le =
    let (r1, run1, w1) =
      next_wanted_in_ranges-IsWantedIn bf bs v rs start bf.size s (omega arith) in
    let (r2, run2, w2) = next_wanted_in_ranges-IsWantedIn bf bs v rs 0 start s le in
    let first =
      or_else-runs (next_wanted_in_ranges bf rs start bf.size) (next_wanted_in_ranges bf rs 0 start)
        r1 run1 in
    elim w1 [
      | inr (lo, hi, good) ↦
          let real : (r1 == invalid_chunk) ≡ false = ground (arith, hi, v.1.fits) in
          (r1, first ∙ rw real refl, inr (omega arith, hi, good))
      | inl (bad, nothing) ↦
          let fake : (r1 == invalid_chunk) ≡ true = ground (arith, bad) in
          (
            r2,
            first ∙ rw fake run2,
            elim w2 [
              | inr (lo, hi, good) ↦ inr (lo, omega (arith, hi, le), good)
              | inl (bad', nothing') ↦ inl (
                bad',
                λ i lo hi. elim (Bool-cases (ltb i start)) [
                  | inl early ↦ nothing' i lo (ltb→lt i start early)
                  | inr late ↦ nothing i (ltb→ge i start late) hi
                ],
              )
            ],
          )
    ]

or_else_assoc : (x y z : Result ℕ) → or_else x (or_else y z) ≡ or_else (or_else x y) z
unfolding or_else
or_else_assoc (err e) y z = refl
or_else_assoc (ok p) y z = elim (Bool-cases (p == invalid_chunk)) [
  | inl same ↦ rw same refl
  | inr other ↦ rw other (rw other refl)
]

-- On a valid bitfield of untouched chunks and sorted priorities, `advance_position` ends, from any
-- position, and returns a wanted chunk, of high priority if one is left, or `invalid_chunk` exactly where
-- no chunk is wanted.
pub advance_position-IsChosen :
    (d : DownloadData) (bs : List ℕ) (position : ℕ)
    → IsValid d.untouched bs
    → IsSorted d.high
    → IsSorted d.normal
    → (p : ℕ) × (advance_position d position ≡ ok p) × IsChosen bs d p
unfolding advance_position IsWantedIn
advance_position-IsChosen d bs position v sh sn =
    let bf = d.untouched in
    let start = if position == invalid_chunk || leb bf.size position then 0 else position in
    let le : start ≤ bf.size = ground arith in
    let (h, run_h, wh) = around-IsWantedIn bf bs d.high start v sh le in
    let (n, run_n, wn) = around-IsWantedIn bf bs d.normal start v sn le in
    let run =
      or_else_assoc (next_wanted_in_ranges bf d.high start bf.size)
        (next_wanted_in_ranges bf d.high 0 start)
        (or_else (next_wanted_in_ranges bf d.normal start bf.size)
          (next_wanted_in_ranges bf d.normal 0 start)) in
    let first =
      or_else-runs _
        (or_else (next_wanted_in_ranges bf d.normal start bf.size)
          (next_wanted_in_ranges bf d.normal 0 start))
        h run_h in
    elim (Bool-cases (bf.size == 0)) [
      | inl no_chunks ↦ (
        invalid_chunk,
        rw no_chunks refl,
        record {
          wanted = λ q. absurd (q refl);
          below = λ q. absurd (q refl);
          high_first = λ i q c hi. absurd (q refl);
          none_left = λ q i hi. absurd (ground (arith, no_chunks, hi));
        },
      )
      | inr chunks ↦ elim wh [
        | inr (lo, hi, good) ↦
            let real : (h == invalid_chunk) ≡ false = ground (arith, hi, v.1.fits) in
            (
              h,
              rw chunks (run ∙ first ∙ rw real refl),
              record {
                wanted = λ q. ground (arith, good);
                below = λ q. hi;
                high_first = λ i q c hi'. ground (arith, good, c);
                none_left = λ q i hi'. absurd (ground (arith, q, real));
              },
            )
        | inl (bad, no_high) ↦
            let fake : (h == invalid_chunk) ≡ true = ground (arith, bad) in
            (
              n,
              rw chunks (run ∙ first ∙ rw fake run_n),
              record {
                wanted = λ q. elim wn [
                  | inr (lo, hi, good) ↦ ground (arith, good)
                  | inl (bad', no_normal) ↦ absurd (q bad')
                ];
                below = λ q. elim wn [
                  | inr (lo, hi, good) ↦ hi
                  | inl (bad', no_normal) ↦ absurd (q bad')
                ];
                high_first = λ i q c hi. no_high i (omega arith) hi;
                none_left = λ q i hi. elim wn [
                  | inr (lo, hi', good) ↦ absurd (omega (arith, hi', q, v.1.fits))
                  | inl (bad', no_normal) ↦
                      ground (arith, no_high i (omega arith) hi, no_normal i (omega arith) hi)
                ];
              },
            )
      ]
    ]
