-- ===== src/Rate/Window.antt =====
-- What a rate counts: the bytes of the samples that are not older than the span.
use libtorrent.Common.{
  Bool-cases, List, [], arith, if◌then◌else◌, inl, inr, refl, sub64, sym, true, ℕ, ◌+◌, ◌<◌, ◌^◌,
  ◌∙◌, ◌∷◌, ◌≡◌, ◌≤◌, add64, ap, err, internal_error, ltb, ok, ◌/◌, ◌⊎◌,
}
use libtorrent.Rate.{Sample, Rate, is_old, drop_old, discard_old, rate, add_sample, insert, is_now}

-- The bytes of all samples, and of those that are not old at `now`.
unfoldable pub sum : List Sample → ℕ
sum [] = 0
sum (s ∷ ss) = s.bytes + sum ss

unfoldable pub window : ℕ → ℕ → List Sample → ℕ
window now span [] = 0
window now span (s ∷ ss) = (if is_old now span s then 0 else s.bytes) + window now span ss

-- Times ascend from the oldest sample to the newest, end by `now`, and are not negative.
abbrev pub Ascends : ℕ → ℕ → List Sample → Type 0
Ascends low now [] = low ≤ now
Ascends low now (s ∷ ss) = ((low ≤ s.time) × (s.time < 2 ^ 31)) × Ascends s.time now ss

-- `current` is the sum of the samples, and fits its type with what one insert may add.
pub record IsValid (now : ℕ) (r : Rate) : Type 0 where
  pub ordered : Ascends 0 now r.samples
  pub summed : r.current ≡ sum r.samples
  pub fits : r.current ≤ 2 ^ 40 + 2 ^ 28

window-all :
    (now span low last : ℕ) (ss : List Sample)
    → now ≤ low + span
    → Ascends low last ss
    → window now span ss ≡ sum ss
unfolding window sum is_old
window-all now span low last [] h a = refl
window-all now span low last (s ∷ ss) h a =
    ground (arith, window-all now span s.time last ss (omega arith) a.1)

Ascends-mono : (m n now : ℕ) (ss : List Sample) → m ≤ n → Ascends n now ss → Ascends m now ss
Ascends-mono m n now [] h a = omega arith
Ascends-mono m n now (s ∷ ss) h a = (omega arith, a.1)

Ascends-later : (low m n : ℕ) (ss : List Sample) → m ≤ n → Ascends low m ss → Ascends low n ss
Ascends-later low m n [] h a = omega arith
Ascends-later low m n (s ∷ ss) h a = (a.0, Ascends-later s.time m n ss h a.1)

window-old :
    (now span : ℕ) (s : Sample) (ss : List Sample)
    → is_old now span s ≡ true
    → window now span (s ∷ ss) ≡ window now span ss
unfolding window
window-old now span s ss h = rw h (omega arith)

-- Dropping the old samples leaves the sum of the window, and the window as it was.
drop_old-window :
    (now span low last current : ℕ) (ss : List Sample)
    → Ascends low last ss
    → current ≡ sum ss
    → current < 2 ^ 64
    → let (c, ss') = drop_old now span current ss in
      (c ≡ window now span ss)
      × (c ≡ sum ss')
      × Ascends low last ss'
      × (c ≤ current)
      × ((later : ℕ) → now ≤ later → window later span ss' ≡ window later span ss)
unfolding drop_old sum
drop_old-window now span low last current [] a e lt =
    (unfold window in e, e, a, omega arith, λ later h. refl)
drop_old-window now span low last current (s ∷ ss) a e lt = elim (Bool-cases (is_old now span s)) [
  | inl old ↦
      let smaller : sub64 current s.bytes ≡ sum ss = omega arith in
      let (c1, c2, c3, c4, c5) =
        drop_old-window now span s.time last (sub64 current s.bytes) ss a.1 smaller (omega arith) in
      rw old (
        c1 ∙ sym (window-old now span s ss old),
        c2,
        Ascends-mono low s.time last _ a.0.0 c3,
        omega (arith, c4),
        λ later h. c5 later h ∙ still_old later h old,
      )
  | inr fresh ↦ rw fresh (
    e
        ∙ sym (
            window-all now span s.time last (s ∷ ss) (unfold is_old in ground arith)
              (omega arith, a.1)),
    e,
    a,
    omega arith,
    λ later h. refl,
  )
]
  where
    still_old :
        (later : ℕ)
        → now ≤ later
        → is_old now span s ≡ true
        → window later span ss ≡ window later span (s ∷ ss)
    still_old later h old = unfold window is_old in ground arith

window-le-sum : (now span : ℕ) (ss : List Sample) → window now span ss ≤ sum ss
unfolding window sum
window-le-sum now span [] = omega arith
window-le-sum now span (s ∷ ss) = ground (arith, window-le-sum now span ss)

add_sample-sum :
    (now bytes : ℕ) (ss : List Sample)
    → sum ss + bytes < 2 ^ 64
    → sum (add_sample now bytes ss) ≡ sum ss + bytes
unfolding add_sample is_now sum
add_sample-sum now bytes [] h = omega arith
add_sample-sum now bytes (s ∷ []) h = ground arith
add_sample-sum now bytes (s ∷ t ∷ ss) h =
    omega (arith, add_sample-sum now bytes (t ∷ ss) (omega arith))

add_sample-Ascends :
    (low now bytes : ℕ) (ss : List Sample)
    → now < 2 ^ 31
    → Ascends low now ss
    → Ascends low now (add_sample now bytes ss)
unfolding add_sample is_now
add_sample-Ascends low now bytes [] early a =
    ((ground (arith, early, a), ground (arith, early)), ground (arith, early))
add_sample-Ascends low now bytes (s ∷ []) early a = ground (arith, early)
add_sample-Ascends low now bytes (s ∷ t ∷ ss) early a =
    (a.0, add_sample-Ascends s.time now bytes (t ∷ ss) early a.1)

-- What `bytes` inserted at `now` count for at a later time.
abbrev pub counts_at : ℕ → ℕ → ℕ → ℕ → ℕ
counts_at later span now bytes = if ltb (now + span) later then 0 else bytes

add_sample-window :
    (later span now bytes : ℕ) (ss : List Sample)
    → now < 2 ^ 31
    → sum ss + bytes < 2 ^ 64
    → window later span (add_sample now bytes ss)
      ≡ window later span ss + counts_at later span now bytes
unfolding add_sample is_now window is_old sum
add_sample-window later span now bytes [] early h = ground arith
add_sample-window later span now bytes (s ∷ []) early h = ground arith
add_sample-window later span now bytes (s ∷ t ∷ ss) early h =
    omega (arith, add_sample-window later span now bytes (t ∷ ss) early (omega arith))

-- `rate` on a valid state divides the bytes of the window by the span, keeps the state valid, and
-- forgets nothing that a later call would count.
pub rate-window :
    (now : ℕ) (r : Rate)
    → IsValid now r
    → 0 < r.span
    → (r' : Rate) × (rate now r ≡ ok (r', window now r.span r.samples / r.span))
      × IsValid now r'
      × ((later : ℕ) → now ≤ later → window later r.span r'.samples ≡ window later r.span r.samples)
unfolding rate discard_old
rate-window now r v h =
    let (c1, c2, c3, c4, c5) =
      drop_old-window now r.span 0 now r.current r.samples v.ordered v.summed
        (omega (arith, v.fits)) in
    let left = drop_old now r.span r.current r.samples in
    (
      record r { current = left.0; samples = left.1 },
      (ground (arith, c1, h)),
      record { ordered = c3; summed = c2; fits = omega (arith, c4, v.fits) },
      c5,
    )

-- `insert` with no more than 2 ^ 28 bytes, and no more than 2 ^ 40 in the window, succeeds at any time.
pub insert-runs :
    (now bytes : ℕ) (r : Rate)
    → IsValid now r
    → bytes ≤ 2 ^ 28
    → window now r.span r.samples ≤ 2 ^ 40
    → (r' : Rate) × (insert now bytes r ≡ ok r')
unfolding insert discard_old
insert-runs now bytes r v hb hw =
    let (c1, c2, c3, c4, c5) =
      drop_old-window now r.span 0 now r.current r.samples v.ordered v.summed
        (omega (arith, v.fits)) in
    let left = drop_old now r.span r.current r.samples in
    (
      record {
        span = r.span;
        total = add64 r.total bytes;
        current = add64 left.0 bytes;
        samples = add_sample now bytes left.1;
      },
      ground (arith, c1),
    )

-- At a time that is not before the last one and is below 2 ^ 31 seconds, with no more than 2 ^ 28
-- bytes, and no more than 2 ^ 40 in the window, insert succeeds, stays valid, keeps the span, and
-- adds the bytes to the total and to every later window that reaches back to now.
pub insert-window :
    (now bytes : ℕ) (r : Rate)
    → IsValid now r
    → bytes ≤ 2 ^ 28
    → window now r.span r.samples ≤ 2 ^ 40
    → now < 2 ^ 31
    → (r' : Rate) × (insert now bytes r ≡ ok r')
      × IsValid now r'
      × (r'.total ≡ add64 r.total bytes)
      × (r'.span ≡ r.span)
      × ((later : ℕ)
          → now ≤ later
          → window later r.span r'.samples
            ≡ window later r.span r.samples + counts_at later r.span now bytes)
unfolding insert discard_old
insert-window now bytes r v hb hw early =
    let (c1, c2, c3, c4, c5) =
      drop_old-window now r.span 0 now r.current r.samples v.ordered v.summed
        (omega (arith, v.fits)) in
    let left = drop_old now r.span r.current r.samples in
    let fits : sum left.1 + bytes < 2 ^ 64 = omega (arith, c1, c2) in
    (
      record {
        span = r.span;
        total = add64 r.total bytes;
        current = add64 left.0 bytes;
        samples = add_sample now bytes left.1;
      },
      ground (arith, c1),
      record {
        ordered = add_sample-Ascends 0 now bytes left.1 early c3;
        summed = omega (arith, add_sample-sum now bytes left.1 fits, c2);
        fits = omega (arith, c1, c2);
      },
      refl,
      refl,
      λ later h.
          add_sample-window later r.span now bytes left.1 early fits
          ∙ ap (λ w. w + counts_at later r.span now bytes) (c5 later h),
    )

-- `insert` refuses more than 2 ^ 28 bytes, and any bytes once the window holds more than 2 ^ 40.
insert_refuses :
    (now bytes : ℕ) (r : Rate)
    → IsValid now r
    → (2 ^ 28 < bytes) ⊎ (2 ^ 40 < window now r.span r.samples)
    → insert now bytes r ≡ err internal_error
unfolding insert discard_old
insert_refuses now bytes r v h =
    let c =
      drop_old-window now r.span 0 now r.current r.samples v.ordered v.summed
        (omega (arith, v.fits)) in
    ground (arith, c.0, h)
