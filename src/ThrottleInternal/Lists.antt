-- ===== src/ThrottleInternal/Lists.antt =====
-- What receive_quota of src/net/throttle_internal.cc does to the list of one throttle.
use libtorrent.ThrottleInternal.{ThrottleState, need_of, serve_list, give_back}
use libtorrent.Throttle.{
  ThrottleList, update_quota, add_rate, wake, Node, allocate_quota, offer, cut_quota,
}
use libtorrent.Throttle.Accounts.{IsAccounted}
use libtorrent.Throttle.Quota.{update_quota-Shared}
use libtorrent.Rate.{Rate}
use libtorrent.Rate.Window.{window, insert-window}
use libtorrent.Rate.Window
use libtorrent.Common.{
  ℕ, ◌+◌, ◌^◌, ◌≤◌, ◌<◌, Bool-cases, true, false, ◌&&◌, if◌then◌else◌, ltb, leb, ◌==◌, ok, add32,
  sub32, List, [], ◌∷◌, ◌≡◌, refl, ap, ◌∙◌, sym, inl, inr, arith, Bool, Result, err, internal_error,
}

abbrev pub own : ThrottleList → ℕ
own l = l.outstanding + l.unallocated + l.unused_unthrottled

pub record IsListSound (now : ℕ) (l : ThrottleList) : Type 0 where
  pub on : l.enabled ≡ true
  pub accounted : IsAccounted l
  pub rated : Window.IsValid now l.rate_slow
  pub spanned : 0 < l.rate_slow.span

-- Quota that is moved to a slave, of which `q` becomes `q'`, goes from what is unused.
pub moved :
    (unused need used q q' : ℕ)
    → q' ≡ add32 q used
    → q' ≤ q + need
    → used < 2 ^ 32
    → need ≤ unused
    → unused + q < 2 ^ 32
    → sub32 unused used + q' ≡ unused + q
moved unused need used q q' e b s n f = ground (arith, e, b, s, n, f)

-- The bytes of a slave are counted in the list above it.
pub add_rate-IsListSound :
    (now : ℕ) (l : ThrottleList) (bytes : ℕ)
    → IsListSound now l
    → l.rate_added + bytes ≤ 2 ^ 28
    → window now l.rate_slow.span l.rate_slow.samples ≤ 2 ^ 40
    → now < 2 ^ 31
    → (l' : ThrottleList) × (add_rate now l bytes ≡ ok l')
      × IsListSound now l'
      × (own l' ≡ own l)
      × (l'.rate_added ≡ l.rate_added + bytes)
      × (window now l'.rate_slow.span l'.rate_slow.samples
          ≤ window now l.rate_slow.span l.rate_slow.samples + bytes)
unfolding add_rate
add_rate-IsListSound now l bytes i few room early =
    let (slow, run, valid, total, span, win) =
      insert-window now bytes l.rate_slow i.rated (omega (arith, few)) room early in
    let a = i.accounted in
    (
      record l { rate_slow = slow; rate_added = add32 l.rate_added bytes },
      rw run refl,
      record {
        on = i.on;
        accounted = record {
          owed = a.owed;
          fits = a.fits;
          chunks = a.chunks;
          max_fits = a.max_fits;
          counted = a.counted;
        };
        rated = valid;
        spanned = omega (arith, i.spanned, span);
      },
      refl,
      ground (arith, few),
      ground (arith, win now (omega arith), ap (λ k. window now k slow.samples) span),
    )

-- `update_quota` leaves the rates alone.
abbrev rates : ThrottleList → Bool × Rate × ℕ
rates l = (l.enabled, l.rate_slow, l.rate_added)

allocate_quota-rates : (l : ThrottleList) (n : Node) → rates (allocate_quota l n).0 ≡ rates l
unfolding allocate_quota
allocate_quota-rates l n = elim (Bool-cases (leb l.min_chunk n.quota)) [
  | inl enough ↦ rw enough refl
  | inr less ↦ rw less refl
]

wake-rates : (ns : List Node) (l : ThrottleList) → rates (wake l ns) ≡ rates l
unfolding wake
wake-rates [] l = refl
wake-rates (n ∷ ns) l = elim (Bool-cases (ltb (allocate_quota l n).1.quota l.min_chunk)) [
  | inl stays ↦ rw stays (allocate_quota-rates l n)
  | inr woken ↦ rw woken (wake-rates ns _ ∙ allocate_quota-rates l n)
]

cut_quota-rates : (l : ThrottleList) (quota : ℕ) → rates (cut_quota l quota).0 ≡ rates l
unfolding cut_quota
cut_quota-rates l quota = elim (Bool-cases (ltb quota l.unallocated)) [
  | inl much ↦ rw much refl
  | inr little ↦ rw little refl
]

update_quota-rates :
    (l l' : ThrottleList) (quota used : ℕ)
    → update_quota l quota ≡ ok (l', used)
    → rates l' ≡ rates l
unfolding update_quota
update_quota-rates l l' quota used run =
    ap result (sym run)
    ∙ either l.enabled (
        cut_quota-rates (wake (offer l quota) l.inactive) quota
        ∙ wake-rates l.inactive (offer l quota)
        ∙ (unfold offer in refl))
  where
    result : Result (ThrottleList × ℕ) → Bool × Rate × ℕ
    result (ok p) = rates p.0
    result (err thrown) = rates l

    either :
        (on : Bool)
        → rates (cut_quota (wake (offer l quota) l.inactive) quota).0 ≡ rates l
        → result (
            if on
            then ok (cut_quota (wake (offer l quota) l.inactive) quota)
            else err internal_error)
          ≡ rates l
    either true e = e
    either false e = refl

update_quota-IsListSound :
    (now : ℕ) (l : ThrottleList) (quota : ℕ)
    → IsListSound now l
    → own l + quota < 2 ^ 32
    → (l' : ThrottleList) × (used : ℕ) × (update_quota l quota ≡ ok (l', used))
      × IsListSound now l'
      × (own l' ≡ add32 (own l) used)
      × (own l' ≤ own l + quota)
      × (used < 2 ^ 32)
      × (l'.rate_added ≡ l.rate_added)
update_quota-IsListSound now l quota i few =
    let a = i.accounted in
    let (l', used, excess, fresh, run, sh) =
      update_quota-Shared l quota i.on a (omega (arith, few)) in
    let same = update_quota-rates l l' quota used run in
    (
      l',
      used,
      run,
      record {
        on = ap (λ r. r.0) same ∙ i.on;
        accounted = sh.accounted;
        rated = rw (ap (λ r. r.1) same) i.rated;
        spanned = omega (arith, i.spanned, ap (λ r. r.1.span) same);
      },
      ground (arith, sh.conserved, sh.reported, sh.unthrottled, few),
      omega (arith, sh.conserved, sh.unthrottled),
      ground (arith, sh.reported),
      ap (λ r. r.2) same,
    )

pub serve_list-IsListSound :
    (now quota fraction slaves : ℕ) (s : ThrottleState)
    → IsListSound now s.list
    → s.unused_quota + own s.list < 2 ^ 32
    → (s' : ThrottleState) × (serve_list quota fraction slaves s ≡ ok s')
      × IsListSound now s'.list
      × (s'.unused_quota + own s'.list ≡ s.unused_quota + own s.list)
      × (s'.list.rate_added ≡ s.list.rate_added)
unfolding serve_list
serve_list-IsListSound now quota fraction slaves s i few =
    let need = need_of quota fraction s.max_rate in
    elim (Bool-cases (s.next_slave == slaves && leb need s.unused_quota)) [
      | inr later ↦ (s, rw later refl, i, refl, refl)
      | inl all ↦
          let le : need ≤ s.unused_quota = ground (arith, all) in
          let (l', used, run, i', e, b, small, rates) =
            update_quota-IsListSound now s.list need i (omega (arith, le, few)) in
          (
            record s { list = l'; unused_quota = sub32 s.unused_quota used; next_slave = 0 },
            rw all (rw run refl),
            i',
            moved s.unused_quota need used (own s.list) (own l') e b small le few,
            rates,
          )
    ]

pub give_back-conserved :
    (quota : ℕ) (s : ThrottleState) (before rest : ℕ)
    → s.unused_quota + rest ≡ before + quota
    → before + quota < 2 ^ 32
    → ((give_back quota s).0.unused_quota + rest ≡ add32 before (give_back quota s).1)
      × ((give_back quota s).0.unused_quota + rest ≤ before + quota)
      × ((give_back quota s).1 < 2 ^ 32)
      × ((give_back quota s).0.list ≡ s.list)
unfolding give_back
give_back-conserved quota s before rest e f = elim (Bool-cases (ltb quota s.unused_quota)) [
  | inl much ↦
      rw much
        (ground (arith, e, f, much), ground (arith, e, f, much), ground (arith, e, f, much), refl)
  | inr little ↦ rw little (ground (arith, e, f), ground (arith, e, f), omega (arith, f), refl)
]
