-- ===== src/Throttle/Spending.antt =====
-- `ThrottleList::node_used` and `node_used_unthrottled`: what is transferred is taken from the quota.
use libtorrent.Rate.{Rate}
use libtorrent.Common.{
  List, [], arith, if◌then◌else◌, length, min, ok, refl, sub32, true, ℕ, ◌++◌, ◌+◌, ◌-◌, ◌<◌, ◌^◌,
  ◌∷◌, ◌≡◌, ◌≤◌, Bool, add32, false, ◌&&◌, Bool-cases, ap, inl, inr, not, ◌==◌, ◌||◌,
}
use libtorrent.Rate.Window.{IsValid, window, insert-window}
use libtorrent.Throttle.{
  ThrottleList, Node, ids, holds, quota_of, set_quota, node_quota_now, spend, is_active,
  is_inactive, is_throttled, node_used, add_rate,
}
use libtorrent.Throttle.Accounts.{total, IsAccounted}
use libtorrent.Throttle.Nodes.{quota_of_append, quota_of_absent}

module _ (id q : ℕ) where
  total-set_quota :
      (ns : List Node)
      → total (set_quota id q ns) + quota_of id ns ≡ total ns + (if holds id ns then q else 0)
  unfolding total set_quota quota_of holds
  total-set_quota [] = refl
  total-set_quota (n ∷ ns) = ground (arith, total-set_quota ns)

  ids-set_quota : (ns : List Node) → length (ids (set_quota id q ns)) ≡ length (ids ns)
  unfolding set_quota ids
  ids-set_quota [] = refl
  ids-set_quota (n ∷ ns) = ground (arith, ids-set_quota ns)

  holds-set_quota : (ns : List Node) → holds id (set_quota id q ns) ≡ holds id ns
  unfolding set_quota holds
  holds-set_quota [] = refl
  holds-set_quota (n ∷ ns) = ground (arith, holds-set_quota ns)

  quota_of-set_quota :
      (ns : List Node) → quota_of id (set_quota id q ns) ≡ (if holds id ns then q else 0)
  unfolding set_quota holds quota_of
  quota_of-set_quota [] = refl
  quota_of-set_quota (n ∷ ns) = ground (arith, quota_of-set_quota ns)

quota_of-le : (id : ℕ) (ns : List Node) → quota_of id ns ≤ total ns
unfolding quota_of total
quota_of-le id [] = omega arith
quota_of-le id (n ∷ ns) = ground (arith, quota_of-le id ns)

-- What the transfer of `used` bytes leaves, of which `taken` came from the node's quota.
pub record Spent (l l' : ThrottleList) (id used taken : ℕ) : Type 0 where
  pub accounted : IsAccounted l'
  pub paid : l'.outstanding + taken ≡ l.outstanding
  pub left : node_quota_now l' id + taken ≡ node_quota_now l id
  pub borrowed : l'.unallocated ≡ l.unallocated - (used - taken)

spend-Spent :
    (l : ThrottleList) (id used : ℕ)
    → IsAccounted l
    → used < 2 ^ 32
    → is_throttled l id ≡ true
    → (l' : ThrottleList) × (spend l id used ≡ ok l')
      × Spent l l' id used (min used (node_quota_now l id))
      × (l'.rate_slow ≡ l.rate_slow)
unfolding spend node_quota_now is_active is_inactive is_throttled
spend-Spent l id used a u t =
    let q = quota_of_append id l.active l.inactive in
    let now = quota_of id (l.active ++ l.inactive) in
    let quota = min used now in
    let left = sub32 now quota in
    let le1 = quota_of-le id l.active in
    let le2 = quota_of-le id l.inactive in
    let t1 = total-set_quota id left l.active in
    let t2 = total-set_quota id left l.inactive in
    let active : List Node = set_quota id left l.active in
    let inactive : List Node =
      if holds id l.active then l.inactive else set_quota id left l.inactive in
    let q' = quota_of_append id active inactive in
    let small : now ≤ l.outstanding = ground (arith, q, le1, le2, a.owed) in
    (
      record l {
        active = active;
        inactive = inactive;
        outstanding = sub32 l.outstanding quota;
        unallocated = sub32 l.unallocated (min (sub32 used quota) l.unallocated);
      },
      ground (arith, small),
      record {
        accounted = record {
          owed = ground (arith, q, small, t, t1, t2, a.owed, a.fits, quota_of_absent id l.active);
          fits = omega (arith, small, a.fits, u);
          chunks = a.chunks;
          max_fits = a.max_fits;
          counted =
              ground (
                arith,
                a.counted,
                ids-set_quota id left l.active,
                ids-set_quota id left l.inactive,
              );
        };
        paid = omega (arith, small, a.fits);
        left = ground (
          arith,
          q,
          q',
          t,
          small,
          a.fits,
          holds-set_quota id left l.active,
          quota_of-set_quota id left l.active,
          quota_of-set_quota id left l.inactive,
        );
        borrowed = omega (arith, small, a.fits, u);
      },
      refl,
    )

-- Whether `node_used` touches the accounts.
abbrev pub charges : ThrottleList → ℕ → Bool
charges l id = l.enabled && is_throttled l id

-- The part of `node_used` after the rates.
settle-Spent :
    (l : ThrottleList) (id used : ℕ)
    → IsAccounted l
    → used < 2 ^ 32
    → (l' : ThrottleList) × ((if used == 0 || not l.enabled || not (is_throttled l id)
          then ok l
          else spend l id used)
        ≡ ok l')
      × (l'.rate_slow ≡ l.rate_slow)
      × (charges l id ≡ true → Spent l l' id used (min used (node_quota_now l id)))
      × (charges l id ≡ false → l' ≡ l)
settle-Spent l id used a u =
    elim (Bool-cases (used == 0 || not l.enabled || not (is_throttled l id))) [
      | inl e ↦ (
        l,
        rw e refl,
        refl,
        λ c.
            let zero_used : used ≡ 0 = ground (arith, e, c) in
            record {
              accounted = a;
              paid = omega (arith, zero_used);
              left = omega (arith, zero_used);
              borrowed = omega (arith, zero_used);
            },
        λ c. refl,
      )
      | inr e ↦
          let (l', run, spent, same) = spend-Spent l id used a u (ground (arith, e)) in
          (l', rw e run, same, λ c. spent, λ c. absurd (ground (arith, e, c)))
    ]

-- For no more than 2 ^ 28 bytes, before 2 ^ 31 seconds, on sound accounts and valid rates whose
-- windows hold no more than 2 ^ 40 bytes, node_used never throws and keeps both rates valid; on an
-- enabled list a node in it pays with its quota first, and what is missing is borrowed from the
-- unallocated part as far as that goes, which leaves sound accounts; otherwise no quota changes.
pub node_used-Spent :
    (now : ℕ) (l : ThrottleList) (id : ℕ) (rate : Rate) (used : ℕ)
    → IsAccounted l
    → IsValid now l.rate_slow
    → IsValid now rate
    → used ≤ 2 ^ 28
    → window now l.rate_slow.span l.rate_slow.samples ≤ 2 ^ 40
    → window now rate.span rate.samples ≤ 2 ^ 40
    → now < 2 ^ 31
    → (l' : ThrottleList) × (rate' : Rate) × (node_used now l id rate used ≡ ok (l', rate'))
      × IsValid now l'.rate_slow
      × IsValid now rate'
      × (charges l id ≡ true → Spent l l' id used (min used (node_quota_now l id)))
      × (charges l id ≡ false
          → IsAccounted l' × (l'.outstanding ≡ l.outstanding) × (l'.unallocated ≡ l.unallocated))
unfolding node_used add_rate node_quota_now is_throttled is_active is_inactive
node_used-Spent now l id rate used a vs v u ws w early =
    let (slow, run1, ok1, _, _, _) = insert-window now used l.rate_slow vs u ws early in
    let (rate', run2, ok2, _, _, _) = insert-window now used rate v u w early in
    let l1 : ThrottleList = record l { rate_slow = slow; rate_added = add32 l.rate_added used } in
    let a1 : IsAccounted l1 = record {
      owed = a.owed;
      fits = a.fits;
      chunks = a.chunks;
      max_fits = a.max_fits;
      counted = a.counted;
    } in
    let (l', run3, same, spent, idle) = settle-Spent l1 id used a1 (omega (arith, u)) in
    (
      l',
      rate',
      rw (run1, run2, run3) refl,
      rw same ok1,
      ok2,
      λ c.
          let s = spent c in
          record { accounted = s.accounted; paid = s.paid; left = s.left; borrowed = s.borrowed },
      λ c. let e = idle c in (rw e a1, ap (λ k. k.outstanding) e, ap (λ k. k.unallocated) e),
    )
