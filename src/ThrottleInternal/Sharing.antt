-- ===== src/ThrottleInternal/Sharing.antt =====
-- `receive_quota` of src/net/throttle_internal.cc: quota is neither made nor lost in a tree of throttles.
use libtorrent.ThrottleInternal.{
  ThrottleInternal, throttle, Slaves, no_slave, slave, ThrottleState, state_of, slave_count,
  need_of, reset_rate_added, give_back, receive_quota, serve_slaves,
}
use libtorrent.Rate.Window.{window}
use libtorrent.Common.{
  ℕ, zero, suc, ◌+◌, ◌^◌, ◌≤◌, ◌<◌, Bool-cases, ltb, ok, add32, sub32, ◌≡◌, refl, ap, ◌∙◌, inl, inr,
  arith,
}
use libtorrent.ThrottleInternal.Lists.{
  own, IsListSound, moved, add_rate-IsListSound, serve_list-IsListSound, give_back-conserved,
}

-- All the quota in a tree: what throttles keep, and what their lists and nodes have.
unfoldable mutual
  pub quota_in : ThrottleInternal → ℕ
  quota_in (throttle s slaves) = s.unused_quota + own s.list + quota_in_all slaves

  pub quota_in_all : Slaves → ℕ
  quota_in_all no_slave = 0
  quota_in_all (slave t rest) = quota_in t + quota_in_all rest

-- The bytes that lists of the tree have counted and not told yet.
unfoldable mutual
  pub due : ThrottleInternal → ℕ
  due (throttle s slaves) = s.list.rate_added + due_all slaves

  pub due_all : Slaves → ℕ
  due_all no_slave = 0
  due_all (slave t rest) = due t + due_all rest

unfoldable mutual
  pub IsSound : ℕ → ThrottleInternal → Type 0
  IsSound now (throttle s slaves) = IsListSound now s.list × AreSound now slaves

  pub AreSound : ℕ → Slaves → Type 0
  AreSound now no_slave = Unit
  AreSound now (slave t rest) = IsSound now t × AreSound now rest

-- The rates can take what is due.
unfoldable mutual
  pub HasRoom : ℕ → ThrottleInternal → Type 0
  HasRoom now (throttle s slaves) =
      (s.list.rate_added + due_all slaves ≤ 2 ^ 28)
      × (window now s.list.rate_slow.span s.list.rate_slow.samples + due_all slaves ≤ 2 ^ 40)
      × HaveRoom now slaves

  pub HaveRoom : ℕ → Slaves → Type 0
  HaveRoom now no_slave = Unit
  HaveRoom now (slave t rest) = HasRoom now t × HaveRoom now rest

-- What a throttle has after it received quota, of which it used some.
pub record IsServed (now quota : ℕ) (t t' : ThrottleInternal) (used : ℕ) : Type 0 where
  pub conserved : quota_in t' ≡ add32 (quota_in t) used
  pub bounded : quota_in t' ≤ quota_in t + quota
  pub small : used < 2 ^ 32
  pub sound : IsSound now t'
  pub told : (state_of t').list.rate_added ≤ due t

record AreServed (now : ℕ) (s s' : ThrottleState) (rest rest' : Slaves) : Type 0 where
  kept : s'.unused_quota + quota_in_all rest' ≡ s.unused_quota + quota_in_all rest
  same : own s'.list ≡ own s.list
  list : IsListSound now s'.list
  told : s'.list.rate_added ≤ s.list.rate_added + due_all rest
  sound : AreSound now rest'

reset-quota_in : (t : ThrottleInternal) → quota_in (reset_rate_added t) ≡ quota_in t
unfolding quota_in reset_rate_added
reset-quota_in (throttle s slaves) = refl

reset-IsSound : (now : ℕ) (t : ThrottleInternal) → IsSound now t → IsSound now (reset_rate_added t)
unfolding IsSound reset_rate_added
reset-IsSound now (throttle s slaves) (i, all) = (
  record {
    on = i.on;
    accounted = record {
      owed = i.accounted.owed;
      fits = i.accounted.fits;
      chunks = i.accounted.chunks;
      max_fits = i.accounted.max_fits;
      counted = i.accounted.counted;
    };
    rated = i.rated;
    spanned = i.spanned;
  },
  all,
)

mutual
  unfolding IsSound HasRoom quota_in due receive_quota serve_slaves

  tree-IsServed :
      (now quota fraction : ℕ) (t : ThrottleInternal)
      → now < 2 ^ 31
      → IsSound now t
      → HasRoom now t
      → quota_in t + quota < 2 ^ 32
      → (t' : ThrottleInternal) × (used : ℕ) × (receive_quota now quota fraction t ≡ ok (t', used))
        × IsServed now quota t t' used
  tree-IsServed now quota fraction (throttle s slaves) early (i, all) (few, room, each) fits =
      let s0 : ThrottleState = record s { unused_quota = add32 s.unused_quota quota } in
      let start : s0.unused_quota ≡ s.unused_quota + quota = ground (arith, fits) in
      let (s1, slaves1, run1, d1) =
        slaves-AreServed now quota fraction s.next_slave s0 slaves early i all few room each
          (omega (arith, start, fits)) in
      let (s2, run2, i2, kept2, told2) =
        serve_list-IsListSound now quota fraction (slave_count slaves) s1 d1.list
          (omega (arith, d1.kept, d1.same, start, fits)) in
      let back =
        give_back-conserved quota s2 (quota_in (throttle s slaves))
          (own s2.list + quota_in_all slaves1) (omega (arith, d1.kept, d1.same, kept2, start))
          fits in
      (
        throttle (give_back quota s2).0 slaves1,
        (give_back quota s2).1,
        rw run1 (rw run2 refl),
        record {
          conserved = omega (arith, back.0, ap own back.3);
          bounded = omega (arith, back.1, ap own back.3);
          small = back.2;
          sound = (rw (back.3) i2, d1.sound);
          told = omega (arith, ap (λ l. l.rate_added) back.3, told2, d1.told);
        },
      )

  slaves-AreServed :
      (now quota fraction skipped : ℕ) (s : ThrottleState) (rest : Slaves)
      → now < 2 ^ 31
      → IsListSound now s.list
      → AreSound now rest
      → s.list.rate_added + due_all rest ≤ 2 ^ 28
      → window now s.list.rate_slow.span s.list.rate_slow.samples + due_all rest ≤ 2 ^ 40
      → HaveRoom now rest
      → s.unused_quota + own s.list + quota_in_all rest < 2 ^ 32
      → (s' : ThrottleState) × (rest' : Slaves) × (serve_slaves now quota fraction skipped s rest
          ≡ ok (s', rest'))
        × AreServed now s s' rest rest'
  slaves-AreServed now quota fraction skipped s no_slave early i all few room each fits = (
    s,
    no_slave,
    refl,
    record { kept = refl; same = refl; list = i; told = omega arith; sound = all },
  )
  slaves-AreServed now quota fraction (suc skipped) s (slave t rest) early i all few room each
        fits =
      let (s', rest', run, d) =
        slaves-AreServed now quota fraction skipped s rest early i all.1 (omega (arith, few))
          (omega (arith, room)) each.1 (omega (arith, fits)) in
      (
        s',
        slave t rest',
        rw run refl,
        record {
          kept = omega (arith, d.kept);
          same = d.same;
          list = d.list;
          told = omega (arith, d.told);
          sound = (all.0, d.sound);
        },
      )
  slaves-AreServed now quota fraction zero s (slave t rest) early i all few room each fits =
      let need = need_of quota fraction (state_of t).max_rate in
      elim (Bool-cases (ltb s.unused_quota need)) [
        | inl short ↦ (
          s,
          slave t rest,
          rw short refl,
          record { kept = refl; same = refl; list = i; told = omega arith; sound = all },
        )
        | inr enough ↦
            let le : need ≤ s.unused_quota = ground (arith, enough) in
            let (t', used, run1, d) =
              tree-IsServed now need fraction t early all.0 each.0 (omega (arith, le, fits)) in
            let (list, run2, il, same, counted, win) =
              add_rate-IsListSound now s.list (state_of t').list.rate_added i
                (omega (arith, d.told, few)) (omega (arith, room)) early in
            let s1 : ThrottleState = record s {
              list = list;
              unused_quota = sub32 s.unused_quota used;
              next_slave = s.next_slave + 1;
            } in
            let to_slave =
              moved s.unused_quota need used (quota_in t) (quota_in t') d.conserved d.bounded
                d.small le (omega (arith, fits)) in
            let (s2, rest', run3, d2) =
              slaves-AreServed now quota fraction zero s1 rest early il all.1
                (omega (arith, counted, d.told, few)) (omega (arith, win, d.told, room)) each.1
                (omega (arith, to_slave, same, fits)) in
            (
              s2,
              slave (reset_rate_added t') rest',
              rw enough (rw run1 (rw run2 (rw run3 refl))),
              record {
                kept = omega (arith, d2.kept, to_slave, reset-quota_in t');
                same = d2.same ∙ same;
                list = d2.list;
                told = omega (arith, d2.told, counted, d.told);
                sound = (reset-IsSound now t' d.sound, d2.sound);
              },
            )
      ]
