-- ===== src/Throttle/Quota.antt =====
-- `ThrottleList::update_quota`: who is woken, and where the quota goes.
use mathlib.Core.List.{append_assoc}
use libtorrent.Common.{
  Bool-cases, List, [], ap, arith, inl, inr, ltb, refl, sym, ℕ, ◌++◌, ◌+◌, ◌<◌, ◌^◌, ◌∙◌, ◌∷◌, ◌≡◌,
  ◌≤◌, ◌⊎◌, ltb→ge, ltb→lt, ok, sub32, true, ◌-◌, length, length-append,
}
use libtorrent.Throttle.{
  ThrottleList, Node, allocate_quota, wake, ids, offer, update_quota, cut_quota,
}
use libtorrent.Throttle.Accounts.{
  total, total_append, ids_append, Moved, allocate_quota-Moved, IsAccounted,
}

-- What the loop leaves, from `l` with the inactive nodes `ns`: the nodes that `fresh` names went to the end of
-- the active part and had their slot called, the others stay in order, and the quota is accounted.
pub record Woke (l l' : ThrottleList) (ns : List Node) (fresh : List ℕ) : Type 0 where
  pub joined : ids l'.active ≡ ids l.active ++ fresh
  pub called : l'.activated ≡ l.activated ++ fresh
  pub order : fresh ++ ids l'.inactive ≡ ids ns
  pub owed :
      l'.outstanding + (total l.active + total ns)
      ≡ l.outstanding + (total l'.active + total l'.inactive)
  pub kept : l'.outstanding + l'.unallocated ≡ l.outstanding + l.unallocated
  pub waits : (l'.inactive ≡ []) ⊎ (l'.unallocated ≡ 0)
  pub unthrottled : l'.unused_unthrottled ≡ l.unused_unthrottled
  pub min_same : l'.min_chunk ≡ l.min_chunk
  pub max_same : l'.max_chunk ≡ l.max_chunk
  pub on : l'.enabled ≡ l.enabled
  pub size_same : l'.size ≡ l.size

append_nil : (xs : List ℕ) → xs ++ [] ≡ xs
append_nil [] = refl
append_nil (x ∷ xs) = ap (λ ys. x ∷ ys) (append_nil xs)

module _ (l : ThrottleList) (n : Node) (ns : List Node) where
  abbrev given : ThrottleList
  given = (allocate_quota l n).0

  abbrev paid : Node
  paid = (allocate_quota l n).1

  abbrev next : ThrottleList
  next = record given {
    active = given.active ++ (paid ∷ []);
    activated = given.activated ++ (n.id ∷ []);
  }

  Woke-stay :
      Moved l given n paid
      → paid.quota < l.min_chunk
      → Woke l (record given { inactive = paid ∷ ns }) (n ∷ ns) []
  unfolding ids total
  Woke-stay m lt = record {
    joined = ap (λ k. ids k.active) m.rest ∙ sym (append_nil (ids l.active));
    called = ap (λ k. k.activated) m.rest ∙ sym (append_nil l.activated);
    order = ap (λ i. i ∷ ids ns) m.id;
    owed = omega (arith, m.paid, ap (λ k. total k.active) m.rest);
    kept = m.kept;
    waits = ground (arith, m.enough, lt);
    unthrottled = ap (λ k. k.unused_unthrottled) m.rest;
    min_same = ap (λ k. k.min_chunk) m.rest;
    max_same = ap (λ k. k.max_chunk) m.rest;
    on = ap (λ k. k.enabled) m.rest;
    size_same = ap (λ k. k.size) m.rest;
  }

  Woke-next :
      {l' : ThrottleList} {fresh : List ℕ}
      → Moved l given n paid
      → Woke next l' ns fresh
      → Woke l l' (n ∷ ns) (n.id ∷ fresh)
  unfolding ids total
  Woke-next {fresh = fresh} m w = record {
    joined =
        w.joined
        ∙ ap (λ k. k ++ fresh)
            (ids_append given.active (paid ∷ [])
              ∙ ap (λ k. ids k.active ++ (paid.id ∷ [])) m.rest
              ∙ ap (λ i. ids l.active ++ (i ∷ [])) m.id)
        ∙ append_assoc (ids l.active) (n.id ∷ []) fresh;
    called =
        w.called
        ∙ ap (λ k. (k.activated ++ (n.id ∷ [])) ++ fresh) m.rest
        ∙ append_assoc l.activated (n.id ∷ []) fresh;
    order = ap (λ is. n.id ∷ is) w.order;
    owed = omega (
      arith,
      m.paid,
      w.owed,
      total_append given.active (paid ∷ []),
      ap (λ k. total k.active) m.rest,
    );
    kept = w.kept ∙ m.kept;
    waits = w.waits;
    unthrottled = w.unthrottled ∙ ap (λ k. k.unused_unthrottled) m.rest;
    min_same = w.min_same ∙ ap (λ k. k.min_chunk) m.rest;
    max_same = w.max_same ∙ ap (λ k. k.max_chunk) m.rest;
    on = w.on ∙ ap (λ k. k.enabled) m.rest;
    size_same = w.size_same ∙ ap (λ k. k.size) m.rest;
  }

wake-Woke :
    (l : ThrottleList) (ns : List Node)
    → l.outstanding + l.unallocated < 2 ^ 32
    → total ns ≤ l.outstanding
    → l.min_chunk ≤ l.max_chunk
    → l.max_chunk < 2 ^ 32
    → (fresh : List ℕ) × Woke l (wake l ns) ns fresh
unfolding wake
wake-Woke l [] f q c x = (
  [],
  record {
    joined = sym (append_nil (ids l.active));
    called = sym (append_nil l.activated);
    order = unfold ids in refl;
    owed = unfold total in omega arith;
    kept = refl;
    waits = inl refl;
    unthrottled = refl;
    min_same = refl;
    max_same = refl;
    on = refl;
    size_same = refl;
  },
)
wake-Woke l (n ∷ ns) f q c x =
    let m = allocate_quota-Moved l n f (omega (arith, head_le)) c x in
    let min_same = ap (λ k. k.min_chunk) m.rest in
    let max_same = ap (λ k. k.max_chunk) m.rest in
    elim (Bool-cases (ltb (allocate_quota l n).1.quota l.min_chunk)) [
      | inl lt ↦ ([], rw lt (Woke-stay l n ns m (ground (arith, lt))))
      | inr ge ↦
          let rest =
            wake-Woke (next l n ns) ns (omega (arith, m.kept)) (omega (arith, head_le, m.paid))
              (omega (arith, min_same, max_same)) (omega (arith, max_same)) in
          (n.id ∷ rest.0, rw ge (Woke-next l n ns m rest.1))
    ]
  where
    head_le : n.quota + total ns ≤ l.outstanding
    head_le = unfold total in q

-- The outcome of `update_quota`: `fresh` names the nodes that are woken, and `excess` is what is taken
-- out of the accounts so that no more than `quota` stays unallocated.
pub record Shared (l l' : ThrottleList) (quota used excess : ℕ) (fresh : List ℕ) : Type 0 where
  pub accounted : IsAccounted l'
  pub conserved :
      l'.outstanding + l'.unallocated + excess
      ≡ l.outstanding + l.unallocated + l.unused_unthrottled
  pub reported : used ≡ sub32 quota excess
  pub unthrottled : l'.unused_unthrottled ≡ quota
  pub bounded : l'.unallocated ≤ quota
  pub joined : ids l'.active ≡ ids l.active ++ fresh
  pub called : l'.activated ≡ l.activated ++ fresh
  pub order : fresh ++ ids l'.inactive ≡ ids l.inactive
  pub waits : (l'.inactive ≡ []) ⊎ (l'.unallocated ≡ 0)

Woke-length :
    {l w : ThrottleList} {ns : List Node} {fresh : List ℕ}
    → Woke l w ns fresh
    → length (ids w.active) + length (ids w.inactive) ≡ length (ids l.active) + length (ids ns)
Woke-length {l = l} {w = w} {fresh = fresh} k = omega (
  arith,
  ap length k.joined,
  length-append (ids l.active) fresh,
  ap length k.order,
  length-append fresh (ids w.inactive),
)

cut_quota-Shared :
    (l w : ThrottleList) (quota : ℕ) (fresh : List ℕ)
    → IsAccounted l
    → l.outstanding + l.unallocated + l.unused_unthrottled + quota < 2 ^ 32
    → Woke (offer l quota) w l.inactive fresh
    → (excess : ℕ) × Shared l (cut_quota w quota).0 quota (cut_quota w quota).1 excess fresh
unfolding offer cut_quota
cut_quota-Shared l w quota fresh a f k = elim (Bool-cases (ltb quota w.unallocated)) [
  | inl lt ↦ (
    w.unallocated - quota,
    rw lt (record {
      accounted = record {
        owed = omega (arith, k.owed, a.owed);
        fits = omega (arith, k.kept, k.unthrottled, f, ltb→lt quota w.unallocated lt);
        chunks = omega (arith, k.min_same, k.max_same, a.chunks);
        max_fits = omega (arith, k.max_same, a.max_fits);
        counted = omega (arith, k.size_same, a.counted, Woke-length k);
      };
      conserved = omega (arith, k.kept, f, ltb→lt quota w.unallocated lt);
      reported = omega (arith, k.kept, f, ltb→lt quota w.unallocated lt);
      unthrottled = k.unthrottled;
      bounded = omega arith;
      joined = k.joined;
      called = k.called;
      order = k.order;
      waits = ground (arith, k.waits, lt);
    }),
  )
  | inr ge ↦ (
    0,
    rw ge (record {
      accounted = record {
        owed = omega (arith, k.owed, a.owed);
        fits = omega (arith, k.kept, k.unthrottled, f);
        chunks = omega (arith, k.min_same, k.max_same, a.chunks);
        max_fits = omega (arith, k.max_same, a.max_fits);
        counted = omega (arith, k.size_same, a.counted, Woke-length k);
      };
      conserved = omega (arith, k.kept, f);
      reported = omega (arith, f);
      unthrottled = k.unthrottled;
      bounded = ltb→ge quota w.unallocated ge;
      joined = k.joined;
      called = k.called;
      order = k.order;
      waits = k.waits;
    }),
  )
]

-- On an enabled list with sound accounts and quota that fits 32 bits, `update_quota` succeeds and keeps
-- the accounts sound: what it takes out is what it reports, the rest moves between the nodes and the
-- unallocated part, the nodes it wakes are the first of the inactive ones in their order, each
-- called once, and a node is left waiting only if nothing stays unallocated.
pub update_quota-Shared :
    (l : ThrottleList) (quota : ℕ)
    → l.enabled ≡ true
    → IsAccounted l
    → l.outstanding + l.unallocated + l.unused_unthrottled + quota < 2 ^ 32
    → (l' : ThrottleList) × (used excess : ℕ) × (fresh : List ℕ) × (update_quota l quota
        ≡ ok (l', used))
      × Shared l l' quota used excess fresh
unfolding update_quota
update_quota-Shared l quota e a f =
    let w = wake (offer l quota) l.inactive in
    let k =
      wake-Woke (offer l quota) l.inactive (unfold offer in omega (arith, f))
        (unfold offer in omega (arith, a.owed)) (unfold offer in a.chunks)
        (unfold offer in a.max_fits) in
    let c = cut_quota-Shared l w quota k.0 a f k.1 in
    ((cut_quota w quota).0, (cut_quota w quota).1, c.0, k.0, rw e refl, c.1)
