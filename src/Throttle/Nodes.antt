-- ===== src/Throttle/Nodes.antt =====
-- `ThrottleList::insert`, `erase`, `node_deactivate` and `disable`: the accounts as nodes come and go.
use libtorrent.Common.{
  List, [], arith, false, if◌then◌else◌, length, refl, true, ℕ, ◌++◌, ◌+◌, ◌<◌, ◌^◌, ◌||◌, ◌∷◌, ◌≡◌,
  Bool-cases, add32, ap, inl, inr, ok, length-append, ◌∙◌, Bool,
}
use libtorrent.Throttle.{
  ThrottleList, Node, ids, holds, quota_of, remove, node_quota_now, take_out, is_active,
  is_inactive, is_throttled, erase, insert_active, append_node, allocate_quota, all_active, insert,
  node_deactivate, clear_quotas, disable, enable, none_active,
}
use libtorrent.Throttle.Accounts.{total, IsAccounted, allocate_quota-Moved, ids_append}

holds_append : (id : ℕ) (ns ms : List Node) → holds id (ns ++ ms) ≡ holds id ns || holds id ms
unfolding holds
holds_append id [] ms = refl
holds_append id (n ∷ ns) ms = ground (arith, holds_append id ns ms)

pub quota_of_absent : (id : ℕ) (ns : List Node) → holds id ns ≡ false → quota_of id ns ≡ 0
unfolding holds quota_of
quota_of_absent id [] h = refl
quota_of_absent id (n ∷ ns) h = ground (arith, quota_of_absent id ns)

pub quota_of_append :
    (id : ℕ) (ns ms : List Node)
    → quota_of id (ns ++ ms) ≡ (if holds id ns then quota_of id ns else quota_of id ms)
unfolding holds quota_of
quota_of_append id [] ms = refl
quota_of_append id (n ∷ ns) ms = ground (arith, quota_of_append id ns ms)

total-remove : (id : ℕ) (ns : List Node) → total (remove id ns) + quota_of id ns ≡ total ns
unfolding total remove quota_of
total-remove id [] = refl
total-remove id (n ∷ ns) = ground (arith, total-remove id ns)

length-remove :
    (id : ℕ) (ns : List Node)
    → length (ids (remove id ns)) + (if holds id ns then 1 else 0) ≡ length (ids ns)
unfolding ids remove holds
length-remove id [] = refl
length-remove id (n ∷ ns) = ground (arith, length-remove id ns)

-- What `erase` leaves: sound accounts, the quota of the node back in the unallocated part, and one node
-- less if it was there.
pub record Erased (l l' : ThrottleList) (id : ℕ) : Type 0 where
  pub accounted : IsAccounted l'
  pub reclaimed : l'.unallocated ≡ l.unallocated + node_quota_now l id
  pub repaid : l'.outstanding + node_quota_now l id ≡ l.outstanding
  pub fewer : l'.size + (if is_throttled l id then 1 else 0) ≡ l.size

take_out-Erased :
    (l : ThrottleList) (id : ℕ)
    → IsAccounted l
    → l.size < 2 ^ 32
    → is_throttled l id ≡ true
    → Erased l (take_out l id) id
unfolding take_out node_quota_now is_active is_throttled is_inactive
take_out-Erased l id a s t =
    let out1 = total-remove id l.active in
    let out2 = total-remove id l.inactive in
    let len1 = length-remove id l.active in
    let len2 = length-remove id l.inactive in
    let q = quota_of_append id l.active l.inactive in
    record {
      accounted = record {
        owed = ground (arith, out1, out2, q, a.owed, a.fits, quota_of_absent id l.active);
        fits = ground (arith, out1, out2, q, a.owed, a.fits);
        chunks = a.chunks;
        max_fits = a.max_fits;
        counted = ground (arith, len1, len2, a.counted, s, t);
      };
      reclaimed = ground (arith, out1, out2, q, a.owed, a.fits);
      repaid = ground (arith, out1, out2, q, a.owed, a.fits);
      fewer = ground (arith, len1, len2, a.counted, s, t);
    }

absent-Erased :
    (l : ThrottleList) (id : ℕ) → IsAccounted l → is_throttled l id ≡ false → Erased l l id
unfolding node_quota_now is_active is_throttled is_inactive
absent-Erased l id a t =
    let q = quota_of_append id l.active l.inactive in
    let none_here : quota_of id (l.active ++ l.inactive) ≡ 0 =
      ground (arith, q, t, quota_of_absent id l.active, quota_of_absent id l.inactive) in
    record {
      accounted = a;
      reclaimed = omega (arith, none_here);
      repaid = omega (arith, none_here);
      fewer = ground (arith, t);
    }

erase-runs :
    (l : ThrottleList) (id : ℕ)
    → IsAccounted l
    → l.size < 2 ^ 32
    → is_throttled l id ≡ true
    → erase l id ≡ ok (take_out l id)
unfolding erase
erase-runs l id a s t =
    let e = take_out-Erased l id a s t in rw t (ground (arith, e.repaid, e.fewer, t))

-- On a list with sound accounts `erase` never throws, and leaves sound accounts: the quota that the
-- node holds goes back to the unallocated part, and the size falls by one if the node was there.
pub erase-Erased :
    (l : ThrottleList) (id : ℕ)
    → IsAccounted l
    → l.size < 2 ^ 32
    → (l' : ThrottleList) × (erase l id ≡ ok l') × Erased l l' id
unfolding erase
erase-Erased l id a s = elim (Bool-cases (is_throttled l id)) [
  | inl t ↦ (take_out l id, erase-runs l id a s t, take_out-Erased l id a s t)
  | inr t ↦ (l, rw t refl, absent-Erased l id a t)
]

-- What `insert` leaves: sound accounts, the same quota in all, and the node in the list.
pub record Inserted (l l' : ThrottleList) (n : Node) : Type 0 where
  pub accounted : IsAccounted l'
  pub kept : l'.outstanding + l'.unallocated ≡ l.outstanding + l.unallocated
  pub there : is_throttled l' n.id ≡ true
  pub more : l'.size ≡ l.size + (if is_throttled l n.id then 0 else 1)

length-snoc : (ns : List Node) (n : Node) → length (ids (ns ++ (n ∷ []))) ≡ length (ids ns) + 1
unfolding ids
length-snoc [] n = refl
length-snoc (m ∷ ns) n = omega (arith, length-snoc ns n)

holds_last : (id : ℕ) (ns : List Node) (n : Node) → n.id ≡ id → holds id (ns ++ (n ∷ [])) ≡ true
unfolding holds
holds_last id [] n e = ground (arith, e)
holds_last id (m ∷ ns) n e = ground (arith, holds_last id ns n e)

total-snoc : (ns : List Node) (n : Node) → total (ns ++ (n ∷ [])) ≡ total ns + n.quota
unfolding total
total-snoc [] n = omega arith
total-snoc (m ∷ ns) n = omega (arith, total-snoc ns n)

module _ (l : ThrottleList) (n : Node) (a : IsAccounted l) (s : l.size + 1 < 2 ^ 32) where
  abbrev counted_once : (l' : ThrottleList) → ThrottleList
  counted_once l' = record l' { size = add32 l'.size 1 }

  insert_active-Inserted :
      n.quota ≡ 0 → is_throttled l n.id ≡ false → Inserted l (counted_once (insert_active l n)) n
  unfolding insert_active is_throttled is_active is_inactive
  insert_active-Inserted q t =
      let m =
        allocate_quota-Moved l n (omega (arith, a.fits)) (omega (arith, q)) a.chunks a.max_fits in
      let act = ap (λ k. k.active) m.rest in
      let inact = ap (λ k. k.inactive) m.rest in
      let out = allocate_quota l n in
      record {
        accounted = record {
          owed = omega (
            arith,
            m.paid,
            q,
            a.owed,
            total-snoc out.0.active out.1,
            ap total act,
            ap total inact,
          );
          fits = omega (arith, m.kept, a.fits, ap (λ k. k.unused_unthrottled) m.rest);
          chunks =
              omega (arith, ap (λ k. k.min_chunk) m.rest, ap (λ k. k.max_chunk) m.rest, a.chunks);
          max_fits = omega (arith, ap (λ k. k.max_chunk) m.rest, a.max_fits);
          counted = omega (
            arith,
            ap (λ k. k.size) m.rest,
            s,
            a.counted,
            length-snoc out.0.active out.1,
            ap (λ k. length (ids k)) act,
            ap (λ k. length (ids k)) inact,
          );
        };
        kept = m.kept;
        there = rw (holds_last n.id out.0.active out.1 m.id) refl;
        more = ground (arith, t, ap (λ k. k.size) m.rest, s);
      }

  append_node-Inserted :
      is_throttled l n.id ≡ false
      → Inserted l (counted_once (append_node l (record n { quota = 0 }))) n
  unfolding append_node is_throttled is_active is_inactive
  append_node-Inserted t =
      let zeroed : Node = record n { quota = 0 } in
      elim (Bool-cases (all_active l)) [
        | inl e ↦ rw e (record {
          accounted = record {
            owed = omega (arith, a.owed, total-snoc l.active zeroed);
            fits = a.fits;
            chunks = a.chunks;
            max_fits = a.max_fits;
            counted = omega (arith, s, a.counted, length-snoc l.active zeroed);
          };
          kept = refl;
          there = rw (holds_last n.id l.active zeroed refl) refl;
          more = ground (arith, t, s);
        })
        | inr e ↦ rw e (record {
          accounted = record {
            owed = omega (arith, a.owed, total-snoc l.inactive zeroed);
            fits = a.fits;
            chunks = a.chunks;
            max_fits = a.max_fits;
            counted = omega (arith, s, a.counted, length-snoc l.inactive zeroed);
          };
          kept = refl;
          there = ground (arith, holds_last n.id l.inactive zeroed refl);
          more = ground (arith, t, s);
        })
      ]

  either :
      (x y : ThrottleList) (b : Bool)
      → Inserted l (counted_once x) n
      → Inserted l (counted_once y) n
      → Inserted l (counted_once (if b then x else y)) n
  either x y true here there = here
  either x y false here there = there

-- On a list with sound accounts, `insert` of a node without quota leaves sound accounts with the same
-- quota in all, and the node in the list, which grows by one unless the node was there.
pub insert-Inserted :
    (l : ThrottleList) (n : Node)
    → IsAccounted l
    → l.size + 1 < 2 ^ 32
    → n.quota ≡ 0
    → Inserted l (insert l n) n
unfolding insert
insert-Inserted l n a s q = elim (Bool-cases (is_throttled l n.id)) [
  | inl t ↦ rw t (record { accounted = a; kept = refl; there = t; more = ground (arith, t) })
  | inr t ↦ rw t (
      either l n a s _ _ l.enabled (insert_active-Inserted l n a s q t)
        (append_node-Inserted l n a s t))
]

-- `node_deactivate` moves an active node, with its quota, behind all inactive ones, and keeps the
-- accounts sound.
pub node_deactivate-IsAccounted :
    (l : ThrottleList) (id : ℕ)
    → IsAccounted l
    → is_active l id ≡ true
    → (l' : ThrottleList) × (node_deactivate l id ≡ ok l')
      × IsAccounted l'
      × (is_inactive l' id ≡ true)
      × (l'.outstanding + l'.unallocated ≡ l.outstanding + l.unallocated)
unfolding node_deactivate is_active is_inactive
node_deactivate-IsAccounted l id a t =
    let moved : Node = record { id = id; quota = quota_of id l.active } in
    (
      record l { active = remove id l.active; inactive = l.inactive ++ (moved ∷ []) },
      rw t refl,
      record {
        owed = omega (arith, a.owed, total-remove id l.active, total-snoc l.inactive moved);
        fits = a.fits;
        chunks = a.chunks;
        max_fits = a.max_fits;
        counted =
            ground (arith, a.counted, t, length-remove id l.active, length-snoc l.inactive moved);
      },
      holds_last id l.inactive moved refl,
      refl,
    )

total-clear_quotas : (ns : List Node) → total (clear_quotas ns) ≡ 0
unfolding total clear_quotas
total-clear_quotas [] = refl
total-clear_quotas (n ∷ ns) = omega (arith, total-clear_quotas ns)

ids-clear_quotas : (ns : List Node) → ids (clear_quotas ns) ≡ ids ns
unfolding ids clear_quotas
ids-clear_quotas [] = refl
ids-clear_quotas (n ∷ ns) = ap (λ k. n.id ∷ k) (ids-clear_quotas ns)

quota_of-clear_quotas : (id : ℕ) (ns : List Node) → quota_of id (clear_quotas ns) ≡ 0
unfolding quota_of clear_quotas
quota_of-clear_quotas id [] = refl
quota_of-clear_quotas id (n ∷ ns) = ground (arith, quota_of-clear_quotas id ns)

-- A list whose nodes are all active can be enabled.
enable-all_active :
    (l : ThrottleList)
    → l.enabled ≡ false
    → l.inactive ≡ []
    → enable l ≡ ok (record l { enabled = true })
unfolding enable none_active
enable-all_active l off active = ground (arith, off, active)

-- `disable` on an enabled list makes every node active, in order, calls the inactive ones, and leaves
-- sound accounts without any quota: nothing is outstanding, unallocated or unthrottled, and no node has any.
-- The list can be enabled again.
pub disable-IsAccounted :
    (l : ThrottleList)
    → IsAccounted l
    → l.enabled ≡ true
    → IsAccounted (disable l)
      × (ids (disable l).active ≡ ids l.active ++ ids l.inactive)
      × ((disable l).inactive ≡ [])
      × ((disable l).activated ≡ l.activated ++ ids l.inactive)
      × ((disable l).outstanding + (disable l).unallocated + (disable l).unused_unthrottled ≡ 0)
      × ((id : ℕ) → node_quota_now (disable l) id ≡ 0)
      × (enable (disable l) ≡ ok (record (disable l) { enabled = true }))
unfolding disable node_quota_now quota_of
disable-IsAccounted l a e =
    let order = ids-clear_quotas (l.active ++ l.inactive) ∙ ids_append l.active l.inactive in
    rw e (
      record {
        owed = unfold total in omega (arith, total-clear_quotas (l.active ++ l.inactive));
        fits = omega arith;
        chunks = a.chunks;
        max_fits = a.max_fits;
        counted =
            unfold ids in
            omega
              (arith, a.counted, ap length order, length-append (ids l.active) (ids l.inactive));
      },
      order,
      refl,
      refl,
      refl,
      λ id.
          let ns = clear_quotas (l.active ++ l.inactive) in
          ground
            (arith, quota_of_append id ns [], quota_of-clear_quotas id (l.active ++ l.inactive)),
      enable-all_active _ refl refl,
    )
