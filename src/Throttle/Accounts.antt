-- ===== src/Throttle/Accounts.antt =====
-- The accounts of a throttle list: the quota that is outstanding is what the nodes hold, and quota
-- only moves between the nodes, the unallocated and the unthrottled part.
use libtorrent.Common.{
  Bool-cases, List, [], ap, arith, inl, inr, leb, refl, ℕ, ◌++◌, ◌+◌, ◌<◌, ◌^◌, ◌∷◌, ◌≡◌, ◌≤◌, ◌⊎◌,
  length,
}
use libtorrent.Throttle.{ThrottleList, Node, allocate_quota, ids}

unfoldable pub total : List Node → ℕ
total [] = 0
total (n ∷ ns) = n.quota + total ns

pub record IsAccounted (l : ThrottleList) : Type 0 where
  pub owed : l.outstanding ≡ total l.active + total l.inactive
  pub fits : l.outstanding + l.unallocated + l.unused_unthrottled < 2 ^ 32
  pub chunks : l.min_chunk ≤ l.max_chunk
  pub max_fits : l.max_chunk < 2 ^ 32
  pub counted : l.size ≡ length (ids l.active) + length (ids l.inactive)

pub total_append : (ns ms : List Node) → total (ns ++ ms) ≡ total ns + total ms
unfolding total
total_append [] ms = omega arith
total_append (n ∷ ns) ms = omega (arith, total_append ns ms)

pub ids_append : (ns ms : List Node) → ids (ns ++ ms) ≡ ids ns ++ ids ms
unfolding ids
ids_append [] ms = refl
ids_append (n ∷ ns) ms = ap (λ k. n.id ∷ k) (ids_append ns ms)

-- What `allocate_quota` moves from the list to a node, and that either the node gets enough or
-- nothing is left.
pub record Moved (l l' : ThrottleList) (n n' : Node) : Type 0 where
  pub id : n'.id ≡ n.id
  pub paid : l'.outstanding + n.quota ≡ l.outstanding + n'.quota
  pub kept : l'.outstanding + l'.unallocated ≡ l.outstanding + l.unallocated
  pub enough : (l.min_chunk ≤ n'.quota) ⊎ (l'.unallocated ≡ 0)
  pub rest : l' ≡ record l { outstanding = l'.outstanding; unallocated = l'.unallocated }

pub allocate_quota-Moved :
    (l : ThrottleList) (n : Node)
    → l.outstanding + l.unallocated < 2 ^ 32
    → n.quota ≤ l.outstanding
    → l.min_chunk ≤ l.max_chunk
    → l.max_chunk < 2 ^ 32
    → Moved l (allocate_quota l n).0 n (allocate_quota l n).1
unfolding allocate_quota
allocate_quota-Moved l n f q c m = elim (Bool-cases (leb l.min_chunk n.quota)) [
  | inl e ↦ rw e (record {
    id = refl;
    paid = refl;
    kept = refl;
    enough = inl (ground (arith, e));
    rest = refl;
  })
  | inr e ↦ rw e (record {
    id = refl;
    paid = ground (arith, e);
    kept = ground (arith, e);
    enough = ground (arith, e);
    rest = refl;
  })
]
