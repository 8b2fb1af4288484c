-- ===== src/Throttle.antt =====
-- src/net/throttle_list.h and throttle_list.cc, src/net/throttle_node.h: how quota for bytes is
-- shared among the nodes of one direction. The list is split at `m_splitActive` into `active` and
-- `inactive`; a node is named by its id, and the calls of activation slots are logged in `activated`.
pub mod Accounts
pub mod Quota
pub mod Nodes
pub mod Spending
use libtorrent.Common.{
  Bool, List, Result, [], add32, err, false, if◌then◌else◌, internal_error, leb, ltb, min, not, ok,
  sub32, throw_if, true, ℕ, ◌&&◌, ◌++◌, ◌-◌, ◌==◌, ◌>>=◌, ◌>>◌, ◌^◌, ◌||◌, ◌∷◌,
}
use libtorrent.Rate.{Rate}
use libtorrent.Rate

pub record Node : Type 0 where
  pub id : ℕ
  pub quota : ℕ

pub record ThrottleList : Type 0 where
  pub enabled : Bool
  pub size : ℕ
  pub outstanding : ℕ
  pub unallocated : ℕ
  pub unused_unthrottled : ℕ
  pub rate_added : ℕ
  pub min_chunk : ℕ
  pub max_chunk : ℕ
  pub rate_slow : Rate
  pub active : List Node
  pub inactive : List Node
  pub activated : List ℕ

unfoldable pub holds : ℕ → List Node → Bool
holds id [] = false
holds id (n ∷ ns) = n.id == id || holds id ns

-- `std::find` over the active and over the inactive part, and `list_iterator() != end()`.
unfoldable pub is_active : ThrottleList → ℕ → Bool
is_active l id = holds id l.active

unfoldable pub is_inactive : ThrottleList → ℕ → Bool
is_inactive l id = holds id l.inactive

unfoldable pub is_throttled : ThrottleList → ℕ → Bool
unfolding is_active is_inactive
is_throttled l id = is_active l id || is_inactive l id

unfoldable pub quota_of : ℕ → List Node → ℕ
quota_of id [] = 0
quota_of id (n ∷ ns) = let rest = quota_of id ns in if n.id == id then n.quota else rest

unfoldable pub node_quota_now : ThrottleList → ℕ → ℕ
node_quota_now l id = quota_of id (l.active ++ l.inactive)

-- `allocate_quota`: the list and the node after it.
unfoldable pub allocate_quota : ThrottleList → Node → ThrottleList × Node
allocate_quota l n =
    if leb l.min_chunk n.quota
    then (l, n)
    else let quota = min (sub32 l.max_chunk n.quota) l.unallocated in
      (
        record l {
          outstanding = add32 l.outstanding quota;
          unallocated = sub32 l.unallocated quota;
        },
        record n { quota = add32 n.quota quota },
      )

-- `m_splitActive` is at `begin()` of a list that is not empty: nobody is active.
unfoldable pub none_active : ThrottleList → Bool
none_active l = elim l.active [
  | [] ↦ elim l.inactive [ [] ↦ false | n ∷ ns ↦ true ]
  | n ∷ ns ↦ false
]

unfoldable pub enable : ThrottleList → Result ThrottleList
unfolding none_active
enable l =
    if l.enabled
    then ok l
    else (do throw_if (none_active l) internal_error; ok (record l { enabled = true }))

unfoldable pub clear_quotas : List Node → List Node
clear_quotas [] = []
clear_quotas (n ∷ ns) = record n { quota = 0 } ∷ clear_quotas ns

unfoldable pub ids : List Node → List ℕ
ids [] = []
ids (n ∷ ns) = n.id ∷ ids ns

unfoldable pub disable : ThrottleList → ThrottleList
disable l =
    if l.enabled
    then record l {
      enabled = false;
      outstanding = 0;
      unallocated = 0;
      unused_unthrottled = 0;
      active = clear_quotas (l.active ++ l.inactive);
      inactive = [];
      activated = l.activated ++ ids l.inactive;
    }
    else l

-- The loop of `update_quota` over the inactive nodes, on a list whose inactive part is the argument.
unfoldable pub wake : ThrottleList → List Node → ThrottleList
wake l [] = record l { inactive = [] }
wake l (n ∷ ns) =
    let (l', n') = allocate_quota l n in
    let stay = record l' { inactive = n' ∷ ns } in
    let more =
      wake (record l' { active = l'.active ++ (n' ∷ []); activated = l'.activated ++ (n.id ∷ []) })
        ns in
    if ltb n'.quota l.min_chunk then stay else more

-- What exceeds the new quota is taken back. The result is the bit pattern of an int32_t.
unfoldable pub cut_quota : ThrottleList → ℕ → ThrottleList × ℕ
cut_quota l quota =
    if ltb quota l.unallocated
    then (record l { unallocated = quota }, sub32 quota (sub32 l.unallocated quota))
    else (l, quota)

unfoldable pub offer : ThrottleList → ℕ → ThrottleList
offer l quota = record l {
  unallocated = add32 l.unallocated l.unused_unthrottled;
  unused_unthrottled = quota;
}

unfoldable pub update_quota : ThrottleList → ℕ → Result (ThrottleList × ℕ)
unfolding offer
update_quota l quota =
    if l.enabled then ok (cut_quota (wake (offer l quota) l.inactive) quota) else err internal_error

unfoldable pub node_quota : ThrottleList → ℕ → Result ℕ
node_quota l id =
    let sum = add32 (node_quota_now l id) l.unallocated in
    if not l.enabled
    then ok (2 ^ 31 - 1)
    else if not (is_active l id)
    then err internal_error
    else if leb l.min_chunk sum
    then ok sum
    else ok 0

unfoldable pub add_rate : ℕ → ThrottleList → ℕ → Result ThrottleList
add_rate now l used = do
  slow ← Rate.insert now used l.rate_slow
  ok (record l { rate_slow = slow; rate_added = add32 l.rate_added used })

unfoldable pub set_quota : ℕ → ℕ → List Node → List Node
set_quota id q [] = []
set_quota id q (n ∷ ns) = if n.id == id then record n { quota = q } ∷ ns else n ∷ set_quota id q ns

-- The part of `node_used` after the rates.
unfoldable pub spend : ThrottleList → ℕ → ℕ → Result ThrottleList
spend l id used = do
  let quota = min used (node_quota_now l id)
  throw_if (ltb l.outstanding quota) internal_error
  let left = sub32 (node_quota_now l id) quota
  ok (record l {
    active = set_quota id left l.active;
    inactive = if is_active l id then l.inactive else set_quota id left l.inactive;
    outstanding = sub32 l.outstanding quota;
    unallocated = sub32 l.unallocated (min (sub32 used quota) l.unallocated);
  })

-- `node_used` returns `used`; the node's own rate is `rate`.
unfoldable pub node_used : ℕ → ThrottleList → ℕ → Rate → ℕ → Result (ThrottleList × Rate)
node_used now l id rate used = do
  l1 ← add_rate now l used
  rate' ← Rate.insert now used rate
  l2 ← if used == 0 || not l1.enabled || not (is_throttled l1 id) then ok l1 else spend l1 id used
  ok (l2, rate')

unfoldable pub node_used_unthrottled : ℕ → ThrottleList → ℕ → Result ThrottleList
node_used_unthrottled now l used = do
  l1 ← add_rate now l used
  let avail = min used l1.unused_unthrottled
  ok (record l1 {
    unused_unthrottled = sub32 l1.unused_unthrottled avail;
    unallocated = sub32 l1.unallocated (min (sub32 used avail) l1.unallocated);
  })

unfoldable pub remove : ℕ → List Node → List Node
remove id [] = []
remove id (n ∷ ns) = if n.id == id then ns else n ∷ remove id ns

-- `splice` to the end; if all were active, the split comes to stand on the node.
unfoldable pub node_deactivate : ThrottleList → ℕ → Result ThrottleList
node_deactivate l id =
    if is_active l id
    then ok (record l {
      active = remove id l.active;
      inactive = l.inactive ++ (record { id = id; quota = quota_of id l.active } ∷ []);
    })
    else err internal_error

-- `m_splitActive == end()`.
unfoldable pub all_active : ThrottleList → Bool
all_active l = elim l.inactive [ [] ↦ true | n ∷ ns ↦ false ]

-- `base_type::insert(end(), node)`, which makes an active node if all are active.
unfoldable pub append_node : ThrottleList → Node → ThrottleList
append_node l n =
    if all_active l
    then record l { active = l.active ++ (n ∷ []) }
    else record l { inactive = l.inactive ++ (n ∷ []) }

-- Before the split, with the quota that the node has and what it is given.
unfoldable pub insert_active : ThrottleList → Node → ThrottleList
insert_active l n =
    let (l', n') = allocate_quota l n in record l' { active = l'.active ++ (n' ∷ []) }

unfoldable pub insert : ThrottleList → Node → ThrottleList
insert l n =
    let put = if l.enabled then insert_active l n else append_node l (record n { quota = 0 }) in
    if is_throttled l n.id then l else record put { size = add32 put.size 1 }

unfoldable pub take_out : ThrottleList → ℕ → ThrottleList
take_out l id =
    let quota = node_quota_now l id in
    record l {
      active = remove id l.active;
      inactive = if is_active l id then l.inactive else remove id l.inactive;
      outstanding = sub32 l.outstanding quota;
      unallocated = add32 l.unallocated quota;
      size = sub32 l.size 1;
    }

unfoldable pub erase : ThrottleList → ℕ → Result ThrottleList
unfolding take_out
erase l id =
    let run = (do
      throw_if (l.size == 0) internal_error
      throw_if (not (node_quota_now l id == 0) && ltb l.outstanding (node_quota_now l id))
          internal_error
      ok (take_out l id)) in
    if is_throttled l id then run else ok l
