-- ===== src/Tests/Throttle.antt =====
-- Runs of src/net/throttle_list.cc on one active node and two that wait.
use libtorrent.Common.{List, [], arith, false, min, ok, refl, true, ℕ, ◌++◌, ◌+◌, ◌∷◌, ◌≡◌}
use libtorrent.Rate.{Rate}
use libtorrent.Rate.Window.{IsValid, window, sum}
use libtorrent.Throttle.{
  ThrottleList, Node, update_quota, node_used, erase, insert, node_deactivate, disable, ids, holds,
  node_quota_now, is_active, is_inactive, cut_quota, wake, offer, allocate_quota, enable,
}
use libtorrent.Throttle.Accounts.{IsAccounted, total}
use libtorrent.Throttle.Quota.{Shared, update_quota-Shared}
use libtorrent.Throttle.Nodes.{
  Erased, erase-Erased, Inserted, insert-Inserted, node_deactivate-IsAccounted, disable-IsAccounted,
}
use libtorrent.Throttle.Spending.{Spent, charges, node_used-Spent}

abbrev idle : Rate
idle = record { span = 60; current = 0; total = 0; samples = [] }

abbrev node : ℕ → ℕ → Node
node id quota = record { id = id; quota = quota }

abbrev three_nodes : ThrottleList
three_nodes = record {
  enabled = true;
  size = 3;
  outstanding = 2500;
  unallocated = 1000;
  unused_unthrottled = 3000;
  rate_added = 0;
  min_chunk = 2048;
  max_chunk = 3000;
  rate_slow = idle;
  active = node 1 2200 ∷ [];
  inactive = node 2 300 ∷ node 3 0 ∷ [];
  activated = [];
}

three_nodes-IsAccounted : IsAccounted three_nodes
unfolding total ids
three_nodes-IsAccounted = record {
  owed = refl;
  fits = omega arith;
  chunks = omega arith;
  max_fits = omega arith;
  counted = refl;
}

idle-IsValid : IsValid 5 idle
unfolding sum
idle-IsValid = record { ordered = omega arith; summed = refl; fits = omega arith }

-- The second node gets 2700 and wakes; the third gets the 1300 that are left, too few to wake.
update_quota_run :
    update_quota three_nodes 500
    ≡ ok (
      record three_nodes {
        outstanding = 6500;
        unallocated = 0;
        unused_unthrottled = 500;
        active = node 1 2200 ∷ node 2 3000 ∷ [];
        inactive = node 3 1300 ∷ [];
        activated = 2 ∷ [];
      },
      500,
    )
unfolding update_quota cut_quota wake offer allocate_quota
update_quota_run = refl

update_quota-Shared_example :
    (l' : ThrottleList) × (used excess : ℕ) × (fresh : List ℕ) × (update_quota three_nodes 500
      ≡ ok (l', used))
    × Shared three_nodes l' 500 used excess fresh
update_quota-Shared_example =
    update_quota-Shared three_nodes 500 refl three_nodes-IsAccounted (omega arith)

node_used-Spent_example :
    (l' : ThrottleList) × (rate' : Rate) × (node_used 5 three_nodes 1 idle 2400 ≡ ok (l', rate'))
    × IsValid 5 l'.rate_slow
    × IsValid 5 rate'
    × (charges three_nodes 1 ≡ true
        → Spent three_nodes l' 1 2400 (min 2400 (node_quota_now three_nodes 1)))
    × (charges three_nodes 1 ≡ false
        → IsAccounted l' × (l'.outstanding ≡ 2500) × (l'.unallocated ≡ 1000))
unfolding window
node_used-Spent_example =
    node_used-Spent 5 three_nodes 1 idle 2400 three_nodes-IsAccounted idle-IsValid idle-IsValid
      (omega arith) (omega arith) (omega arith) (omega arith)

erase-Erased_example : (l' : ThrottleList) × (erase three_nodes 2 ≡ ok l') × Erased three_nodes l' 2
erase-Erased_example = erase-Erased three_nodes 2 three_nodes-IsAccounted (omega arith)

insert-Inserted_example : Inserted three_nodes (insert three_nodes (node 4 0)) (node 4 0)
insert-Inserted_example =
    insert-Inserted three_nodes (node 4 0) three_nodes-IsAccounted (omega arith) refl

node_deactivate-IsAccounted_example :
    (l' : ThrottleList) × (node_deactivate three_nodes 1 ≡ ok l')
    × IsAccounted l'
    × (is_inactive l' 1 ≡ true)
    × (l'.outstanding + l'.unallocated ≡ 3500)
unfolding is_active holds
node_deactivate-IsAccounted_example =
    node_deactivate-IsAccounted three_nodes 1 three_nodes-IsAccounted refl

disable-IsAccounted_example :
    IsAccounted (disable three_nodes)
    × (ids (disable three_nodes).active ≡ ids three_nodes.active ++ ids three_nodes.inactive)
    × ((disable three_nodes).inactive ≡ [])
    × ((disable three_nodes).activated ≡ [] ++ ids three_nodes.inactive)
    × ((disable three_nodes).outstanding
          + (disable three_nodes).unallocated
          + (disable three_nodes).unused_unthrottled
        ≡ 0)
    × ((id : ℕ) → node_quota_now (disable three_nodes) id ≡ 0)
    × (enable (disable three_nodes) ≡ ok (record (disable three_nodes) { enabled = true }))
disable-IsAccounted_example = disable-IsAccounted three_nodes three_nodes-IsAccounted refl
