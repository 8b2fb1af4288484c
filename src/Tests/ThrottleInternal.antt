-- ===== src/Tests/ThrottleInternal.antt =====
-- Runs of src/net/throttle_internal.cc on a throttle with one slave.
use libtorrent.ThrottleInternal.Sharing.{quota_in}
use libtorrent.ThrottleInternal.{
  ThrottleInternal, throttle, no_slave, slave, ThrottleState, Root, state_of, slave_count, need_of,
  reset_rate_added, serve_list, give_back, receive_quota, new_list,
}
use libtorrent.Throttle.{ThrottleList, update_quota, add_rate, wake, offer, cut_quota}
use libtorrent.Throttle
use libtorrent.Rate
use libtorrent.Common.{ℕ, true, ok, map_ok, ◌≡◌, refl}

-- A list without nodes that passes quota on.
abbrev open_list : ThrottleList
open_list = record new_list { enabled = true }

abbrev state_at : ℕ → ThrottleState
state_at max_rate = record {
  max_rate = max_rate;
  list = open_list;
  unused_quota = 0;
  next_slave = 0;
}

-- 100 KB a second for the root, and 40 of them for its slave.
abbrev two_levels : ThrottleInternal
two_levels = throttle (state_at 102400) (slave (throttle (state_at 40960) no_slave) no_slave)

-- The quota in the tree, what of it the root has for its list, and what was used.
abbrev outcome : ThrottleInternal × ℕ → ℕ × ℕ × ℕ
outcome p = (quota_in p.0, (state_of p.0).list.unused_unthrottled, p.1)

receive_quota_run : map_ok outcome (receive_quota 5 10240 6554 two_levels) ≡ ok (10240, 0, 10240)
unfolding receive_quota serve_list give_back need_of slave_count reset_rate_added quota_in
    update_quota add_rate wake offer cut_quota Rate.insert Rate.discard_old Rate.drop_old
    Rate.add_sample
receive_quota_run = refl

abbrev root : Root
root = record { tree = two_levels; time_last_tick = 4900000 }
