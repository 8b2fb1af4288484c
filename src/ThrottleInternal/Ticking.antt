-- ===== src/ThrottleInternal/Ticking.antt =====
-- `receive_tick` of src/net/throttle_internal.cc, and the interval of its timer.
use libtorrent.Rate.{Rate}
use libtorrent.ThrottleInternal.{ThrottleInternal}
use libtorrent.Common.{ℕ, ◌*◌, if◌then◌else◌, ltb, ◌==◌}

abbrev chosen : ℕ → ℕ → ℕ
chosen bytes raw =
    if ltb bytes 1024
    then 10 * 100000
    else if raw == 0
    then 1 * 100000
    else if ltb 10 raw
    then 10 * 100000
    else raw * 100000
