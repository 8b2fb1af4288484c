-- ===== src/ThrottleInternal.antt =====
-- src/net/throttle_internal.h and throttle_internal.cc, and src/torrent/throttle.cc: a tree of throttles. At each
-- tick the root gets quota for the time that has passed; every throttle hands some to its slaves, in turn, and
-- the rest to the nodes of its list. The timer of the scheduler is the time that a tick sets it
-- to; what else the scheduler checks then is left to Scheduler.antt.
pub mod Lists
pub mod Sharing
pub mod Ticking
use libtorrent.Scheduler.{ceil_seconds}
use libtorrent.Common.{
  ℕ, zero, suc, ◌+◌, ◌-◌, ◌*◌, ◌/◌, ◌%◌, ◌^◌, min, Bool, true, false, not, ◌&&◌, if◌then◌else◌, ltb,
  leb, ◌==◌, Result, ok, err, throw_if, internal_error, input_error, ◌>>=◌, ◌>>◌, add32, sub32, [],
  none, ◌≡◌, Option, some,
}
use libtorrent.Throttle.{ThrottleList, update_quota, add_rate}
use libtorrent.Throttle
use libtorrent.Rate.{Rate, rate}

-- What a throttle has besides its slaves; `next_slave` counts the slaves before the iterator.
pub record ThrottleState : Type 0 where
  pub max_rate : ℕ
  pub list : ThrottleList
  pub unused_quota : ℕ
  pub next_slave : ℕ

mutual
  pub data ThrottleInternal : Type 0 where
    throttle : ThrottleState → Slaves → ThrottleInternal

  pub data Slaves : Type 0 where
    no_slave : Slaves
    slave : ThrottleInternal → Slaves → Slaves

abbrev pub fraction_bits : ℕ
fraction_bits = 16

abbrev pub state_of : ThrottleInternal → ThrottleState
state_of (throttle s slaves) = s

unfoldable pub slave_count : Slaves → ℕ
slave_count no_slave = 0
slave_count (slave t rest) = slave_count rest + 1

-- What a throttle of the rate needs of the quota, for a fraction of a second.
unfoldable pub need_of : ℕ → ℕ → ℕ → ℕ
need_of quota fraction max_rate =
    min quota (fraction * max_rate % 2 ^ 64 / 2 ^ fraction_bits % 2 ^ 32)

-- `rate_added` as a method: it is read and reset.
unfoldable pub reset_rate_added : ThrottleInternal → ThrottleInternal
reset_rate_added (throttle s slaves) =
    throttle (record s { list = record s.list { rate_added = 0 } }) slaves

-- The throttle's own list, once all its slaves were served.
unfoldable pub serve_list : ℕ → ℕ → ℕ → ThrottleState → Result ThrottleState
serve_list quota fraction slaves s =
    let need = need_of quota fraction s.max_rate in
    let update = (do
      (list, used) ← update_quota s.list need
      ok (record s { list = list; unused_quota = sub32 s.unused_quota used; next_slave = 0 })) in
    if s.next_slave == slaves && leb need s.unused_quota then update else ok s

-- No more than one allocation's worth is kept. The result is the bit pattern of an int32_t.
unfoldable pub give_back : ℕ → ThrottleState → ThrottleState × ℕ
give_back quota s =
    if ltb quota s.unused_quota
    then (record s { unused_quota = quota }, sub32 quota (sub32 s.unused_quota quota))
    else (s, quota)

unfoldable mutual
  pub receive_quota : ℕ → ℕ → ℕ → ThrottleInternal → Result (ThrottleInternal × ℕ)
  receive_quota now quota fraction (throttle s slaves) = do
    (s1, slaves') ←
        serve_slaves now quota fraction s.next_slave
          (record s { unused_quota = add32 s.unused_quota quota }) slaves
    s2 ← serve_list quota fraction (slave_count slaves) s1
    let (s3, used) = give_back quota s2
    ok (throttle s3 slaves', used)

  -- The loop, from the slave that comes after `skipped` others.
  pub serve_slaves : ℕ → ℕ → ℕ → ℕ → ThrottleState → Slaves → Result (ThrottleState × Slaves)
  serve_slaves now quota fraction skipped s no_slave = ok (s, no_slave)
  serve_slaves now quota fraction (suc skipped) s (slave t rest) = do
    (s', rest') ← serve_slaves now quota fraction skipped s rest
    ok (s', slave t rest')
  serve_slaves now quota fraction zero s (slave t rest) =
      let need = need_of quota fraction (state_of t).max_rate in
      let served = (do
        (t', used) ← receive_quota now need fraction t
        list ← add_rate now s.list (state_of t').list.rate_added
        (s', rest') ←
            serve_slaves now quota fraction zero
              (record s {
                list = list;
                unused_quota = sub32 s.unused_quota used;
                next_slave = s.next_slave + 1;
              })
              rest
        ok (s', slave (reset_rate_added t') rest')) in
      if ltb s.unused_quota need then ok (s, slave t rest) else served

-- Those that make a throttle's list pass quota on, or stop it, also for its slaves.
unfoldable pub enable_slaves : Slaves → Result Slaves
enable_slaves no_slave = ok no_slave
enable_slaves (slave (throttle s slaves) rest) = do
  list ← Throttle.enable s.list
  rest' ← enable_slaves rest
  ok (slave (throttle (record s { list = list }) slaves) rest')

unfoldable pub disable_slaves : Slaves → Slaves
disable_slaves no_slave = no_slave
disable_slaves (slave (throttle s slaves) rest) =
    slave (throttle (record s { list = Throttle.disable s.list }) slaves) (disable_slaves rest)

unfoldable pub enable_lists : ThrottleInternal → Result ThrottleInternal
enable_lists (throttle s slaves) = do
  list ← Throttle.enable s.list
  slaves' ← enable_slaves slaves
  ok (throttle (record s { list = list }) slaves')

unfoldable pub disable_lists : ThrottleInternal → ThrottleInternal
disable_lists (throttle s slaves) =
    throttle (record s { list = Throttle.disable s.list }) (disable_slaves slaves)

-- `new ThrottleList()`.
abbrev pub new_list : ThrottleList
new_list = record {
  enabled = false;
  size = 0;
  outstanding = 0;
  unallocated = 0;
  unused_unthrottled = 0;
  rate_added = 0;
  min_chunk = 2 * 2 ^ 10;
  max_chunk = 16 * 2 ^ 10;
  rate_slow = record { span = 60; total = 0; current = 0; samples = [] };
  active = [];
  inactive = [];
  activated = [];
}

unfoldable pub push_back : Slaves → ThrottleInternal → Slaves
push_back no_slave t = slave t no_slave
push_back (slave u rest) t = slave u (push_back rest t)

unfoldable pub create_slave : ThrottleInternal → Result ThrottleInternal
create_slave (throttle s slaves) = do
  let fresh =
      throttle (record { max_rate = s.max_rate; list = new_list; unused_quota = 0; next_slave = 0 })
        no_slave
  let enabled = enable_lists fresh
  t ← if s.list.enabled then enabled else ok fresh
  ok (throttle (record s { next_slave = slave_count slaves + 1 }) (push_back slaves t))

unfoldable pub calculate_min_chunk_size : ℕ → ℕ
calculate_min_chunk_size max_rate =
    if leb max_rate (8 * 2 ^ 10)
    then 2 ^ 9
    else if leb max_rate (32 * 2 ^ 10)
    then 2 * 2 ^ 9
    else if leb max_rate (64 * 2 ^ 10)
    then 3 * 2 ^ 9
    else if leb max_rate (128 * 2 ^ 10)
    then 4 * 2 ^ 9
    else if leb max_rate (512 * 2 ^ 10)
    then 8 * 2 ^ 9
    else if leb max_rate (2048 * 2 ^ 10)
    then 16 * 2 ^ 9
    else 32 * 2 ^ 9

unfoldable pub calculate_max_chunk_size : ℕ → ℕ
calculate_max_chunk_size max_rate = calculate_min_chunk_size max_rate * 4

-- The list with its rate brought up to date, and the interval in microseconds.
unfoldable pub calculate_interval : ℕ → ThrottleList → Result (ThrottleList × ℕ)
calculate_interval seconds l = do
  (slow, bytes) ← rate seconds l.rate_slow
  let per_second = bytes % 2 ^ 32
  let interval = 5 * l.max_chunk % 2 ^ 32 / per_second
  ok (
    record l { rate_slow = slow },
    if ltb per_second 1024
        then 10 * 100000
        else if interval == 0
        then 1 * 100000
        else if ltb 10 interval
        then 10 * 100000
        else interval * 100000,
  )

-- A root, with the time of its last tick in microseconds.
pub record Root : Type 0 where
  pub tree : ThrottleInternal
  pub time_last_tick : ℕ

abbrev pub with_list : ThrottleInternal → ThrottleList → ThrottleInternal
with_list (throttle s slaves) list = throttle (record s { list = list }) slaves

unfoldable pub quota_for : ℕ → ℕ → ℕ
quota_for count_usec max_rate = count_usec * max_rate % 2 ^ 64 / 1000000 % 2 ^ 32

unfoldable pub fraction_for : ℕ → ℕ
fraction_for count_usec = count_usec * 2 ^ fraction_bits % 2 ^ 64 / 1000000 % 2 ^ 32

-- At a time in microseconds, and in seconds: the root, and the time that the timer is set to.
-- `wait_for_ceil_seconds` rounds it up to a whole second.
unfoldable pub receive_tick : ℕ → ℕ → Root → Result (Root × ℕ)
receive_tick now seconds r = do
  throw_if (ltb now (r.time_last_tick + 90000)) internal_error
  let count_usec = now - r.time_last_tick
  (t, used) ←
      receive_quota seconds (quota_for count_usec (state_of r.tree).max_rate)
        (fraction_for count_usec) r.tree
  (list, interval) ← calculate_interval seconds (state_of t).list
  ok (record { tree = with_list t list; time_last_tick = now }, ceil_seconds (now + interval))

unfoldable pub enable : ℕ → ℕ → Root → Result (Root × ℕ)
enable now seconds r = do
  t ← enable_lists r.tree
  receive_tick now seconds (record { tree = t; time_last_tick = now - 1000000 })

-- `set_max_rate` of a slave, or of a root that stays on or off.
unfoldable pub set_rate : ℕ → ThrottleInternal → ThrottleInternal
set_rate v (throttle s slaves) =
    throttle
      (record s {
        max_rate = v;
        list = record s.list {
          min_chunk = calculate_min_chunk_size v;
          max_chunk = calculate_max_chunk_size v;
        };
      })
      slaves

-- `set_max_rate` of a root; `none` where the timer is left as it is, `some none` where it is stopped.
unfoldable pub set_max_rate : ℕ → ℕ → ℕ → Root → Result (Root × Option (Option ℕ))
set_max_rate now seconds v r =
    let old = (state_of r.tree).max_rate in
    let r' : Root = record r { tree = set_rate v r.tree } in
    let on = (do (r2, timer) ← enable now seconds r'; ok (r2, some (some timer))) in
    if v == old
    then ok (r, none)
    else if ltb (2 ^ 32 - 2) v
    then err input_error
    else if old == 0
    then on
    else if v == 0
    then ok (record r' { tree = disable_lists r'.tree }, some none)
    else ok (r', none)
