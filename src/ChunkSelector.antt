-- ===== src/ChunkSelector.antt =====
-- src/download/chunk_selector.h and chunk_selector.cc: which chunk to request next. It reads the
-- bitfield of untouched chunks and the two sets of priority ranges (src/torrent/data/download_data.h),
-- the rarity of a chunk and the bitfield of the peer, and keeps what it finds in a partial queue.
-- A call of random() is an argument, the number that it returns.
pub mod Advance
pub mod Bytes
pub mod Search
pub mod Find
use libtorrent.Common.{
  ℕ, List, [], Bool, Result, bit_and, err, false, get_or, if◌then◌else◌, internal_error, leb,
  length, ltb, max, min, not, ok, out_of_fuel, pos, suc, throw_if, true, undefined, zero, ◌%◌, ◌&&◌,
  ◌*◌, ◌+◌, ◌-◌, ◌/◌, ◌==◌, ◌>>=◌, ◌>>◌, ◌^◌, ◌||◌, ◌∷◌, Option, none, some,
}
use libtorrent.Bitfield.{
  Bitfield, get, set_index, unset_index, test_bit, mask_from, mask_before, find_first_set, byte_at,
  is_all_set, set_size_bits, allocate, update, clear,
}
use libtorrent.Ranges.{Range, find, has}
use libtorrent.PartialQueue.{PartialQueue}
use libtorrent.PartialQueue
use libtorrent.ChunkStatistics.{ChunkStatistics, PeerChunks}

pub record DownloadData : Type 0 where
  pub completed : Bitfield
  pub untouched : Bitfield
  pub high : List Range
  pub normal : List Range

pub record ChunkSelector : Type 0 where
  pub shared_queue : PartialQueue
  pub position : ℕ

-- `~uint32_t()`.
abbrev pub invalid_chunk : ℕ
invalid_chunk = 2 ^ 32 - 1

unfoldable pub is_wanted : DownloadData → ℕ → Result Bool
is_wanted d index = do
  untouched ← get d.untouched index
  ok (untouched && (has index d.normal || has index d.high))

-- The loop of `next_wanted_in_ranges` over the ranges that are left.
unfoldable pub next_wanted_from : Bitfield → List Range → ℕ → ℕ → Result ℕ
next_wanted_from untouched [] first last = ok invalid_chunk
next_wanted_from untouched ((a, b) ∷ rest) first last =
    let range_last = min last b in
    let more = next_wanted_from untouched rest first last in
    let look = (do
      chunk ← find_first_set untouched (max first a) range_last
      if chunk == range_last then more else ok chunk) in
    if ltb a last then look else ok invalid_chunk

unfoldable pub next_wanted_in_ranges : Bitfield → List Range → ℕ → ℕ → Result ℕ
next_wanted_in_ranges untouched ranges first last =
    let look = next_wanted_from untouched (find first ranges) first last in
    if leb last first then ok invalid_chunk else look

-- `if (pos == invalid_chunk) pos = ...;`
unfoldable pub or_else : Result ℕ → Result ℕ → Result ℕ
or_else first second = do chunk ← first; if chunk == invalid_chunk then second else ok chunk

-- `advance_position`: the new `m_position`.
unfoldable pub advance_position : DownloadData → ℕ → Result ℕ
advance_position d position =
    let size = d.untouched.size in
    let start = if position == invalid_chunk || leb size position then 0 else position in
    let search = or_else (next_wanted_in_ranges d.untouched d.high start size) (
      or_else (next_wanted_in_ranges d.untouched d.high 0 start) (
        or_else (next_wanted_in_ranges d.untouched d.normal start size)
          (next_wanted_in_ranges d.untouched d.normal 0 start))) in
    if size == 0 then ok invalid_chunk else search

unfoldable pub update_priorities : DownloadData → ChunkSelector → ℕ → Result ChunkSelector
update_priorities d s draw =
    let size = d.untouched.size in
    let start = if s.position == invalid_chunk then draw % size else s.position in
    if size == 0 then ok s else (do
      position ← advance_position d start
      ok (record s { shared_queue = PartialQueue.clear s.shared_queue; position = position }))

unfoldable pub using_index :
    DownloadData → ChunkSelector → ℕ → Result (DownloadData × ChunkSelector)
using_index d s index = do
  throw_if (leb d.untouched.size index) internal_error
  untouched ← get d.untouched index
  throw_if (not untouched) internal_error
  bf ← unset_index d.untouched index
  let d' : DownloadData = record d { untouched = bf }
  position ← if index == s.position then advance_position d' s.position else ok s.position
  ok (d', record s { position = position })

unfoldable pub not_using_index :
    DownloadData → ChunkSelector → ℕ → Result (DownloadData × ChunkSelector)
not_using_index d s index = do
  throw_if (leb d.untouched.size index) internal_error
  untouched ← get d.untouched index
  throw_if untouched internal_error
  bf ← set_index d.untouched index
  ok (
    record d { untouched = bf },
    record s { position = if s.position == invalid_chunk then index else s.position },
  )

-- `m_statistics->rarity(index)`.
unfoldable pub rarity : ChunkStatistics → ℕ → Result ℕ
rarity s index =
    if ltb index (length s.counters) then ok (get_or s.counters index 0) else err undefined

-- `if (!pq->insert(...) && pq->is_full()) return false;`, and the rest of a search.
unfoldable pub try_insert :
    ChunkStatistics
    → PartialQueue
    → ℕ
    → (PartialQueue → Result (PartialQueue × Bool))
    → Result (PartialQueue × Bool)
try_insert s q index rest = do
  key ← rarity s index
  (q', inserted) ← PartialQueue.insert q key index
  let more = rest q'
  if not inserted && q'.ceiling == 0 then ok (q', false) else more

-- The loop of `search_linear_byte` from bit `i` on, and whether the search goes on.
unfoldable pub search_linear_byte :
    ChunkStatistics → ℕ → ℕ → PartialQueue → ℕ → ℕ → Result (PartialQueue × Bool)
search_linear_byte s zero i q index wanted = ok (q, true)
search_linear_byte s (suc n) i q index wanted =
    let skip = search_linear_byte s n (i + 1) q index wanted in
    let take_it =
      try_insert s q (index + i) (λ q'. search_linear_byte s n (i + 1) q' index wanted) in
    if test_bit wanted i then take_it else skip

-- `*source & *local`.
unfoldable pub both : Bitfield → Bitfield → ℕ → Result ℕ
both untouched bf index = do s ← byte_at bf index; l ← byte_at untouched index; ok (bit_and s l)

-- The loop of `search_linear_range` and what follows it, at the byte that starts with index
-- `index`. The last byte is the one that the rounds run out in.
unfoldable pub search_linear_bytes :
    ChunkStatistics
    → Bitfield
    → Bitfield
    → ℕ
    → PartialQueue
    → ℕ
    → ℕ
    → ℕ
    → Result (PartialQueue × Bool)
search_linear_bytes s untouched bf zero q index wanted last = err out_of_fuel
search_linear_bytes s untouched bf (suc fuel) q index wanted last =
    let round = (do
      (q', go_on) ← search_linear_byte s 8 0 q index wanted
      let more = (do
        wanted' ← both untouched bf (index + 8)
        search_linear_bytes s untouched bf fuel q' (index + 8) wanted' last)
      if go_on then more else ok (q', false)) in
    let pass = (do
      wanted' ← both untouched bf (index + 8)
      search_linear_bytes s untouched bf fuel q (index + 8) wanted' last) in
    let in_last = bit_and wanted (mask_before (last - index)) in
    let final = search_linear_byte s 8 0 q index in_last in
    if ltb (index + 8) last
    then (if wanted == 0 then pass else round)
    else if in_last == 0
    then ok (q, true)
    else final

unfoldable pub search_linear_range :
    ChunkStatistics → Bitfield → Bitfield → PartialQueue → ℕ → ℕ → Result (PartialQueue × Bool)
search_linear_range s untouched bf q first last = do
  throw_if (leb last first || ltb untouched.size last) internal_error
  wanted ← both untouched bf first
  search_linear_bytes s untouched bf (last - first + 1) q (first / 8 * 8)
      (bit_and wanted (mask_from (first % 8))) last

-- The loop of `search_linear` over the ranges that are left.
unfoldable pub search_linear_from :
    ChunkStatistics
    → Bitfield
    → Bitfield
    → PartialQueue
    → List Range
    → ℕ
    → ℕ
    → Result (PartialQueue × Bool)
search_linear_from s untouched bf q [] first last = ok (q, true)
search_linear_from s untouched bf q ((a, b) ∷ rest) first last =
    let look = (do
      (q', go_on) ← search_linear_range s untouched bf q (max first a) (min last b)
      let more = search_linear_from s untouched bf q' rest first last
      if go_on then more else ok (q', false)) in
    if ltb a last then look else ok (q, true)

unfoldable pub search_linear :
    ChunkStatistics
    → Bitfield
    → Bitfield
    → PartialQueue
    → List Range
    → ℕ
    → ℕ
    → Result (PartialQueue × Bool)
search_linear s untouched bf q ranges first last =
    search_linear_from s untouched bf q (find first ranges) first last

-- `while (queue->prepare_pop()) { ... }`: the first cached chunk that is still untouched.
unfoldable pub pop_untouched : ℕ → Bitfield → PartialQueue → Result (PartialQueue × Option ℕ)
pop_untouched zero untouched q = err out_of_fuel
pop_untouched (suc fuel) untouched q = do
  (q1, any) ← PartialQueue.prepare_pop q
  let round = (do
    (q2, chunk) ← PartialQueue.pop q1
    there ← get untouched chunk
    let more = pop_untouched fuel untouched q2
    if there then ok (q2, some chunk) else more)
  if any then round else ok (q1, none)

-- From the position to the end, and then up to the position.
unfoldable pub search_around :
    DownloadData → ChunkStatistics → Bitfield → PartialQueue → List Range → ℕ → Result PartialQueue
search_around d s bf q ranges position = do
  (q1, go_on) ← search_linear s d.untouched bf q ranges position d.untouched.size
  let more = search_linear s d.untouched bf q1 ranges 0 position
  (q2, _) ← if go_on then more else ok (q1, false)
  ok q2

-- `find` after the cached queue has run out: the chunk is `none` for `invalid_chunk`.
unfoldable pub find_fresh :
    DownloadData → ChunkStatistics → Bitfield → PartialQueue → ℕ → Result (PartialQueue × Option ℕ)
find_fresh d s bf q position = do
  q1 ← search_around d s bf (PartialQueue.clear q) d.high position
  (q2, any) ← PartialQueue.prepare_pop q1
  let again = (do
    q3 ← search_around d s bf (PartialQueue.clear q2) d.normal position
    PartialQueue.prepare_pop q3)
  (q4, found) ← if any then ok (q2, true) else again
  let chosen = (do
    (q5, chunk) ← PartialQueue.pop q4
    there ← get d.untouched chunk
    throw_if (not there) internal_error
    ok (q5, some chunk))
  if found then chosen else ok (q4, none)

-- The queue that `find` is working on: what is cached is popped first, and a peer without a queue
-- gets one.
unfoldable pub find_in :
    DownloadData → ChunkStatistics → Bitfield → PartialQueue → ℕ → Result (PartialQueue × Option ℕ)
find_in d s bf q position =
    let cached = (do
      (q1, chunk) ← pop_untouched (8 * q.max_layer_size + 1) d.untouched q
      let fresh = find_fresh d s bf q1 position
      elim chunk [ none ↦ fresh | some c ↦ ok (q1, some c) ]) in
    let first_use = (do q1 ← PartialQueue.enable q 8; find_fresh d s bf q1 position) in
    elim q.values [ none ↦ first_use | some v ↦ cached ]

-- `find`: `cache` is the download cache of the peer. The first draw tells whether the second is made
-- and the position moves.
unfoldable pub find_chunk :
    DownloadData
    → ChunkStatistics
    → ChunkSelector
    → Bitfield
    → PartialQueue
    → ℕ
    → ℕ
    → Result (ChunkSelector × PartialQueue × Option ℕ)
find_chunk d s sel bf cache draw draw_position =
    let moves = draw % 64 == 0 in
    let position = if moves then draw_position % d.untouched.size else sel.position in
    let cleaned = (λ (q : PartialQueue). if moves then PartialQueue.clear q else q) in
    let by_shared = (do
      (q, chunk) ← find_in d s bf (cleaned sel.shared_queue) position
      ok (record { shared_queue = q; position = position }, cache, chunk)) in
    let by_cache = (do
      (q, chunk) ← find_in d s bf (cleaned cache) position
      ok (record sel { position = position }, q, chunk)) in
    if sel.position == invalid_chunk
    then ok (sel, cache, none)
    else if is_all_set bf
    then by_shared
    else by_cache

-- `~v` on a byte.
unfoldable pub invert : List ℕ → List ℕ
invert [] = []
invert (v ∷ vs) = (255 - v) ∷ invert vs

-- The untouched chunks are those that are not completed. Without an array of completed chunks the loop
-- makes no round.
unfoldable pub initialize : DownloadData → ChunkSelector → Result (DownloadData × ChunkSelector)
initialize d sel = do
  sized ← set_size_bits d.untouched d.completed.size
  let filled : Bitfield = record (allocate sized) {
    bytes = elim d.completed.bytes [ none ↦ (allocate sized).bytes | some vs ↦ some (invert vs) ];
  }
  untouched ← update filled
  q ← PartialQueue.enable sel.shared_queue 32
  ok (
    record d { untouched = untouched },
    record { shared_queue = PartialQueue.clear q; position = invalid_chunk },
  )

unfoldable pub cleanup : DownloadData → DownloadData
cleanup d = record d { untouched = clear d.untouched }

-- Whether a chunk that the peer has announced is of interest; if so it goes into the peer's queue.
unfoldable pub received_have_chunk :
    DownloadData → ChunkStatistics → PartialQueue → ℕ → Result (PartialQueue × Bool)
received_have_chunk d s cache index = do
  there ← get d.untouched index
  let put = (do key ← rarity s index; (q, _) ← PartialQueue.insert cache key index; ok (q, true))
  let unwanted = not there || (not (has index d.high) && not (has index d.normal))
  let wanted : Result (PartialQueue × Bool) = elim cache.values [
    | none ↦ ok (cache, true)
    | some v ↦ put
  ]
  if unwanted then ok (cache, false) else wanted
