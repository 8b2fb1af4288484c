-- ===== src/ChunkStatistics.antt =====
-- src/download/chunk_statistics.h and chunk_statistics.cc: how many connected peers have each chunk.
-- Of src/protocol/peer_chunks.h the peer keeps what this code reads and writes. The counters have eight
-- bits; `now` is the time that the rate of the peer reads.
pub mod Tally
pub mod Have
use libtorrent.Common.{
  ℕ, List, [], Bool, Result, add32, err, false, get_or, if◌then◌else◌, internal_error, length, ltb,
  not, ok, replicate, set, sub32, suc, throw_if, true, undefined, zero, ◌%◌, ◌&&◌, ◌+◌, ◌-◌, ◌==◌,
  ◌>>=◌, ◌>>◌, ◌^◌, ◌∷◌,
}
use libtorrent.Bitfield.{Bitfield, get, set_index, is_all_set, is_all_unset}
use libtorrent.Rate.{Rate}
use libtorrent.Rate

pub record PeerChunks : Type 0 where
  pub using_counter : Bool
  pub bitfield : Bitfield
  pub peer_rate : Rate

pub record ChunkStatistics : Type 0 where
  pub counters : List ℕ
  pub complete : ℕ
  pub accounted : ℕ

abbrev pub max_accounted : ℕ
max_accounted = 255

unfoldable pub should_add : ChunkStatistics → Bool
should_add s = ltb s.accounted max_accounted

unfoldable pub initialize : ChunkStatistics → ℕ → Result ChunkStatistics
initialize s size = do
  throw_if (not (length s.counters == 0)) internal_error
  ok (record s { counters = replicate size 0 })

unfoldable pub clear : ChunkStatistics → Result ChunkStatistics
clear s = do throw_if (not (s.complete == 0)) internal_error; ok (record s { counters = [] })

-- `*itr += get(index)` and `*itr -= get(index)`.
unfoldable pub count_in : ℕ → Bool → ℕ
count_in c b = (c + (if b then 1 else 0)) % 2 ^ 8

unfoldable pub count_out : ℕ → Bool → ℕ
count_out c b = (c + 2 ^ 8 - (if b then 1 else 0)) % 2 ^ 8

-- The loop over the `n` indices from `index` on, at the counters from `itr` on.
unfoldable pub for_chunks : (ℕ → Bool → ℕ) → Bitfield → ℕ → ℕ → List ℕ → Result (List ℕ)
for_chunks count bf index zero cs = ok cs
for_chunks count bf index (suc n) [] = err undefined
for_chunks count bf index (suc n) (c ∷ cs) = do
  b ← get bf index
  rest ← for_chunks count bf (add32 index 1) n cs
  ok (count c b ∷ rest)

unfoldable pub received_connect :
    ChunkStatistics → PeerChunks → Result (ChunkStatistics × PeerChunks)
received_connect s pc =
    let using = record pc { using_counter = true } in
    let add = (do
      cs ← for_chunks count_in pc.bitfield 0 pc.bitfield.size s.counters
      ok (record s { accounted = add32 s.accounted 1; counters = cs }, using)) in
    if pc.using_counter
    then err internal_error
    else if is_all_set pc.bitfield
    then ok (record s { complete = add32 s.complete 1 }, using)
    else if not (is_all_unset pc.bitfield) && should_add s
    then add
    else ok (s, pc)

unfoldable pub received_disconnect :
    ChunkStatistics → PeerChunks → Result (ChunkStatistics × PeerChunks)
received_disconnect s pc =
    let unused = record pc { using_counter = false } in
    let remove = (do
      throw_if (s.accounted == 0) internal_error
      cs ← for_chunks count_out pc.bitfield 0 pc.bitfield.size s.counters
      ok (record s { accounted = sub32 s.accounted 1; counters = cs }, unused)) in
    if not pc.using_counter
    then ok (s, pc)
    else if is_all_set pc.bitfield
    then ok (record s { complete = sub32 s.complete 1 }, unused)
    else remove

-- The first part of `received_have_chunk`: a peer without chunks is added.
unfoldable pub add_empty : ChunkStatistics → PeerChunks → Result (ChunkStatistics × PeerChunks)
add_empty s pc =
    if is_all_unset pc.bitfield && should_add s
    then (if pc.using_counter
        then err internal_error
        else ok (record s { accounted = add32 s.accounted 1 }, record pc { using_counter = true }))
    else ok (s, pc)

unfoldable pub all_down : List ℕ → List ℕ
all_down [] = []
all_down (c ∷ cs) = (c + 2 ^ 8 - 1) % 2 ^ 8 ∷ all_down cs

-- `base_type::operator[](index)++`.
unfoldable pub count_up : List ℕ → ℕ → Result (List ℕ)
count_up cs index =
    if ltb index (length cs)
    then ok (set cs index ((get_or cs index 0 + 1) % 2 ^ 8))
    else err undefined

-- The last part of `received_have_chunk`, once the bit is set.
unfoldable pub count_chunk :
    ChunkStatistics → PeerChunks → ℕ → Result (ChunkStatistics × PeerChunks)
count_chunk s pc index =
    let counted = (do
      cs ← count_up s.counters index
      throw_if (is_all_set pc.bitfield && s.accounted == 0) internal_error
      ok (
        (if is_all_set pc.bitfield
            then record {
              counters = all_down cs;
              complete = add32 s.complete 1;
              accounted = sub32 s.accounted 1;
            }
            else record s { counters = cs }),
        pc,
      )) in
    if pc.using_counter
    then counted
    else if is_all_set pc.bitfield
    then ok (record s { complete = add32 s.complete 1 }, record pc { using_counter = true })
    else ok (s, pc)

unfoldable pub received_have_chunk :
    ℕ → ChunkStatistics → PeerChunks → ℕ → ℕ → Result (ChunkStatistics × PeerChunks)
received_have_chunk now s pc index bytes = do
  (s1, pc1) ← add_empty s pc
  bf ← set_index pc1.bitfield index
  rate ← Rate.insert now bytes pc1.peer_rate
  count_chunk s1 (record pc1 { bitfield = bf; peer_rate = rate }) index
