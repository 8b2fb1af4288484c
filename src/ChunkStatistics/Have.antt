-- ===== src/ChunkStatistics/Have.antt =====
-- What `received_have_chunk` does to the statistics.
use libtorrent.Common.{List, false, get_or, ok, true, ℕ, ◌%◌, ◌+◌, ◌<◌, ◌^◌, ◌≡◌, set}
use libtorrent.Rate.{Rate}
use libtorrent.Bitfield.{Bitfield}
use libtorrent.Bitfield.Count.{bit}
use libtorrent.Bitfield.Valid.{Wrote}
use libtorrent.ChunkStatistics.{ChunkStatistics, PeerChunks, count_chunk}
use libtorrent.ChunkStatistics.Tally.{IsCounted, Exchanged}

module _ (s : ChunkStatistics) (pc : PeerChunks) (bs : List ℕ) (index : ℕ) (rate : Rate)
    (bf' : Bitfield) (bs' : List ℕ) (c : IsCounted s pc bs) (lt : index < pc.bitfield.size)
    (new : bit bs index ≡ false) (w : Wrote pc.bitfield bf' bs bs' index true) where
  abbrev written : PeerChunks
  written = record pc { bitfield = bf'; peer_rate = rate }

  up : List ℕ
  up = set s.counters index ((get_or s.counters index 0 + 1) % 2 ^ 8)

  abbrev ChunkCounted : Type 0
  ChunkCounted =
      (s' : ChunkStatistics) × (pc' : PeerChunks) × (count_chunk s written index ≡ ok (s', pc'))
      × (pc'.bitfield ≡ bf')
      × Exchanged s s' pc pc' bs bs'
