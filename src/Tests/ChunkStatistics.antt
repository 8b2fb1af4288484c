-- ===== src/Tests/ChunkStatistics.antt =====
-- Runs of src/download/chunk_statistics.cc on three chunks.
use libtorrent.Common.{
  [], arith, false, get_or, if◌then◌else◌, ok, refl, some, suc, true, zero, ℕ, ◌+◌, ◌<◌, ◌∷◌, ◌≡◌,
  ◌≤◌, not, ◌&&◌, ◌||◌,
}
use libtorrent.Rate.{Rate}
use libtorrent.Bitfield.{Bitfield, get, test_bit, is_all_set, is_all_unset, byte_at}
use libtorrent.Bitfield.Count.{bit, ones}
use libtorrent.Bitfield.Bytes.{one_if}
use libtorrent.Bitfield.Valid.{IsValid}
use libtorrent.ChunkStatistics.{
  ChunkStatistics, PeerChunks, received_connect, received_disconnect, for_chunks, count_in,
  should_add,
}
use libtorrent.ChunkStatistics.Tally.{
  IsCounted, Exchanged, received_connect-Exchanged, received_disconnect-Exchanged,
}

abbrev pub two_of_three : Bitfield
two_of_three = record { size = 3; num_set = 2; bytes = some (0xc0 ∷ []) }

abbrev newcomer : PeerChunks
newcomer = record {
  using_counter = false;
  bitfield = two_of_three;
  peer_rate = record { span = 30; current = 0; total = 0; samples = [] };
}

abbrev counted_peer : PeerChunks
counted_peer = record newcomer { using_counter = true }

abbrev pub before : ChunkStatistics
before = record { counters = 1 ∷ 0 ∷ 1 ∷ []; complete = 2; accounted = 1 }

abbrev after : ChunkStatistics
after = record { counters = 2 ∷ 1 ∷ 1 ∷ []; complete = 2; accounted = 2 }

connect_run : received_connect before newcomer ≡ ok (after, counted_peer)
unfolding received_connect for_chunks count_in should_add is_all_set is_all_unset get test_bit
    byte_at
connect_run = refl

pub two_of_three-IsValid : IsValid two_of_three (0xc0 ∷ [])
unfolding ones bit test_bit one_if
two_of_three-IsValid = (
  refl,
  record {
    fits = omega arith;
    len = refl;
    are_bytes = omega arith;
    tail = λ i lo hi. tail_case i lo hi;
    counted = refl;
  },
)
  where
    tail_case : (i : ℕ) → 3 ≤ i → i < 8 → bit (0xc0 ∷ []) i ≡ false
    tail_case zero lo hi = absurd (omega (arith, lo))
    tail_case (suc zero) lo hi = absurd (omega (arith, lo))
    tail_case (suc (suc zero)) lo hi = absurd (omega (arith, lo))
    tail_case (suc (suc (suc zero))) lo hi = refl
    tail_case (suc (suc (suc (suc zero)))) lo hi = refl
    tail_case (suc (suc (suc (suc (suc zero))))) lo hi = refl
    tail_case (suc (suc (suc (suc (suc (suc zero)))))) lo hi = refl
    tail_case (suc (suc (suc (suc (suc (suc (suc zero))))))) lo hi = refl
    tail_case (suc (suc (suc (suc (suc (suc (suc (suc d)))))))) lo hi = absurd (omega (arith, hi))

newcomer-IsCounted : IsCounted before newcomer (0xc0 ∷ [])
newcomer-IsCounted = record {
  valid = two_of_three-IsValid;
  len = refl;
  few = omega arith;
  own = λ i lt. omega arith;
  others = below_three;
  own_part = omega arith;
  own_seed = omega arith;
}
  where
    below_three : (i : ℕ) → i < 3 → get_or before.counters i 0 + 0 ≤ 1 + 0
    below_three zero lt = omega arith
    below_three (suc zero) lt = omega arith
    below_three (suc (suc zero)) lt = omega arith
    below_three (suc (suc (suc i))) lt = omega arith

counted_peer-IsCounted : IsCounted after counted_peer (0xc0 ∷ [])
unfolding is_all_set bit test_bit
counted_peer-IsCounted = record {
  valid = two_of_three-IsValid;
  len = refl;
  few = omega arith;
  own = own;
  others = others;
  own_part = omega arith;
  own_seed = omega arith;
}
  where
    own : (i : ℕ) → i < 3 → (if bit (0xc0 ∷ []) i then 1 else 0) ≤ get_or after.counters i 0
    own zero lt = omega arith
    own (suc zero) lt = omega arith
    own (suc (suc zero)) lt = omega arith
    own (suc (suc (suc i))) lt = absurd (omega (arith, lt))

    others :
        (i : ℕ) → i < 3 → get_or after.counters i 0 + 1 ≤ 2 + (if bit (0xc0 ∷ []) i then 1 else 0)
    others zero lt = omega arith
    others (suc zero) lt = omega arith
    others (suc (suc zero)) lt = omega arith
    others (suc (suc (suc i))) lt = absurd (omega (arith, lt))

received_connect-Exchanged_example :
    (s' : ChunkStatistics) × (pc' : PeerChunks) × (received_connect before newcomer ≡ ok (s', pc'))
    × (pc'.bitfield ≡ two_of_three)
    × (pc'.using_counter
        ≡ is_all_set two_of_three || not (is_all_unset two_of_three) && should_add before)
    × Exchanged before s' newcomer pc' (0xc0 ∷ []) (0xc0 ∷ [])
received_connect-Exchanged_example =
    received_connect-Exchanged before newcomer (0xc0 ∷ []) newcomer-IsCounted refl (omega arith)

received_disconnect-Exchanged_example :
    (s' : ChunkStatistics) × (pc' : PeerChunks) × (received_disconnect after counted_peer
      ≡ ok (s', pc'))
    × (pc'.bitfield ≡ two_of_three)
    × (pc'.using_counter ≡ false)
    × Exchanged after s' counted_peer pc' (0xc0 ∷ []) (0xc0 ∷ [])
received_disconnect-Exchanged_example =
    received_disconnect-Exchanged after counted_peer (0xc0 ∷ []) counted_peer-IsCounted
      (omega arith)
