-- ===== src/Tests/ChunkSelector.antt =====
-- Runs of src/download/chunk_selector.cc on three chunks, two of which are untouched.
use libtorrent.Common.{
  arith, refl, ok, ℕ, ◌≡◌, ◌⊎◌, inr, some, none, true, [], ◌∷◌, replicate, Option, ◌<◌,
}
use libtorrent.Bitfield.Count.{bit}
use libtorrent.PartialQueue.{PartialQueue, clear}
use libtorrent.PartialQueue.Contents.{clear-IsHolding}
use libtorrent.ChunkSelector.{
  DownloadData, ChunkSelector, advance_position, find_chunk, search_linear_range,
}
use libtorrent.ChunkSelector.Advance.{IsChosen, advance_position-IsChosen}
use libtorrent.ChunkSelector.Bytes.{offer, in_both, search_linear_range-offer}
use libtorrent.ChunkSelector.Search.{Holding}
use libtorrent.ChunkSelector.Find.{Ready, find_chunk-Open}
use libtorrent.Tests.ChunkStatistics.{two_of_three, two_of_three-IsValid, before}

abbrev download : DownloadData
download = record {
  completed = two_of_three;
  untouched = two_of_three;
  high = (1, 2) ∷ [];
  normal = (0, 3) ∷ [];
}

abbrev fresh_queue : PartialQueue
fresh_queue = record {
  values = some (replicate 256 0);
  max_layer_size = 32;
  index = 0;
  ceiling = 0;
  layers = replicate 8 (0, 0);
}

abbrev no_queue : PartialQueue
no_queue = record fresh_queue { values = none; max_layer_size = 0 }

abbrev selector : ChunkSelector
selector = record { shared_queue = clear fresh_queue; position = 2 }

fresh_queue-Holding : (P : ℕ → Type 0) → Holding P (clear fresh_queue)
fresh_queue-Holding P = record {
  array = replicate 256 0;
  limit = 8;
  holding =
      clear-IsHolding P fresh_queue (replicate 256 0)
        (record { present = refl; room = refl; some_room = omega arith });
}

ready : Ready download (0xc0 ∷ []) selector no_queue
ready = record {
  position_in = inr (omega arith);
  shared = fresh_queue-Holding (λ i. i < 3);
  cached = inr refl;
}

advance_position-IsChosen_example :
    (p : ℕ) × (advance_position download 2 ≡ ok p) × IsChosen (0xc0 ∷ []) download p
advance_position-IsChosen_example =
    advance_position-IsChosen download (0xc0 ∷ []) 2 two_of_three-IsValid (omega arith, tt)
      (omega arith, tt)

search_linear_range-offer_example :
    search_linear_range before two_of_three two_of_three fresh_queue 1 3
    ≡ offer before
        (in_both before two_of_three two_of_three
          (0xc0 ∷ [])
          (0xc0 ∷ [])
          two_of_three-IsValid
          two_of_three-IsValid
          refl)
        2
        1
        fresh_queue
search_linear_range-offer_example =
    search_linear_range-offer before two_of_three two_of_three (0xc0 ∷ []) (0xc0 ∷ [])
      two_of_three-IsValid two_of_three-IsValid refl fresh_queue 1 3 (omega arith) (omega arith)

find_chunk-Open_example :
    (sel' : ChunkSelector) × (cache' : PartialQueue) × (c : Option ℕ) × (find_chunk download before
        selector two_of_three no_queue 7 5
      ≡ ok (sel', cache', c))
    × Ready download (0xc0 ∷ []) sel' cache'
    × ((c ≡ none)
        ⊎ ((i : ℕ) × (c ≡ some i)
            × (i < 3)
            × (bit (0xc0 ∷ []) i ≡ true)
            × (bit (0xc0 ∷ []) i ≡ true)))
find_chunk-Open_example =
    find_chunk-Open download before two_of_three (0xc0 ∷ []) (0xc0 ∷ []) two_of_three-IsValid
      two_of_three-IsValid refl refl (omega arith, tt) (omega arith, tt) selector no_queue 7 5 ready
