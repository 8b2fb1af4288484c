-- ===== src/Tests/PartialQueue.antt =====
-- Runs of src/utils/partial_queue.h on a queue of which the lowest layer alone is open.
use libtorrent.Common.{
  List, arith, get_or, ltb, map_ok, ok, refl, replicate, some, suc, true, zero, ℕ, ◌*◌, ◌+◌, ◌<◌,
  ◌≡◌, ◌≤◌,
}
use libtorrent.PartialQueue.{
  PartialQueue, insert, put, find_layer, is_layer_full, inserted, popped, store, ceiling_of,
}
use libtorrent.PartialQueue.Layers.{IsValid, insert-IsValid}

abbrev lowest_open : PartialQueue
lowest_open = record {
  values = some (replicate 16 0);
  max_layer_size = 2;
  index = 0;
  ceiling = 1;
  layers = replicate 8 (0, 0);
}

insert_run : map_ok (λ p. p.1) (insert lowest_open 0 42) ≡ ok true
unfolding insert put find_layer is_layer_full inserted popped store
insert_run = refl

lowest_open-IsValid : IsValid lowest_open (replicate 16 0) 1
unfolding inserted
lowest_open-IsValid = record {
  present = refl;
  room = refl;
  layers_len = refl;
  limited = omega arith;
  below = refl;
  open_below = open_layer;
}
  where
    open_layer : (l : ℕ) → l < 1 → inserted lowest_open l < 2
    open_layer zero lt = omega arith
    open_layer (suc l) lt = absurd (omega (arith, lt))

insert-IsValid_example :
    (q' : PartialQueue) × (d' : List ℕ) × (limit' : ℕ) × (insert lowest_open 0 42
      ≡ ok (q', ltb 0 1))
    × IsValid q' d' limit'
    × (1 ≤ 0 → q' ≡ lowest_open)
    × (0 < 1
        → (l : ℕ) × (l < 1)
          × ((k : ℕ) → k < l → ceiling_of k ≤ 0)
          × (0 < ceiling_of l)
          × (inserted q' l ≡ inserted lowest_open l + 1)
          × (get_or d' (2 * l + inserted lowest_open l) 0 ≡ 42))
insert-IsValid_example = insert-IsValid lowest_open (replicate 16 0) 1 0 42 lowest_open-IsValid
