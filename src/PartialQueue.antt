-- ===== src/PartialQueue.antt =====
-- src/utils/partial_queue.h: a queue with eight layers, the lower ones for smaller keys. `values` is
-- `none` for a null pointer; a layer is the pair of what was popped from it and what was inserted.
pub mod Layers
pub mod Contents
use libtorrent.Common.{
  ℕ, List, [], Option, none, some, Bool, Result, err, false, get_or, if◌then◌else◌, leb, length,
  logic_error, ltb, min, not, ok, out_of_fuel, replicate, set, suc, throw_if, true, undefined, zero,
  ◌*◌, ◌+◌, ◌-◌, ◌==◌, ◌>>=◌, ◌>>◌, ◌^◌, ◌||◌,
}

pub record PartialQueue : Type 0 where
  pub values : Option (List ℕ)
  pub max_layer_size : ℕ
  pub index : ℕ
  pub ceiling : ℕ
  pub layers : List (ℕ × ℕ)

abbrev pub num_layers : ℕ
num_layers = 8

-- `(2 << layer) - 1`.
abbrev pub ceiling_of : ℕ → ℕ
ceiling_of layer = 2 ^ (layer + 1) - 1

unfoldable pub inserted : PartialQueue → ℕ → ℕ
inserted q l = (get_or q.layers l (0, 0)).1

unfoldable pub popped : PartialQueue → ℕ → ℕ
popped q l = (get_or q.layers l (0, 0)).0

unfoldable pub is_layer_full : PartialQueue → ℕ → Bool
unfolding inserted
is_layer_full q l = leb q.max_layer_size (inserted q l)

unfoldable pub enable : PartialQueue → ℕ → Result PartialQueue
enable q ls = do
  throw_if (ls == 0) logic_error
  ok (record q { values = some (replicate (ls * num_layers) 0); max_layer_size = ls })

unfoldable pub disable : PartialQueue → PartialQueue
disable q = record q { values = none; max_layer_size = 0 }

unfoldable pub clear : PartialQueue → PartialQueue
clear q = elim q.values [
  | none ↦ q
  | some d ↦ record q {
    index = 0;
    ceiling = ceiling_of (num_layers - 1);
    layers = replicate num_layers (0, 0);
  }
]

-- `while (key >= ceiling(idx)) ++idx;`
unfoldable pub find_layer : ℕ → ℕ → ℕ → Result ℕ
find_layer zero key idx = err out_of_fuel
find_layer (suc fuel) key idx =
    let more = find_layer fuel key (idx + 1) in if leb (ceiling_of idx) key then more else ok idx

unfoldable pub store : Option (List ℕ) → ℕ → ℕ → Result (Option (List ℕ))
store none at value = err undefined
store (some d) at value = if ltb at (length d) then ok (some (set d at value)) else err undefined

-- The layer takes the value, and where it is full then, no key of it or above is taken any more.
unfoldable pub put : PartialQueue → ℕ → ℕ → Result PartialQueue
unfolding inserted is_layer_full
put q idx value = do
  throw_if (is_layer_full q idx) logic_error
  d ← store q.values (q.max_layer_size * idx + inserted q idx) value
  let filled : PartialQueue = record q {
    values = d;
    index = min q.index idx;
    layers = set q.layers idx (popped q idx, inserted q idx + 1);
  }
  ok (
      if is_layer_full filled idx
      then record filled { ceiling = if ltb 0 idx then ceiling_of (idx - 1) else 0 }
      else filled)

unfoldable pub insert : PartialQueue → ℕ → ℕ → Result (PartialQueue × Bool)
unfolding put
insert q key value =
    let run = (do idx ← find_layer num_layers key 0; q' ← put q idx value; ok (q', true)) in
    if leb q.ceiling key then ok (q, false) else run

-- The loop moves the index past what is empty.
unfoldable pub prepare_from : ℕ → PartialQueue → Result (PartialQueue × Bool)
unfolding inserted popped is_layer_full
prepare_from zero q = err out_of_fuel
prepare_from (suc fuel) q =
    let more = prepare_from fuel (record q { index = q.index + 1 }) in
    if not (popped q q.index == inserted q q.index)
    then ok (q, true)
    else if is_layer_full q q.index || q.index + 1 == num_layers
    then ok (q, false)
    else more

unfoldable pub prepare_pop : PartialQueue → Result (PartialQueue × Bool)
prepare_pop q = prepare_from num_layers q

unfoldable pub load : Option (List ℕ) → ℕ → Result ℕ
load none at = err undefined
load (some d) at = if ltb at (length d) then ok (get_or d at 0) else err undefined

unfoldable pub pop : PartialQueue → Result (PartialQueue × ℕ)
unfolding inserted popped
pop q = do
  throw_if (leb num_layers q.index || leb (inserted q q.index) (popped q q.index)) logic_error
  v ← load q.values (q.index * q.max_layer_size + popped q q.index)
  ok (record q { layers = set q.layers q.index (popped q q.index + 1, inserted q q.index) }, v)
