-- ===== src/Tests/Block.antt =====
-- Runs of src/torrent/data/block.cc on a block that two peers transfer.
use libtorrent.Block.Release.{release-IsBlock, IsSucceeded}
use libtorrent.Block.Dissimilar.{completed-transfer_dissimilar}
use libtorrent.Block.Completed.{completed-IsDone}
use libtorrent.Block.Done.{IsDone, failed_leader-IsBlock}
use libtorrent.Block.Shape.{IsBlock}
use libtorrent.Block.{
  World, BlockState, Piece, insert, set_peer_info, transfer_at, save, dec_transfer_counter,
  inc_transfer_counter, find_peer, transfering, stalled, stalled_transfer, release, erase, unlink,
  promote, promote_from, split_leaders, take_lead, max_element, max_from, TransferState,
  BlockTransfer, BlockList, invalid_index, completed, transfer_dissimilar, failed_leader,
  retry_transfer, is_completed,
}
use libtorrent.Common.Counting.{count, tally, remove_one, elem, filter}
use libtorrent.Common.{
  ℕ, List, [], ◌∷◌, none, some, true, false, arith, refl, ok, ◌≡◌, inl, map_ok, Option,
  if◌then◌else◌, ◌==◌, ◌^◌, ◌-◌, add32, err, internal_error, ◌>>=◌,
}
use libtorrent.Block.Life.{
  operate_all-IsBlock, Operation, asked_of, started, stalled_once, released, operate, IsAllowed,
  IsSchedule, operate_all,
}

abbrev whole_piece : Piece
whole_piece = record { index = 7; offset = 0; length = 100 }

-- A block without transfers.
abbrev new_block : World
new_block = record {
  store = λ a. none;
  fresh = 0;
  block = record {
    piece = whole_piece;
    state = BlockState.incomplete;
    not_stalled = 0;
    queued = [];
    transfers = [];
    leader = none;
    failed_current = none;
  };
  counters = λ p. 0;
  connected = λ p. true;
  cancelled = [];
}

new_block-IsBlock : IsBlock new_block [] []
unfolding count tally
new_block-IsBlock = record {
  split = refl;
  in_past = λ a there. absurd (omega (arith, there));
  in_queue = λ a. refl;
  in_current = λ a is. absurd (ground (arith, is));
  once = λ a. omega arith;
  known = λ a there. absurd (omega (arith, there));
  one_leader = λ a. refl;
  led = λ a is. absurd (ground (arith, is));
  counted = refl;
  fits = omega arith;
  new = λ a is. absurd (ground (arith, is));
}

-- Two peers start; the one that leads goes.
abbrev two_peers : List Operation
two_peers = asked_of 1 10 ∷ asked_of 2 11 ∷ started 0 ∷ started 1 ∷ stalled_once 1 ∷ released 0 ∷ []

two_peers-IsSchedule : IsSchedule (ok new_block) two_peers
unfolding IsSchedule IsAllowed operate insert set_peer_info transfer_at save dec_transfer_counter
    inc_transfer_counter find_peer transfering stalled stalled_transfer release erase unlink promote
    promote_from split_leaders take_lead max_element max_from remove_one elem filter
two_peers-IsSchedule = (
  (refl, refl, omega arith, refl),
  (
    (refl, refl, omega arith, refl),
    (
      (_, refl, refl, refl),
      (
        (_, refl, refl, refl),
        ((_, refl, λ valid. omega arith), ((_, 1, refl, refl, refl, inl (refl, refl, refl)), tt)),
      ),
    ),
  ),
)

-- The leader, the transfers that are not queued, and how many are not stalled.
abbrev summary : World → Option ℕ × List ℕ × ℕ
summary w = (w.block.leader, w.block.transfers, w.block.not_stalled)

two_peers_run : map_ok summary (operate_all new_block two_peers) ≡ ok (some 1, 1 ∷ [], 0)
unfolding operate_all operate insert set_peer_info transfer_at save dec_transfer_counter
    inc_transfer_counter find_peer transfering stalled stalled_transfer release erase unlink promote
    promote_from split_leaders take_lead max_element max_from remove_one elem filter
two_peers_run = refl

operate_all-IsBlock_example :
    (w' : World) × (past' : List ℕ) × (current' : List ℕ) × (operate_all new_block two_peers
      ≡ ok w')
    × IsBlock w' past' current'
operate_all-IsBlock_example =
    operate_all-IsBlock new_block [] [] two_peers new_block-IsBlock two_peers-IsSchedule

abbrev transfer_of : ℕ → TransferState → ℕ → BlockTransfer
transfer_of peer state position = record {
  peer_info = some peer;
  valid = true;
  piece = whole_piece;
  state = state;
  request_time = 10;
  position = position;
  stall = 0;
  failed_index = invalid_index;
}

-- The transfer at 0 leads and has everything; the one at 1 follows.
abbrev two_moving : World
two_moving = record {
  store = λ a.
      if a == 0
      then some (transfer_of 1 TransferState.leading 100)
      else if a == 1
      then some (transfer_of 2 TransferState.not_leading 30)
      else none;
  fresh = 2;
  block = record {
    piece = whole_piece;
    state = BlockState.incomplete;
    not_stalled = 2;
    queued = [];
    transfers = 0 ∷ 1 ∷ [];
    leader = some 0;
    failed_current = none;
  };
  counters = λ p. 1;
  connected = λ p. true;
  cancelled = [];
}

two_moving-IsBlock : IsBlock two_moving [] (0 ∷ 1 ∷ [])
unfolding count tally
two_moving-IsBlock = record {
  split = refl;
  in_past = λ a there. absurd (omega (arith, there));
  in_queue = λ a. ground arith;
  in_current = λ a is. ground (arith, is);
  once = λ a. ground arith;
  known = λ a there. ground (arith, there);
  one_leader = λ a. ground arith;
  led = λ a is. refl;
  counted = refl;
  fits = omega arith;
  new = λ a is. ground (arith, is);
}

release-IsBlock_example :
    (w' : World) × (next : List ℕ) × (release two_moving 1 ≡ ok w')
    × IsBlock w' [] next
    × (w'.store 1 ≡ none)
    × IsSucceeded two_moving w' 1
release-IsBlock_example =
    release-IsBlock two_moving [] (0 ∷ 1 ∷ []) 1 2 (transfer_of 2 TransferState.not_leading 30)
      two_moving-IsBlock refl refl refl refl refl refl

abbrev half_done : BlockList
half_done = record { size = 2; finished = 0; others_finished = 0 }

completed-IsDone_example :
    (w' : World) × (completed two_moving half_done 0
      ≡ ok (
        w',
        record half_done { finished = add32 half_done.finished 1 },
        add32 half_done.finished 1 == half_done.size,
      ))
    × IsDone w' [] 0
completed-IsDone_example =
    completed-IsDone two_moving [] (0 ∷ 1 ∷ []) 0 (transfer_of 1 TransferState.leading 100)
      half_done two_moving-IsBlock refl refl refl refl (omega arith)

completed-transfer_dissimilar_example :
    (transfer_dissimilar two_moving 1 >>= λ w'. completed w' half_done 0) ≡ err internal_error
completed-transfer_dissimilar_example =
    completed-transfer_dissimilar two_moving 0 1 (transfer_of 1 TransferState.leading 100)
      (transfer_of 2 TransferState.not_leading 30) half_done two_moving-IsBlock refl refl refl refl
      refl refl refl refl refl (omega arith)

-- The block that is completed, with its one transfer.
abbrev done_block : World
done_block = record two_moving {
  store = λ a.
      if a == 0
      then some
          (record (transfer_of 1 TransferState.leading 100) { valid = false; stall = 2 ^ 32 - 1 })
      else none;
  block = record two_moving.block {
    state = BlockState.completed_state;
    not_stalled = 0;
    transfers = 0 ∷ [];
  };
}

done_block-IsDone : IsDone done_block [] 0
unfolding count
done_block-IsDone = record {
  split = refl;
  in_past = λ c there. ground (arith, there);
  free = λ c. ground arith;
  leader = refl;
  whole = refl;
  state = refl;
  queued = refl;
  counted = refl;
  new = λ c is. ground (arith, is);
}

failed_leader-IsBlock_example :
    (w' : World) × (failed_leader done_block ≡ ok w')
    × IsBlock (retry_transfer w') (0 ∷ []) []
    × (is_completed (retry_transfer w').block.state ≡ false)
failed_leader-IsBlock_example = failed_leader-IsBlock done_block [] 0 done_block-IsDone
