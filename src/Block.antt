-- ===== src/Block.antt =====
-- src/torrent/data/block.h, block.cc and block_transfer.h: one block of a chunk, the transfers that peers are to
-- make of it and the one that leads. A transfer is an object on the heap, at an address; peers are
-- numbers. The other blocks of the chunk (block_list.h) come in as a count of those that are finished.
-- What cancel_transfer of a connection does is left out: `cancelled` lists the transfers that it is called
-- for.
pub mod Shape
pub mod Steps
pub mod Leading
pub mod Insert
pub mod Invalidate
pub mod Unlink
pub mod Erase
pub mod Abandon
pub mod Done
pub mod Completed
pub mod Dissimilar
pub mod Release
pub mod Life
use libtorrent.Common.{
  ℕ, ◌+◌, ◌-◌, ◌^◌, List, [], ◌∷◌, ◌++◌, Bool, true, false, not, ◌&&◌, ◌||◌, Option, none, some,
  Result, ok, err, throw_if, internal_error, undefined, if◌then◌else◌, ltb, ◌==◌, ◌>>=◌, ◌>>◌,
  sub32, add32,
}
use libtorrent.Common.Counting.{remove_one, elem, filter}

pub record Piece : Type 0 where
  pub index : ℕ
  pub offset : ℕ
  pub length : ℕ

pub data TransferState : Type 0 where
  erased queued leading not_leading : TransferState

-- `valid` tells whether the block is set; it is the one that is modelled.
pub record BlockTransfer : Type 0 where
  pub peer_info : Option ℕ
  pub valid : Bool
  pub piece : Piece
  pub state : TransferState
  pub request_time : ℕ
  pub position : ℕ
  pub stall : ℕ
  pub failed_index : ℕ

pub data BlockState : Type 0 where
  incomplete completed_state invalid : BlockState

-- `failed_current` is the current index of the failed list, if there is a list.
pub record Block : Type 0 where
  pub piece : Piece
  pub state : BlockState
  pub not_stalled : ℕ
  pub queued : List ℕ
  pub transfers : List ℕ
  pub leader : Option ℕ
  pub failed_current : Option ℕ

-- The block, the transfers on the heap, and of each peer how many transfers it has and whether it is
-- connected.
pub record World : Type 0 where
  pub store : ℕ → Option BlockTransfer
  pub fresh : ℕ
  pub block : Block
  pub counters : ℕ → ℕ
  pub connected : ℕ → Bool
  pub cancelled : List ℕ

-- The list of blocks that the block is in: the other blocks are counted.
pub record BlockList : Type 0 where
  pub size : ℕ
  pub finished : ℕ
  pub others_finished : ℕ

abbrev pub invalid_index : ℕ
invalid_index = 2 ^ 32 - 1

abbrev pub write_at {ℓ} : {A : Type ℓ} → (ℕ → A) → ℕ → A → ℕ → A
write_at f p v q = if p == q then v else f q

abbrev pub is_erased : BlockTransfer → Bool
is_erased t = elim t.state [ TransferState.erased ↦ true | _ ↦ false ]

abbrev pub is_queued : BlockTransfer → Bool
is_queued t = elim t.state [ TransferState.queued ↦ true | _ ↦ false ]

abbrev pub is_leader : BlockTransfer → Bool
is_leader t = elim t.state [ TransferState.leading ↦ true | _ ↦ false ]

abbrev pub is_not_leader : BlockTransfer → Bool
is_not_leader t = elim t.state [ TransferState.not_leading ↦ true | _ ↦ false ]

-- `BlockTransfer::is_finished`.
abbrev pub has_all : BlockTransfer → Bool
has_all t = t.position == t.piece.length

abbrev pub is_at : Option ℕ → ℕ → Bool
is_at none a = false
is_at (some b) a = b == a

abbrev pub is_some : Option ℕ → Bool
is_some none = false
is_some (some b) = true

-- A test of a transfer in the store; an address without a transfer is not followed.
abbrev pub on : (BlockTransfer → Bool) → Option BlockTransfer → Bool
on p none = false
on p (some t) = p t

unfoldable pub transfer_at : World → ℕ → Result BlockTransfer
transfer_at w a = elim (w.store a) [ none ↦ err undefined | some t ↦ ok t ]

unfoldable pub save : World → ℕ → BlockTransfer → World
save w a t = record w { store = write_at w.store a (some t) }

-- The number of transfers of a peer that `set_peer_info` takes off and puts on.
unfoldable pub dec_transfer_counter : (ℕ → ℕ) → Option ℕ → Result (ℕ → ℕ)
dec_transfer_counter counters none = ok counters
dec_transfer_counter counters (some p) = do
  throw_if (counters p == 0) internal_error
  ok (write_at counters p (counters p - 1))

unfoldable pub inc_transfer_counter : (ℕ → ℕ) → Option ℕ → Result (ℕ → ℕ)
inc_transfer_counter counters none = ok counters
inc_transfer_counter counters (some p) = do
  throw_if (counters p == 2 ^ 32 - 1) internal_error
  ok (write_at counters p (counters p + 1))

unfoldable pub set_peer_info : World → ℕ → Option ℕ → Result World
set_peer_info w a peer = do
  t ← transfer_at w a
  less ← dec_transfer_counter w.counters t.peer_info
  more ← inc_transfer_counter less peer
  ok (record (save w a (record t { peer_info = peer })) { counters = more })

unfoldable pub is_finished : World → Bool
is_finished w = elim w.block.leader [ none ↦ false | some a ↦ on has_all (w.store a) ]

unfoldable pub is_transfering : World → Bool
is_transfering w = elim w.block.leader [
  | none ↦ false
  | some a ↦ on (λ t. not (has_all t)) (w.store a)
]

-- `find_queued` and `find_transfer`, on the list of the one or the other.
unfoldable pub find_peer : World → List ℕ → ℕ → Option ℕ
find_peer w [] peer = none
find_peer w (a ∷ rest) peer =
    let later = find_peer w rest peer in
    if on (λ t. is_at t.peer_info peer) (w.store a) then some a else later

-- `insert`, with the time of the request: the address of the new transfer, if the peer had none.
unfoldable pub insert : World → ℕ → ℕ → Result (World × Option ℕ)
insert w peer time =
    let b = w.block in
    let t : BlockTransfer = record {
      peer_info = none;
      valid = true;
      piece = b.piece;
      state = TransferState.queued;
      request_time = time;
      position = 0;
      stall = 0;
      failed_index = invalid_index;
    } in
    let a = w.fresh in
    let add = (do
      w' ←
          set_peer_info
            (record w {
              store = write_at w.store a (some t);
              fresh = w.fresh + 1;
              block = record b {
                not_stalled = add32 b.not_stalled 1;
                queued = b.queued ++ (a ∷ []);
              };
            })
            a (some peer)
      ok (w', some a)) in
    if is_some (find_peer w b.queued peer) || is_some (find_peer w b.transfers peer)
    then ok (w, none)
    else add

-- `transfer->stall() == 0`, as a number.
abbrev pub one_if_eager : BlockTransfer → ℕ
one_if_eager t = if t.stall == 0 then 1 else 0

unfoldable pub invalidate_transfer : World → ℕ → Result World
invalidate_transfer w a = do
  throw_if (is_at w.block.leader a) internal_error
  t ← transfer_at w a
  throw_if (t.stall == 0 && w.block.not_stalled == 0) internal_error
  let t' : BlockTransfer = record t { valid = false }
  let b : Block = record w.block { not_stalled = w.block.not_stalled - one_if_eager t }
  ok (elim t.peer_info [
    | none ↦ record w { store = write_at w.store a none; block = b }
    | some p ↦ record w {
      store = write_at w.store a (some t');
      block = b;
      cancelled = if w.connected p then w.cancelled ++ (a ∷ []) else w.cancelled;
    }
  ])

unfoldable pub invalidate_all : World → List ℕ → Result World
invalidate_all w [] = ok w
invalidate_all w (a ∷ rest) = do w' ← invalidate_transfer w a; invalidate_all w' rest

abbrev pub set_transfers : World → List ℕ → World
set_transfers w xs = record w { block = record w.block { transfers = xs } }

unfoldable pub remove_erased_transfers : World → Result World
remove_erased_transfers w = do
  let kept = filter (λ a. not (on is_erased (w.store a))) w.block.transfers
  w' ← invalidate_all w (filter (λ a. on is_erased (w.store a)) w.block.transfers)
  ok (set_transfers w' kept)

unfoldable pub remove_non_leader_transfers : World → Result World
remove_non_leader_transfers w = do
  let kept = filter (λ a. on is_leader (w.store a)) w.block.transfers
  w' ← invalidate_all w (filter (λ a. not (on is_leader (w.store a))) w.block.transfers)
  ok (set_transfers w' kept)

-- `std::find_if_not` by is_leader: what comes before it, and the rest.
unfoldable pub split_leaders : World → List ℕ → List ℕ × List ℕ
split_leaders w [] = ([], [])
split_leaders w (a ∷ rest) =
    let (leaders, others) = split_leaders w rest in
    if on is_leader (w.store a) then (a ∷ leaders, others) else ([], a ∷ rest)

abbrev pub position_at : World → ℕ → ℕ
position_at w a = elim (w.store a) [ none ↦ 0 | some t ↦ t.position ]

-- `std::max_element` by position: the first of the largest.
unfoldable pub max_from : World → ℕ → List ℕ → ℕ
max_from w best [] = best
max_from w best (a ∷ rest) =
    max_from w (if ltb (position_at w best) (position_at w a) then a else best) rest

unfoldable pub max_element : World → List ℕ → Option ℕ
max_element w [] = none
max_element w (a ∷ rest) = some (max_from w a rest)

-- The new leader, if there is one; without one, what was given up is thrown out.
unfoldable pub take_lead : World → Option ℕ → Result World
take_lead w none = remove_erased_transfers (record w { block = record w.block { leader = none } })
take_lead w (some a) = do
  t ← transfer_at w a
  ok (record (save w a (record t { state = TransferState.leading })) {
    block = record w.block { leader = some a };
  })

-- The branch of `erase` for the leader: the furthest of the others takes its place. `leaders` is what comes
-- before the first transfer that is no leader.
unfoldable pub promote_from : World → List ℕ → List ℕ → Result World
promote_from w leaders others =
    let followers = filter (λ a. on is_not_leader (w.store a)) others in
    let rest = filter (λ a. not (on is_not_leader (w.store a))) others in
    take_lead (set_transfers w (leaders ++ (followers ++ rest))) (max_element w followers)

unfoldable pub promote : World → Result World
promote w = let parts = split_leaders w w.block.transfers in promote_from w parts.0 parts.1

abbrev pub is_completed : BlockState → Bool
is_completed BlockState.completed_state = true
is_completed _ = false

-- The part of `erase` that takes the transfer off its list.
unfoldable pub unlink : World → ℕ → BlockTransfer → Result World
unlink w a t =
    let b = w.block in
    let off_queue = (do
      throw_if (not (elem a b.queued)) internal_error
      ok (record w { block = record b { queued = remove_one a b.queued } })) in
    let off_transfers = (do
      throw_if (not (elem a b.transfers)) internal_error
      let w' = set_transfers w (remove_one a b.transfers)
      let lead = (do throw_if (is_completed b.state) internal_error; promote w')
      if is_at b.leader a then lead else ok w') in
    if is_queued t then off_queue else if not (has_all t) then off_transfers else err internal_error

unfoldable pub erase : World → ℕ → Result World
erase w a = do
  t ← transfer_at w a
  throw_if (is_erased t) internal_error
  throw_if (is_some t.peer_info) internal_error
  w' ←
      unlink
        (record w {
          block = record w.block { not_stalled = sub32 w.block.not_stalled (one_if_eager t) };
        })
        a t
  ok (record w' { store = write_at w'.store a none })

unfoldable pub release : World → ℕ → Result World
release w a = do
  w' ← set_peer_info w a none
  t ← transfer_at w' a
  let whole = erase w' a
  if t.valid then whole else ok (record w' { store = write_at w'.store a none })

-- `transfering`, and whether the transfer leads.
unfoldable pub transfering : World → ℕ → Result (World × Bool)
transfering w a = do
  t ← transfer_at w a
  throw_if (not t.valid) internal_error
  let b = w.block
  throw_if (not (elem a b.queued)) internal_error
  let b' : Block = record b { queued = remove_one a b.queued; transfers = b.transfers ++ (a ∷ []) }
  let lead : World × Bool = (
    record (save w a (record t { state = TransferState.leading })) {
      block = record b' { leader = some a };
    },
    true,
  )
  let follow : World × Bool =
      (record (save w a (record t { state = TransferState.not_leading })) { block = b' }, false)
  ok (if is_some b.leader then follow else lead)

abbrev pub last_is : List ℕ → ℕ → Bool
last_is [] a = false
last_is (b ∷ []) a = b == a
last_is (b ∷ c ∷ rest) a = last_is (c ∷ rest) a

-- `completed`: the world, the list of blocks, and whether all of them are finished.
unfoldable pub completed : World → BlockList → ℕ → Result (World × BlockList × Bool)
completed w parent a = do
  t ← transfer_at w a
  throw_if (not t.valid) internal_error
  throw_if (not (is_leader t)) internal_error
  throw_if (not (is_finished w)) internal_error
  throw_if (not (is_at w.block.leader a)) internal_error
  let parent' : BlockList = record parent { finished = add32 parent.finished 1 }
  throw_if (ltb (parent.others_finished + 1) parent'.finished) internal_error
  let b = w.block
  w1 ←
      invalidate_all
        (record (save w a (record t { valid = false; stall = 2 ^ 32 - 1 })) {
          block = record b { not_stalled = sub32 b.not_stalled (one_if_eager t) };
        })
        b.queued
  w2 ← remove_non_leader_transfers (record w1 { block = record w1.block { queued = [] } })
  throw_if (not (last_is w2.block.transfers a)) internal_error
  ok (
    record w2 { block = record w2.block { state = BlockState.completed_state } },
    parent',
    parent'.finished == parent'.size,
  )

unfoldable pub retry_transfer : World → World
retry_transfer w = record w { block = record w.block { state = BlockState.incomplete } }

unfoldable pub transfer_dissimilar : World → ℕ → Result World
transfer_dissimilar w a = do
  t ← transfer_at w a
  throw_if (not (is_not_leader t) || is_at w.block.leader a) internal_error
  ok (record (save w a (record t { state = TransferState.erased; position = 0; valid = false })) {
    block = record w.block { not_stalled = sub32 w.block.not_stalled (one_if_eager t) };
  })

unfoldable pub stalled_transfer : World → ℕ → Result World
stalled_transfer w a = do
  t ← transfer_at w a
  throw_if (t.stall == 0 && w.block.not_stalled == 0) internal_error
  ok (record (save w a (record t { stall = add32 t.stall 1 })) {
    block = record w.block { not_stalled = w.block.not_stalled - one_if_eager t };
  })

unfoldable pub stalled : World → ℕ → Result World
stalled w a = do
  t ← transfer_at w a
  let count_it = stalled_transfer w a
  if t.valid then count_it else ok w

unfoldable pub step_down : World → Option ℕ → Result World
step_down w none = ok w
step_down w (some l) = do
  t ← transfer_at w l
  ok (save w l (record t { state = TransferState.not_leading }))

unfoldable pub change_leader : World → ℕ → Result World
change_leader w a = do
  throw_if (is_at w.block.leader a) internal_error
  throw_if (is_finished w) internal_error
  w1 ← step_down w w.block.leader
  t ← transfer_at w1 a
  ok (record (save w1 a (record t { state = TransferState.leading })) {
    block = record w1.block { leader = some a };
  })

unfoldable pub failed_leader : World → Result World
failed_leader w = do
  throw_if (not (is_finished w)) internal_error
  let b = w.block
  ok (record w {
    block = record b {
      leader = none;
      failed_current = elim b.failed_current [ none ↦ none | some i ↦ some invalid_index ];
    };
  })

-- `create_dummy`, of a transfer at `a` that has been allocated.
unfoldable pub create_dummy : World → ℕ → ℕ → Piece → Result World
create_dummy w a peer piece = do
  w' ← set_peer_info w a (some peer)
  t ← transfer_at w' a
  ok (
      save w' a (record t {
        valid = false;
        piece = piece;
        state = TransferState.erased;
        position = 0;
        stall = 0;
        failed_index = invalid_index;
      }))
