-- ===== src/Block/Insert.antt =====
-- `insert` of src/torrent/data/block.cc, and the counters of the peers.

use libtorrent.Common.{
  ℕ, ◌+◌, ◌-◌, ◌^◌, ◌<◌, List, [], ◌∷◌, ◌++◌, Bool-cases, true, false, if◌then◌else◌, ◌==◌, ◌≡◌,
  Option, Option-cases, none, some, ok, inl, inr, arith, refl, ap, ◌∙◌, add32, ltb,
}
use libtorrent.Common.Counting.{count, tally, count-append, tally-append, tally_same}
use libtorrent.Block.{
  World, BlockTransfer, TransferState, write_at, save, set_peer_info, dec_transfer_counter,
  inc_transfer_counter, insert, find_peer, invalid_index,
}
use libtorrent.Block.Shape.{eager, IsBlock}
use libtorrent.Block.Steps.{transfer_at-ok}

dec_none : (c : ℕ → ℕ) (o : Option ℕ) → o ≡ none → dec_transfer_counter c o ≡ ok c
unfolding dec_transfer_counter
dec_none c o e = ap (dec_transfer_counter c) e

dec_some :
    (c : ℕ → ℕ) (o : Option ℕ) (p : ℕ)
    → o ≡ some p
    → (c p == 0) ≡ false
    → dec_transfer_counter c o ≡ ok (write_at c p (c p - 1))
dec_some c o p e room =
    ap (dec_transfer_counter c) e ∙ (unfold dec_transfer_counter in rw room refl)

inc_some :
    (c : ℕ → ℕ) (p : ℕ)
    → (c p == 2 ^ 32 - 1) ≡ false
    → inc_transfer_counter c (some p) ≡ ok (write_at c p (c p + 1))
unfolding inc_transfer_counter
inc_some c p room = rw room refl

inc_none : (c : ℕ → ℕ) → inc_transfer_counter c none ≡ ok c
unfolding inc_transfer_counter
inc_none c = refl

pub set_peer_info_on :
    (w : World) (a p : ℕ) (t : BlockTransfer)
    → w.store a ≡ some t
    → t.peer_info ≡ none
    → (w.counters p == 2 ^ 32 - 1) ≡ false
    → set_peer_info w a (some p)
      ≡ ok (record (save w a (record t { peer_info = some p })) {
        counters = write_at w.counters p (w.counters p + 1);
      })
unfolding set_peer_info
set_peer_info_on w a p t at free room =
    rw (transfer_at-ok w a t at)
      (rw (dec_none w.counters t.peer_info free) (rw (inc_some w.counters p room) refl))

pub set_peer_info_off :
    (w : World) (a p : ℕ) (t : BlockTransfer)
    → w.store a ≡ some t
    → t.peer_info ≡ some p
    → (w.counters p == 0) ≡ false
    → set_peer_info w a none
      ≡ ok (record (save w a (record t { peer_info = none })) {
        counters = write_at w.counters p (w.counters p - 1);
      })
unfolding set_peer_info
set_peer_info_off w a p t at has some_left = rw (transfer_at-ok w a t at) (
    rw (dec_some w.counters t.peer_info p has some_left)
      (rw (inc_none (write_at w.counters p (w.counters p - 1))) refl))

pub nothing_new :
    (w : World) (past current : List ℕ) → IsBlock w past current → w.store w.fresh ≡ none
nothing_new w past current i = elim (Option-cases (w.store w.fresh)) [
  | inl e ↦ e
  | inr (t, e) ↦ absurd (ground (arith, i.new w.fresh, e))
]

not_current :
    (w : World) (past current : List ℕ) (a : ℕ)
    → IsBlock w past current
    → w.store a ≡ none
    → count a current ≡ 0
not_current w past current a i gone = elim (Bool-cases (ltb 0 (count a current))) [
  | inr nowhere ↦ ground (arith, nowhere)
  | inl there ↦ absurd (ground (arith, i.known a (ground (arith, there)), gone))
]

-- A transfer of a peer that has none is queued.
pub insert-IsBlock :
    (w : World) (past current : List ℕ) (peer time : ℕ)
    → IsBlock w past current
    → find_peer w w.block.queued peer ≡ none
    → find_peer w w.block.transfers peer ≡ none
    → w.block.not_stalled + 1 < 2 ^ 32
    → (w.counters peer == 2 ^ 32 - 1) ≡ false
    → (w' : World) × (insert w peer time ≡ ok (w', some w.fresh))
      × IsBlock w' past current
      × (w'.block.queued ≡ w.block.queued ++ (w.fresh ∷ []))
unfolding insert save count tally
insert-IsBlock w past current peer time i unqueued unstarted small room =
    let b = w.block in
    let a = w.fresh in
    let t : BlockTransfer = record {
      peer_info = none;
      valid = true;
      piece = b.piece;
      state = TransferState.queued;
      request_time = time;
      position = 0;
      stall = 0;
      failed_index = invalid_index;
    } in
    let w1 : World = record w {
      store = write_at w.store a (some t);
      fresh = w.fresh + 1;
      block = record b { not_stalled = add32 b.not_stalled 1; queued = b.queued ++ (a ∷ []) };
    } in
    let w' : World = record (save w1 a (record t { peer_info = some peer })) {
      counters = write_at w1.counters peer (w1.counters peer + 1);
    } in
    let nothing = nothing_new w past current i in
    let f : ℕ → ℕ = λ c. eager (w.store c) in
    let g : ℕ → ℕ = λ c. eager (w'.store c) in
    let unlisted : count a b.queued ≡ 0 = ground (arith, i.in_queue a, nothing) in
    let uncurrent : count a current ≡ 0 = not_current w past current a i nothing in
    let counts : (c : ℕ)
        → count c (b.queued ++ (a ∷ [])) ≡ count c b.queued + (if c == a then 1 else 0) =
      λ c. omega (arith, count-append c b.queued (a ∷ [])) in
    (
      w',
      rw (unqueued, unstarted) (rw (set_peer_info_on w1 a peer t (ground arith) refl room) refl),
      record {
        split = i.split;
        in_past = λ c there. ground (arith, i.in_past c there, nothing);
        in_queue = λ c. ground (arith, i.in_queue c, counts c, unlisted);
        in_current = λ c is. i.in_current c (ground (arith, is));
        once = i.once;
        known = λ c there. ground (arith, i.known c there, nothing);
        one_leader = λ c. ground (arith, i.one_leader c, nothing);
        led = λ c is. i.led c (ground (arith, is));
        counted = ground (
          arith,
          i.counted,
          tally-append g b.queued (a ∷ []),
          small,
          tally_same f g b.queued (λ c there. ground (arith, there, unlisted)),
          tally_same f g current (λ c there. ground (arith, there, uncurrent)),
        );
        fits = omega arith;
        new = λ c is. ground (arith, is, i.new c);
      },
      refl,
    )
