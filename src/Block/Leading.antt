-- ===== src/Block/Leading.antt =====
-- `transfering` and `change_leader` of src/torrent/data/block.cc: a transfer starts, or takes the lead.
use mathlib.Core.List.{append_assoc}
use libtorrent.Common.{
  ℕ, ◌+◌, ◌<◌, List, Bool-cases, true, false, ◌==◌, ◌≡◌, some, ok, inl, inr, arith, refl, ap, ◌∙◌,
  not, ◌>>=◌, [], if◌then◌else◌, ◌++◌, ◌∷◌,
}
use libtorrent.Common.Counting.{
  count, tally, tally-remove_one, count-append, remove_one, count-remove_one, tally_same,
  tally-append, elem-count, elem,
}
use libtorrent.Block.{
  World, BlockTransfer, is_queued, transfer_at, save, TransferState, change_leader, step_down,
  is_finished, has_all, is_not_leader, is_at, is_some, transfering,
}
use libtorrent.Block.Shape.{eager, IsBlock}
use libtorrent.Block.Steps.{transfer_at-ok, apart}

leader_unfinished :
    (w : World) (l : ℕ) (u : BlockTransfer)
    → w.block.leader ≡ some l
    → w.store l ≡ some u
    → has_all u ≡ false
    → is_finished w ≡ false
unfolding is_finished
leader_unfinished w l u lead at_l unfinished = ground (arith, lead, at_l, unfinished)

leader_steps_down :
    (w : World) (l : ℕ) (u : BlockTransfer)
    → w.block.leader ≡ some l
    → w.store l ≡ some u
    → step_down w w.block.leader ≡ ok (save w l (record u { state = TransferState.not_leading }))
unfolding step_down
leader_steps_down w l u lead at_l = ap (step_down w) lead ∙ stepped w l u at_l
  where
    stepped :
        (w : World) (l : ℕ) (u : BlockTransfer)
        → w.store l ≡ some u
        → step_down w (some l) ≡ ok (save w l (record u { state = TransferState.not_leading }))
    stepped w l u at_l =
        ap (λ r. r >>= λ t. ok (save w l (record t { state = TransferState.not_leading })))
          (transfer_at-ok w l u at_l)

-- A transfer that follows takes the lead.
pub change_leader-IsBlock :
    (w : World) (past current : List ℕ) (a l : ℕ) (t u : BlockTransfer)
    → IsBlock w past current
    → w.store a ≡ some t
    → t.valid ≡ true
    → is_not_leader t ≡ true
    → w.block.leader ≡ some l
    → w.store l ≡ some u
    → has_all u ≡ false
    → (w' : World) × (change_leader w a ≡ ok w') × IsBlock w' past current
unfolding change_leader save
change_leader-IsBlock w past current a l t u i at valid behind lead at_l unfinished =
    let u' : BlockTransfer = record u { state = TransferState.not_leading } in
    let t' : BlockTransfer = record t { state = TransferState.leading } in
    let w1 = save w l u' in
    let w' : World = record (save w1 a t') { block = record w1.block { leader = some a } } in
    let first = i.one_leader l in
    let apart_ : (l == a) ≡ false = ground (arith, i.one_leader a, lead, at, behind) in
    let free : is_at w.block.leader a ≡ false = ground (arith, lead, apart_) in
    let down = leader_steps_down w l u lead at_l in
    let there : transfer_at w1 a ≡ ok t = transfer_at-ok w1 a t (ground (arith, at, apart_)) in
    let f : ℕ → ℕ = λ b. eager (w.store b) in
    let g : ℕ → ℕ = λ b. eager (w'.store b) in
    let same : (b : ℕ) → f b ≡ g b = λ b. ground (arith, at, at_l) in
    (
      w',
      rw (free, leader_unfinished w l u lead at_l unfinished) (rw down (rw there refl)),
      record {
        split = i.split;
        in_past = λ b there. ground (arith, i.in_past b there, at, valid, at_l, first, lead);
        in_queue = λ b. ground (arith, i.in_queue b, at, valid, behind, at_l, first, lead);
        in_current =
            λ b is. i.in_current b (ground (arith, is, at, valid, behind, at_l, first, lead));
        once = i.once;
        known = λ b there. ground (arith, i.known b there, at, valid, at_l, first, lead);
        one_leader = λ b. ground (arith, i.one_leader b, at, valid, behind, at_l, first, lead);
        led = λ b is. refl;
        counted = omega (
          arith,
          i.counted,
          tally_same f g w.block.queued (λ b there. same b),
          tally_same f g current (λ b there. same b),
        );
        fits = i.fits;
        new = λ b is. i.new b (ground (arith, is, at, at_l));
      },
    )

-- A queued transfer starts: it leads if no other does.
pub transfering-IsBlock :
    (w : World) (past current : List ℕ) (a : ℕ) (t : BlockTransfer)
    → IsBlock w past current
    → w.store a ≡ some t
    → t.valid ≡ true
    → is_queued t ≡ true
    → (w' : World) × (transfering w a ≡ ok (w', not (is_some w.block.leader)))
      × IsBlock w' past (current ++ (a ∷ []))
      × (w'.block.leader ≡ (if is_some w.block.leader then w.block.leader else some a))
unfolding transfering save count tally
transfering-IsBlock w past current a t i at valid waiting =
    let b = w.block in
    let follows_one = is_some b.leader in
    let t' : BlockTransfer = record t {
      state = if follows_one then TransferState.not_leading else TransferState.leading;
    } in
    let w' : World = record (save w a t') {
      block = record b {
        queued = remove_one a b.queued;
        transfers = b.transfers ++ (a ∷ []);
        leader = if follows_one then b.leader else some a;
      };
    } in
    let one : count a b.queued ≡ 1 = ground (arith, i.in_queue a, at, valid, waiting) in
    let there : 0 < count a b.queued = omega (arith, one) in
    let f : ℕ → ℕ = λ b. eager (w.store b) in
    let g : ℕ → ℕ = λ b. eager (w'.store b) in
    let same : (b : ℕ) → f b ≡ g b = λ b. ground (arith, at) in
    let none_yet = apart w past current a i (ground (arith, at, valid, waiting)) in
    let counts : (c : ℕ)
        → count c (current ++ (a ∷ [])) ≡ count c current + (if c == a then 1 else 0) =
      λ c. omega (arith, count-append c current (a ∷ [])) in
    let is_valid : not t.valid ≡ false = ap not valid in
    let listed : not (elem a b.queued) ≡ false = ap not (elem-count a b.queued there) in
    let chosen : transfering w a ≡ ok (w', not (is_some b.leader)) = rw (transfer_at-ok w a t at) (
      rw (is_valid, listed)
        (elim (Bool-cases (is_some b.leader)) [
          | inl led ↦ rw led refl
          | inr first ↦ rw first refl
        ])) in
    (
      w',
      chosen,
      record {
        split = ap (λ xs. xs ++ (a ∷ [])) i.split ∙ append_assoc past current (a ∷ []);
        in_past = λ c some_there. ground (arith, i.in_past c some_there, at, valid);
        in_queue = λ c.
            ground (arith, i.in_queue c, at, valid, waiting, count-remove_one a c b.queued there);
        in_current = λ c is. ground (arith, counts c, none_yet, i.in_current c, is, at);
        once = λ c. ground (arith, counts c, none_yet, i.once c);
        known = λ c some_there. ground (arith, counts c, some_there, i.known c, at, valid);
        one_leader = λ c. ground (arith, i.one_leader c, at, valid, waiting);
        led = λ c is. ground (arith, i.led c, is, at);
        counted = omega (
          arith,
          i.counted,
          tally-remove_one f a b.queued there,
          tally-append g current (a ∷ []),
          same a,
          tally_same f g (remove_one a b.queued) (λ c some_there. same c),
          tally_same f g current (λ c some_there. same c),
        );
        fits = i.fits;
        new = λ c is. i.new c (ground (arith, is, at));
      },
      refl,
    )
