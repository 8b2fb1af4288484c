-- ===== src/Block/Release.antt =====
-- `release` of src/torrent/data/block.cc as a whole.
use libtorrent.Common.{
  ℕ, ◌-◌, ◌≤◌, ◌<◌, List, [], ◌++◌, Bool-cases, true, false, not, ◌||◌, ◌==◌, ◌≡◌, Option,
  Option-cases, none, some, ok, inl, inr, arith, refl, ap, ◌∙◌, sub32,
}
use libtorrent.Common.Counting.{count, elem-count, count-filter, tally_same}
use libtorrent.Block.{
  World, BlockTransfer, on, is_at, is_some, is_erased, is_queued, has_all, write_at, save, erase,
  release, unlink, take_lead, max_element, position_at, is_completed, is_not_leader, one_if_eager,
  set_transfers,
}
use libtorrent.Block.Shape.{moves, follows, IsBlock, eager}
use libtorrent.Block.Steps.{transfer_at-ok}
use libtorrent.Block.Insert.{set_peer_info_off}
use libtorrent.Block.Erase
use libtorrent.Block.Abandon
use libtorrent.Block.Unlink.{
  unlink_queued, unlink_follower, unlink_leader, max_element-cases, take_lead-some, take_lead-none,
}

-- What the block has for a leader once `a` is off.
pub record IsSucceeded (w w' : World) (a : ℕ) : Type 0 where
  pub kept : is_at w.block.leader a ≡ false → w'.block.leader ≡ w.block.leader
  pub furthest :
      (m c : ℕ)
      → is_at w.block.leader a ≡ true
      → w'.block.leader ≡ some m
      → follows (w.store c) ≡ true
      → position_at w c ≤ position_at w m
  pub chosen :
      (m : ℕ)
      → is_at w.block.leader a ≡ true
      → w'.block.leader ≡ some m
      → follows (w.store m) ≡ true
  pub vacant :
      (c : ℕ) → is_at w.block.leader a ≡ true → w'.block.leader ≡ none → follows (w.store c) ≡ false

-- A transfer of no peer, that waits or has not finished, is taken off.
module _ (w : World) (past current : List ℕ) (a : ℕ) (t : BlockTransfer)
    (i : IsBlock w past current) (at : w.store a ≡ some t) (valid : t.valid ≡ true)
    (nobody : t.peer_info ≡ none) (running : is_completed w.block.state ≡ false) where
  lighter : World
  lighter = record w {
    block = record w.block { not_stalled = sub32 w.block.not_stalled (one_if_eager t) };
  }

  not_erased : is_erased t ≡ false
  not_erased = elim (Bool-cases (is_queued t)) [
    | inl waiting ↦ ground (arith, waiting)
    | inr started ↦
        let moving : moves (w.store a) ≡ true = ground (arith, at, valid, started) in
        ground (arith, i.known a (omega (arith, i.in_current a moving)), at, valid)
  ]

  erase-unlink :
      (w' : World)
      → unlink lighter a t ≡ ok w'
      → erase w a ≡ ok (record w' { store = write_at w'.store a none })
  unfolding erase lighter
  erase-unlink w' run =
      let free : is_some t.peer_info ≡ false = ap is_some nobody in
      rw (transfer_at-ok w a t at) (rw not_erased (rw free (rw run refl)))

  Outcome : Type 0
  Outcome =
      (w' : World) × (next : List ℕ) × (erase w a ≡ ok w')
      × IsBlock w' past next
      × (w'.store a ≡ none)
      × IsSucceeded w w' a

  waiting-Outcome : is_queued t ≡ true → Outcome
  unfolding Outcome lighter Erase.unqueued Erase.less
  waiting-Outcome waiting =
      let behind : is_at w.block.leader a ≡ false =
        ground (arith, i.one_leader a, at, valid, waiting) in
      let listed : 0 < count a w.block.queued = ground (arith, i.in_queue a, at, valid, waiting) in
      (
        Erase.unqueued w past current a t i at valid,
        current,
        erase-unlink _ (unlink_queued lighter a t waiting (elem-count a w.block.queued listed)),
        Erase.unqueued-IsBlock w past current a t i at valid waiting,
        ground arith,
        record {
          kept = λ e. refl;
          furthest = λ m c lead is f. absurd (ground (arith, lead, behind));
          chosen = λ m lead is. absurd (ground (arith, lead, behind));
          vacant = λ c lead is. absurd (ground (arith, lead, behind));
        },
      )

  module _ (started : is_queued t ≡ false) (part : has_all t ≡ false) where
    behind-Outcome : is_at w.block.leader a ≡ false → Outcome
    unfolding Outcome lighter Erase.unstarted Erase.less
    behind-Outcome behind = (
      Erase.unstarted w past current a t i at valid started,
      Erase.without w past current a t i at valid started,
      erase-unlink _ (
          unlink_follower lighter a t started part
            (Erase.in_transfers w past current a t i at valid started) behind),
      Erase.unstarted-IsBlock w past current a t i at valid started behind,
      ground arith,
      record {
        kept = λ e. refl;
        furthest = λ m c lead is f. absurd (ground (arith, lead, behind));
        chosen = λ m lead is. absurd (ground (arith, lead, behind));
        vacant = λ c lead is. absurd (ground (arith, lead, behind));
      },
    )

    module _ (lead : is_at w.block.leader a ≡ true) where
      crew : List ℕ
      crew = Erase.followers w past current a t i at valid started lead

      follower_in : (c : ℕ) → follows (w.store c) ≡ true → 0 < count c crew
      unfolding crew Erase.followers
      follower_in c f =
          let rest = Erase.without w past current a t i at valid started in
          let moving : moves (w.store c) ≡ true = follows-moves (w.store c) f in
          let not_a : (c == a) ≡ false = other c f in
          ground (
            arith,
            count-filter (λ d. on is_not_leader (w.store d)) c rest,
            Erase.without-count w past current a t i at valid started c,
            i.in_current c moving,
            not_a,
            f,
          )
        where
          follows-moves : (o : Option BlockTransfer) → follows o ≡ true → moves o ≡ true
          follows-moves none e = e
          follows-moves (some u) e = ground (arith, e)

          other : (c : ℕ) → follows (w.store c) ≡ true → (c == a) ≡ false
          other c f = ground (arith, f, i.one_leader a, lead, at)

      parted : World
      parted =
          let s = Erase.orphaned w past current a t i at valid started lead in
          set_transfers s
            (past ++ (crew ++ Erase.given_up w past current a t i at valid started lead))

      unlink-take_lead :
          unlink lighter a t
          ≡ take_lead parted
              (max_element (Erase.orphaned w past current a t i at valid started lead) crew)
      unfolding parted crew Erase.orphaned Erase.less lighter
      unlink-take_lead =
          unlink_leader lighter a t started part
            (Erase.in_transfers w past current a t i at valid started) lead running
          ∙ Erase.promote-take_lead w past current a t i at valid started lead

      succeeded-Outcome :
          (m : ℕ)
          → max_element (Erase.orphaned w past current a t i at valid started lead) crew ≡ some m
          → 0 < count m crew
          → ((c : ℕ) → 0 < count c crew → position_at w c ≤ position_at w m)
          → Outcome
      unfolding Outcome Erase.followers Erase.given_up Erase.succeeded Erase.orphaned Erase.less
          crew parted save
      succeeded-Outcome m found member top = elim (Option-cases (w.store m)) [
        | inl gone ↦ absurd (
            ground
              (arith, Erase.follower_is w past current a t i at valid started lead m member, gone))
        | inr (u, at_m) ↦ (
          Erase.succeeded w past current a t i at valid started lead m u member at_m,
          crew ++ Erase.given_up w past current a t i at valid started lead,
          erase-unlink _
              (unlink-take_lead ∙ ap (take_lead parted) found ∙ take_lead-some parted m u at_m),
          Erase.succeeded-IsBlock w past current a t i at valid started lead m u member at_m,
          ground arith,
          record {
            kept = λ e. absurd (ground (arith, e, lead));
            furthest = λ m' c _ is f. ground (arith, is, top c (follower_in c f));
            chosen = λ m' _ is.
                ground (
                  arith,
                  is,
                  Erase.follower_is w past current a t i at valid started lead m member,
                );
            vacant = λ c _ is. absurd (ground (arith, is));
          },
        )
      ]

      abandoned-Outcome :
          max_element (Erase.orphaned w past current a t i at valid started lead) crew ≡ none
          → crew ≡ []
          → Outcome
      unfolding Outcome crew parted Abandon.leaderless Erase.orphaned Abandon.abandoned count
      abandoned-Outcome found alone =
          let (w2, run, v) = Abandon.dropped_all w past current a t i at valid started lead alone in
          let drop = Abandon.to_drop w past current a t i at valid started lead alone in
          let keep = Abandon.to_keep w past current a t i at valid started lead alone in
          let unled : (Abandon.abandoned w past current a t i at valid started lead
                alone).block.leader
              ≡ none =
            ap (λ b. b.leader) v.block in
          (
            Abandon.abandoned w past current a t i at valid started lead alone,
            [],
            erase-unlink _ (
                unlink-take_lead
                ∙ ap (take_lead parted) found
                ∙ take_lead-none parted w2 _ past drop keep run),
            Abandon.abandoned-IsBlock w past current a t i at valid started lead alone,
            ground arith,
            record {
              kept = λ e. absurd (ground (arith, e, lead));
              furthest = λ m' c _ is f. absurd (ground (arith, is, unled));
              chosen = λ m' _ is. absurd (ground (arith, is, unled));
              vacant = λ c _ is. elim (Bool-cases (follows (w.store c))) [
                | inr behind ↦ behind
                | inl f ↦ absurd (omega (arith, follower_in c f, ap (count c) alone))
              ];
            },
          )

      leader-Outcome : Outcome
      unfolding Erase.orphaned
      leader-Outcome =
          elim (max_element-cases (Erase.orphaned w past current a t i at valid started lead)
            crew) [
              | inl (alone, found) ↦ abandoned-Outcome found alone
              | inr (m, found, member, top) ↦ succeeded-Outcome m found member top
            ]

  erase-Outcome : is_queued t || not (has_all t) ≡ true → Outcome
  erase-Outcome open_ = elim (Bool-cases (is_queued t)) [
    | inl waiting ↦ waiting-Outcome waiting
    | inr started ↦
        let part : has_all t ≡ false = ground (arith, open_, started) in
        elim (Bool-cases (is_at w.block.leader a)) [
          | inl lead ↦ leader-Outcome started part lead
          | inr behind ↦ behind-Outcome started part behind
        ]
  ]

-- The peer of a transfer is taken off it; the block stays as it is.
abbrev disowned : World → ℕ → ℕ → BlockTransfer → World
disowned w a p t = record w {
  store = write_at w.store a (some (record t { peer_info = none }));
  counters = write_at w.counters p (w.counters p - 1);
}

disowned-IsBlock :
    (w : World) (past current : List ℕ) (a p : ℕ) (t : BlockTransfer)
    → IsBlock w past current
    → w.store a ≡ some t
    → IsBlock (disowned w a p t) past current
disowned-IsBlock w past current a p t i at =
    let f : ℕ → ℕ = λ c. eager (w.store c) in
    let g : ℕ → ℕ = λ c. eager ((disowned w a p t).store c) in
    let same : (c : ℕ) → f c ≡ g c = λ c. ground (arith, at) in
    record {
      split = i.split;
      in_past = λ c there. ground (arith, i.in_past c there, at);
      in_queue = λ c. ground (arith, i.in_queue c, at);
      in_current = λ c is. i.in_current c (ground (arith, is, at));
      once = i.once;
      known = λ c there. ground (arith, i.known c there, at);
      one_leader = λ c. ground (arith, i.one_leader c, at);
      led = λ c is. i.led c (ground (arith, is, at));
      counted = omega (
        arith,
        i.counted,
        tally_same f g w.block.queued (λ c there. same c),
        tally_same f g current (λ c there. same c),
      );
      fits = i.fits;
      new = λ c is. i.new c (ground (arith, is, at));
    }

disowned-IsSucceeded :
    (w w' : World) (a p : ℕ) (t : BlockTransfer)
    → w.store a ≡ some t
    → IsSucceeded (disowned w a p t) w' a
    → IsSucceeded w w' a
disowned-IsSucceeded w w' a p t at s = record {
  kept = s.kept;
  furthest = λ m c lead is f. ground (arith, s.furthest m c lead is (ground (arith, f, at)), at);
  chosen = λ m lead is. ground (arith, s.chosen m lead is, at);
  vacant = λ c lead is. ground (arith, s.vacant c lead is, at);
}

release-erase :
    (w : World) (a p : ℕ) (t : BlockTransfer)
    → w.store a ≡ some t
    → t.valid ≡ true
    → t.peer_info ≡ some p
    → (w.counters p == 0) ≡ false
    → release w a ≡ erase (disowned w a p t) a
unfolding release save
release-erase w a p t at valid has some_left = rw (set_peer_info_off w a p t at has some_left) (
    rw (transfer_at-ok (disowned w a p t) a (record t { peer_info = none }) (ground (arith, at)))
      (rw valid refl))

-- release of a transfer of a well-formed block that is not completed, which waits or has not
-- finished, succeeds, deletes the transfer and leaves a well-formed block; the leader stays unless
-- it was the one: then one of those that followed takes its place, which no other is ahead of, and
-- there is no leader only where none followed.
pub release-IsBlock :
    (w : World) (past current : List ℕ) (a p : ℕ) (t : BlockTransfer)
    → IsBlock w past current
    → w.store a ≡ some t
    → t.valid ≡ true
    → t.peer_info ≡ some p
    → (w.counters p == 0) ≡ false
    → is_queued t || not (has_all t) ≡ true
    → is_completed w.block.state ≡ false
    → (w' : World) × (next : List ℕ) × (release w a ≡ ok w')
      × IsBlock w' past next
      × (w'.store a ≡ none)
      × IsSucceeded w w' a
unfolding Outcome
release-IsBlock w past current a p t i at valid has some_left open_ running =
    let (w', next, run, i', gone, s) =
      erase-Outcome (disowned w a p t) past current a (record t { peer_info = none })
        (disowned-IsBlock w past current a p t i at) (ground (arith, at)) valid refl running
        open_ in
    (
      w',
      next,
      release-erase w a p t at valid has some_left ∙ run,
      i',
      gone,
      disowned-IsSucceeded w w' a p t at s,
    )
