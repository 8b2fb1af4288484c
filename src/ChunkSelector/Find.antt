-- ===== src/ChunkSelector/Find.antt =====
-- What `find` returns: a chunk that the peer has and that is untouched.
use native.Mathlib.Nat.{mod-lt}
use libtorrent.Ranges.Cover.{IsSorted}
use libtorrent.Bitfield.{Bitfield, get, is_all_set}
use libtorrent.Bitfield.Valid.{IsValid, get-bit}
use libtorrent.Bitfield.Count.{bit, ones_full}
use libtorrent.Common.{
  Bool, Bool-cases, List, arith, false, inl, inr, length, ok, refl, suc, true, zero, ℕ, ◌+◌, ◌<◌,
  ◌==◌, ◌≡◌, ◌∙◌, ◌⊎◌, Option, none, some, ap, ◌*◌, if◌then◌else◌, ◌%◌, on_none, on_some,
}
use libtorrent.PartialQueue.{PartialQueue, num_layers, inserted, popped, clear}
use libtorrent.PartialQueue
use libtorrent.PartialQueue.Contents.{
  prepare_pop-IsHolding, pop-IsHolding, clear-IsHolding, left_in, left_in-le, enable-IsEnabled,
}
use libtorrent.ChunkStatistics.{ChunkStatistics}
use libtorrent.ChunkSelector.{
  find_fresh, DownloadData, pop_untouched, find_in, ChunkSelector, invalid_chunk, find_chunk,
}
use libtorrent.ChunkSelector.Search.{Holding, prepared, cleared-Holding, search_around-Holding}

module _ (d : DownloadData) (s : ChunkStatistics) (bf : Bitfield) (us ps : List ℕ)
    (vu : IsValid d.untouched us) (vp : IsValid bf ps) (same : bf.size ≡ d.untouched.size)
    (counted : length s.counters ≡ d.untouched.size) where
  -- A chunk that the peer has, and one that is untouched as well.
  abbrev pub Had : ℕ → Type 0
  Had i = (i < d.untouched.size) × (bit ps i ≡ true)

  abbrev pub Open : ℕ → Type 0
  Open i = (i < d.untouched.size) × (bit ps i ≡ true) × (bit us i ≡ true)

  get-untouched : (i : ℕ) → i < d.untouched.size → get d.untouched i ≡ ok (bit us i)
  get-untouched i lt = get-bit d.untouched us i vu lt

  -- The last step of a fresh search.
  choose :
      (q : PartialQueue)
      → Holding Open q
      → popped q q.index < inserted q q.index
      → (q' : PartialQueue) × (c : ℕ) × (PartialQueue.pop q ≡ ok (q', c)) × Open c × Holding Open q'
  choose q h left =
      let (q', c, run, p, h', _) = pop-IsHolding Open q h.array h.limit h.holding left in
      (q', c, run, p, record { array = h.array; limit = h.limit; holding = h' })

  module _ (sh : IsSorted d.high) (sn : IsSorted d.normal) (position : ℕ)
      (inside : position < d.untouched.size) where
    -- What is found is open, and stays in no queue; what is kept is open too.
    abbrev Found : PartialQueue → Option ℕ → Type 0
    Found q none = Holding Open q
    Found q (some c) = Holding Open q × Open c

    find_fresh-Found :
        (q : PartialQueue)
        → Holding Open (PartialQueue.clear q)
        → (q' : PartialQueue) × (c : Option ℕ) × (find_fresh d s bf q position ≡ ok (q', c))
          × Found q' c
    unfolding find_fresh
    find_fresh-Found q h =
        let (q1, run1, h1) =
          search_around-Holding d s bf us ps vu vp same counted d.high (PartialQueue.clear q)
            position sh inside h in
        let (q2, any, run2, h2, left2) = prepared Open q1 h1 in
        let (q3, run3, h3) =
          search_around-Holding d s bf us ps vu vp same counted d.normal (PartialQueue.clear q2)
            position sn inside (cleared-Holding Open Open q2 h2) in
        let (q4, any4, run4, h4, left4) = prepared Open q3 h3 in
        elim (Bool-cases any) [
          | inl high ↦
              let (q5, c, run5, o, h5) = choose q2 h2 (left2 high) in
              (
                q5,
                some c,
                rw (run1, run2) (rw high (rw run5 (rw (get-untouched c o.0) (rw o.2 refl)))),
                (h5, o),
              )
          | inr low ↦ elim (Bool-cases any4) [
            | inl normal ↦
                let (q5, c, run5, o, h5) = choose q4 h4 (left4 normal) in
                (
                  q5,
                  some c,
                  rw (run1, run2)
                      (rw low (
                        rw (run3, run4)
                          (rw normal (rw run5 (rw (get-untouched c o.0) (rw o.2 refl)))))),
                  (h5, o),
                )
            | inr nothing ↦
                (q4, none, rw (run1, run2) (rw low (rw (run3, run4) (rw nothing refl))), h4)
          ]
        ]

    -- The cached chunks are popped until one is still untouched.
    pop_untouched-Found :
        (fuel : ℕ) (q : PartialQueue)
        → Holding Had q
        → left_in q.layers < fuel
        → (q' : PartialQueue) × (c : Option ℕ) × (pop_untouched fuel d.untouched q ≡ ok (q', c))
          × Holding Had q'
          × ((c ≡ none) ⊎ ((i : ℕ) × (c ≡ some i) × Open i))
    unfolding pop_untouched
    pop_untouched-Found zero q h le = absurd (omega (arith, le))
    pop_untouched-Found (suc fuel) q h le =
        let (q1, any, run1, h1, left1, kept) =
          prepare_pop-IsHolding Had q h.array h.limit h.holding in
        elim (Bool-cases any) [
          | inr nothing ↦ (
            q1,
            none,
            rw run1 (rw nothing refl),
            record { array = h.array; limit = h.limit; holding = h1 },
            inl refl,
          )
          | inl something ↦
              let (q2, c, run2, o, h2, less) =
                pop-IsHolding Had q1 h.array h.limit h1 (left1 something) in
              let h2' : Holding Had q2 = record {
                array = h.array;
                limit = h.limit;
                holding = h2;
              } in
              elim (Bool-cases (bit us c)) [
                | inl there ↦ (
                  q2,
                  some c,
                  rw run1 (rw something (rw run2 (rw (get-untouched c o.0) (rw there refl)))),
                  h2',
                  inr (c, refl, (o.0, o.1, there)),
                )
                | inr gone ↦
                    let (q3, c3, run3, h3, f) =
                      pop_untouched-Found fuel q2 h2' (omega (arith, le, less, kept)) in
                    (
                      q3,
                      c3,
                      rw run1 (rw something (rw run2 (rw (get-untouched c o.0) (rw gone run3)))),
                      h3,
                      f,
                    )
              ]
        ]

    widen :
        (P Q : ℕ → Type 0) (q : PartialQueue) → ((i : ℕ) → P i → Q i) → Holding P q → Holding Q q
    widen P Q q f h =
        let g = h.holding in
        record {
          array = h.array;
          limit = h.limit;
          holding = record {
            valid = g.valid;
            capped = g.capped;
            order = g.order;
            holds = λ l k a b. f _ (g.holds l k a b);
            index_in = g.index_in;
            some_room = g.some_room;
          };
        }

    enough_pops : (q : PartialQueue) → Holding Had q → left_in q.layers < 8 * q.max_layer_size + 1
    unfolding inserted
    enough_pops q h =
        let g = h.holding in
        let all =
          left_in-le q.layers q.max_layer_size
            (λ l lt. g.capped l (omega (arith, lt, g.valid.layers_len))) in
        let whole = ap (λ n. q.max_layer_size * n) g.valid.layers_len in omega (arith, all, whole)

    -- The outcome of a search in one queue: a chunk that is open, if any, and a queue for the peer.
    abbrev Outcome : PartialQueue → Option ℕ → Type 0
    Outcome q c = Holding Had q × ((c ≡ none) ⊎ ((i : ℕ) × (c ≡ some i) × Open i))

    Found-Outcome : (q : PartialQueue) (c : Option ℕ) → Found q c → Outcome q c
    Found-Outcome q none h = (widen Open Had q (λ i o. (o.0, o.1)) h, inl refl)
    Found-Outcome q (some c) (h, o) = (widen Open Had q (λ i o. (o.0, o.1)) h, inr (c, refl, o))

    find_in-Outcome :
        (q : PartialQueue)
        → Holding Had q ⊎ (q.values ≡ none)
        → (q' : PartialQueue) × (c : Option ℕ) × (find_in d s bf q position ≡ ok (q', c))
          × Outcome q' c
    unfolding find_in
    find_in-Outcome q (inr no_queue) =
        let (q1, run1, e1) = enable-IsEnabled q 8 (omega arith) in
        let cleaned : Holding Open (PartialQueue.clear q1) = record {
          array = _;
          limit = 8;
          holding = clear-IsHolding Open q1 _ e1;
        } in
        let (q2, c, run2, f) = find_fresh-Found q1 cleaned in
        (q2, c, on_none q.values _ _ no_queue ∙ rw run1 run2, Found-Outcome q2 c f)
    find_in-Outcome q (inl h) =
        let (q1, c, run1, h1, f) =
          pop_untouched-Found (8 * q.max_layer_size + 1) q h (enough_pops q h) in
        let (q2, c2, run2, f2) = find_fresh-Found q1 (cleared-Holding Had Open q1 h1) in
        elim f [
          | inl nothing ↦ (
            q2,
            c2,
            on_some q.values _ _ h.holding.valid.present ∙ rw run1 (rw nothing run2),
            Found-Outcome q2 c2 f2,
          )
          | inr (i, something, o) ↦ (
            q1,
            some i,
            on_some q.values _ _ h.holding.valid.present ∙ rw run1 (rw something refl),
            (h1, inr (i, refl, o)),
          )
        ]

-- The peer's queue and the shared queue before and after `find`.
pub record Ready (d : DownloadData) (bs : List ℕ) (sel : ChunkSelector) (cache : PartialQueue)
    : Type 0 where
  pub position_in : (sel.position ≡ invalid_chunk) ⊎ (sel.position < d.untouched.size)
  pub shared : Holding (λ i. i < d.untouched.size) sel.shared_queue
  pub cached :
      Holding (λ i. (i < d.untouched.size) × (bit bs i ≡ true)) cache ⊎ (cache.values ≡ none)

module _ (d : DownloadData) (s : ChunkStatistics) (bf : Bitfield) (us ps : List ℕ)
    (vu : IsValid d.untouched us) (vp : IsValid bf ps) (same : bf.size ≡ d.untouched.size)
    (counted : length s.counters ≡ d.untouched.size) (sh : IsSorted d.high)
    (sn : IsSorted d.normal) where
  abbrev Has : ℕ → Type 0
  Has i = (i < d.untouched.size) × (bit ps i ≡ true)

  abbrev AllIn : ℕ → Type 0
  AllIn i = i < d.untouched.size

  -- A queue that was emptied before the search, or not.
  maybe_cleared :
      (q : PartialQueue) (moves : Bool)
      → Holding Has q ⊎ (q.values ≡ none)
      → let q' : PartialQueue = if moves then PartialQueue.clear q else q in
        Holding Has q' ⊎ (q'.values ≡ none)
  unfolding clear
  maybe_cleared q true (inl h) = inl (cleared-Holding Has Has q h)
  maybe_cleared q true (inr e) = inr (ap (λ k. k.values) (on_none q.values q _ e) ∙ e)
  maybe_cleared q false h = h

  full_peer : is_all_set bf ≡ true → (i : ℕ) → AllIn i → Has i
  unfolding is_all_set
  full_peer all i lt = (
    lt,
    ones_full (bit ps) bf.size i (ground (arith, all, vp.1.counted)) (omega (arith, lt, same)),
  )

  -- `find` with valid bitfields of one size, a counter for each chunk, sorted priorities and a position
  -- that is valid or within the size never throws; the chunk that it returns, if any, is within the
  -- size, the peer has it and it is untouched. The position and the queues stay usable: what
  -- the peer's cache holds, the peer has.
  pub find_chunk-Open :
      (sel : ChunkSelector) (cache : PartialQueue) (draw draw_position : ℕ)
      → Ready d ps sel cache
      → (sel' : ChunkSelector) × (cache' : PartialQueue) × (c : Option ℕ) × (find_chunk d s sel bf
            cache draw draw_position
          ≡ ok (sel', cache', c))
        × Ready d ps sel' cache'
        × ((c ≡ none)
            ⊎ ((i : ℕ) × (c ≡ some i)
                × (i < d.untouched.size)
                × (bit ps i ≡ true)
                × (bit us i ≡ true)))
  unfolding find_chunk
  find_chunk-Open sel cache draw draw_position r =
      elim (Bool-cases (sel.position == invalid_chunk)) [
        | inl off ↦ (sel, cache, none, rw off refl, r, inl refl)
        | inr on ↦
            let here : sel.position < d.untouched.size = ground (arith, on, r.position_in) in
            let moves = draw % 64 == 0 in
            let position = if moves then draw_position % d.untouched.size else sel.position in
            let inside : position < d.untouched.size =
              position_inside moves draw_position sel.position here in
            elim (Bool-cases (is_all_set bf)) [
              | inl seeder ↦
                  let wide =
                    widen d s bf us ps vu vp same counted sh sn position inside AllIn Has
                      sel.shared_queue (full_peer seeder) r.shared in
                  let (q', c, run, result) =
                    find_in-Outcome d s bf us ps vu vp same counted sh sn position inside _
                      (maybe_cleared sel.shared_queue moves (inl wide)) in
                  (
                    record { shared_queue = q'; position = position },
                    cache,
                    c,
                    rw (on, seeder) (rw run refl),
                    record {
                      position_in = inr inside;
                      shared =
                          widen d s bf us ps vu vp same counted sh sn position inside Has AllIn q'
                            (λ i p. p.0) result.0;
                      cached = r.cached;
                    },
                    outcome c result.1,
                  )
              | inr leech ↦
                  let (q', c, run, result) =
                    find_in-Outcome d s bf us ps vu vp same counted sh sn position inside _
                      (maybe_cleared cache moves r.cached) in
                  (
                    record sel { position = position },
                    q',
                    c,
                    rw (on, leech) (rw run refl),
                    record { position_in = inr inside; shared = r.shared; cached = inl result.0 },
                    outcome c result.1,
                  )
            ]
      ]
    where
      position_inside :
          (moves : Bool) (drawn position : ℕ)
          → position < d.untouched.size
          → (if moves then drawn % d.untouched.size else position) < d.untouched.size
      position_inside true drawn position lt = mod-lt drawn (omega (arith, lt))
      position_inside false drawn position lt = lt

      outcome :
          (c : Option ℕ)
          → (c ≡ none) ⊎ ((i : ℕ) × (c ≡ some i) × Open d s bf us ps vu vp same counted i)
          → (c ≡ none)
            ⊎ ((i : ℕ) × (c ≡ some i)
                × (i < d.untouched.size)
                × (bit ps i ≡ true)
                × (bit us i ≡ true))
      outcome c (inl e) = inl e
      outcome c (inr (i, e, open_at)) = inr (i, e, open_at.0, open_at.1, open_at.2)
