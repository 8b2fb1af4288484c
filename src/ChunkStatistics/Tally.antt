-- ===== src/ChunkStatistics/Tally.antt =====
-- What `received_connect` and `received_disconnect` do to the statistics, against what the peer
-- contributes to them before and after.
use libtorrent.Common.{
  Bool, Bool-cases, List, [], add32, arith, false, get_or, if◌then◌else◌, inl, inr, length, not, ok,
  refl, suc, true, zero, ℕ, ◌&&◌, ◌+◌, ◌<◌, ◌^◌, ◌∷◌, ◌≡◌, ◌≤◌, ap, ◌>>=◌, ◌∙◌, sub32, ◌==◌, ◌||◌,
  sym,
}
use libtorrent.Bitfield.{Bitfield, is_all_set, is_all_unset}
use libtorrent.Bitfield.Count.{bit}
use libtorrent.Bitfield.Valid.{IsValid, get-bit}
use libtorrent.ChunkStatistics.{
  ChunkStatistics, PeerChunks, for_chunks, count_in, received_connect, should_add,
  received_disconnect, count_out,
}

for_chunks_lem :
    (count : ℕ → Bool → ℕ) (bf : Bitfield) (bs : List ℕ) (index n : ℕ) (cs : List ℕ)
    → IsValid bf bs
    → index + n ≡ bf.size
    → length cs ≡ n
    → (cs' : List ℕ) × (for_chunks count bf index n cs ≡ ok cs')
      × (length cs' ≡ n)
      × ((i : ℕ) → i < n → get_or cs' i 0 ≡ count (get_or cs i 0) (bit bs (index + i)))
unfolding for_chunks
for_chunks_lem count bf bs index zero cs v e l = (cs, refl, l, λ i lt. absurd (omega (arith, lt)))
for_chunks_lem count bf bs index (suc n) [] v e l = absurd (omega (arith, l))
for_chunks_lem count bf bs index (suc n) (c ∷ cs) v e l =
    let here = get-bit bf bs index v (omega (arith, e)) in
    let next : add32 index 1 ≡ index + 1 = omega (arith, e, v.1.fits) in
    let (cs', run, len, rest) =
      for_chunks_lem count bf bs (index + 1) n cs v (omega (arith, e)) (omega (arith, l)) in
    (
      count c (bit bs index) ∷ cs',
      rw here (
          ap (λ k. for_chunks count bf k n cs >>= (λ rest. ok (count c (bit bs index) ∷ rest))) next
          ∙ ap (λ r. r >>= (λ rest. ok (count c (bit bs index) ∷ rest))) run),
      omega (arith, len),
      at cs' rest,
    )
  where
    at :
        (cs' : List ℕ)
        → ((i : ℕ) → i < n → get_or cs' i 0 ≡ count (get_or cs i 0) (bit bs (index + 1 + i)))
        → (i : ℕ) → i < suc n
        → get_or (count c (bit bs index) ∷ cs') i 0
          ≡ count (get_or (c ∷ cs) i 0) (bit bs (index + i))
    at cs' rest zero lt = let z : index + 0 ≡ index = omega arith in rw z
    at cs' rest (suc i) lt =
        let z : index + suc i ≡ index + 1 + i = omega arith in rw z (rest i (omega (arith, lt)))

-- A peer that uses the counters is counted as a seed or, chunk by chunk, as a part.
abbrev pub is_part : PeerChunks → Bool
is_part pc = pc.using_counter && not (is_all_set pc.bitfield)

abbrev pub part : PeerChunks → ℕ
part pc = if is_part pc then 1 else 0

abbrev pub seed : PeerChunks → ℕ
seed pc = if pc.using_counter && is_all_set pc.bitfield then 1 else 0

abbrev pub share : PeerChunks → List ℕ → ℕ → ℕ
share pc bs i = if is_part pc && bit bs i then 1 else 0

-- The statistics count the peer with its array `bs`, and of the other peers, each at most once, no
-- more than are accounted for.
pub record IsCounted (s : ChunkStatistics) (pc : PeerChunks) (bs : List ℕ) : Type 0 where
  pub valid : IsValid pc.bitfield bs
  pub len : length s.counters ≡ pc.bitfield.size
  pub few : s.accounted ≤ 255
  pub own : (i : ℕ) → i < pc.bitfield.size → share pc bs i ≤ get_or s.counters i 0
  pub others :
      (i : ℕ) → i < pc.bitfield.size → get_or s.counters i 0 + part pc ≤ s.accounted + share pc bs i
  pub own_part : part pc ≤ s.accounted
  pub own_seed : seed pc ≤ s.complete

-- The statistics change by what the peer's contribution changes.
pub record Exchanged (s s' : ChunkStatistics) (pc pc' : PeerChunks) (bs bs' : List ℕ) : Type 0 where
  pub counted : IsCounted s' pc' bs'
  pub parts : s'.accounted + part pc ≡ s.accounted + part pc'
  pub seeds : s'.complete + seed pc ≡ s.complete + seed pc'
  pub shares :
      (i : ℕ)
      → i < pc.bitfield.size
      → get_or s'.counters i 0 + share pc bs i ≡ get_or s.counters i 0 + share pc' bs' i

-- received_connect of a peer that does not use the counters yet succeeds; the bitfield stays; the
-- peer comes to use the counters exactly if it is a seed, or has some chunk and the statistics take
-- more peers; and the counters, the number of accounted peers and of complete ones change by what
-- it then contributes. No counter of eight bits overflows.
pub received_connect-Exchanged :
    (s : ChunkStatistics) (pc : PeerChunks) (bs : List ℕ)
    → IsCounted s pc bs
    → pc.using_counter ≡ false
    → s.complete + 1 < 2 ^ 32
    → (s' : ChunkStatistics) × (pc' : PeerChunks) × (received_connect s pc ≡ ok (s', pc'))
      × (pc'.bitfield ≡ pc.bitfield)
      × (pc'.using_counter
          ≡ is_all_set pc.bitfield || not (is_all_unset pc.bitfield) && should_add s)
      × Exchanged s s' pc pc' bs bs
unfolding received_connect should_add count_in
received_connect-Exchanged s pc bs c off f =
    let (cs', run, len, at) =
      for_chunks_lem count_in pc.bitfield bs 0 pc.bitfield.size s.counters c.valid (omega arith)
        c.len in
    let using = record pc { using_counter = true } in
    elim (Bool-cases (is_all_set pc.bitfield)) [
      | inl all ↦ (
        record s { complete = add32 s.complete 1 },
        using,
        rw (off, all) refl,
        refl,
        sym (rw all refl),
        record {
          counted = record {
            valid = c.valid;
            len = c.len;
            few = c.few;
            own = λ i lt. ground (arith, all);
            others = λ i lt. ground (arith, all, off, c.others i lt);
            own_part = ground (arith, all);
            own_seed = ground (arith, all, f);
          };
          parts = ground (arith, all, off);
          seeds = ground (arith, all, off, f);
          shares = λ i lt. ground (arith, all, off);
        },
      )
      | inr some_left ↦ elim (Bool-cases (not (is_all_unset pc.bitfield) && should_add s)) [
        | inr skip ↦ (
          s,
          pc,
          rw (off, some_left, skip) refl,
          refl,
          off ∙ sym (rw (some_left, skip) refl),
          record { counted = c; parts = refl; seeds = refl; shares = λ i lt. refl },
        )
        | inl add ↦ (
          record s { accounted = add32 s.accounted 1; counters = cs' },
          using,
          rw (off, some_left, add, run) refl,
          refl,
          sym (rw (some_left, add) refl),
          record {
            counted = record {
              valid = c.valid;
              len = len;
              few = ground (arith, add, c.few);
              own = λ i lt. ground (arith, at i lt, c.others i lt, off, some_left, add);
              others = λ i lt. ground (arith, at i lt, c.others i lt, off, some_left, add);
              own_part = ground (arith, add, c.few);
              own_seed = ground (arith, some_left);
            };
            parts = ground (arith, off, some_left, c.few);
            seeds = ground (arith, off, some_left);
            shares = λ i lt. ground (arith, at i lt, c.others i lt, off, some_left, add);
          },
        )
      ]
    ]

-- `received_disconnect` of a counted peer succeeds; the bitfield stays, the peer no longer uses the
-- counters, and all that it contributed is taken out of them. No counter goes below zero.
pub received_disconnect-Exchanged :
    (s : ChunkStatistics) (pc : PeerChunks) (bs : List ℕ)
    → IsCounted s pc bs
    → s.complete < 2 ^ 32
    → (s' : ChunkStatistics) × (pc' : PeerChunks) × (received_disconnect s pc ≡ ok (s', pc'))
      × (pc'.bitfield ≡ pc.bitfield)
      × (pc'.using_counter ≡ false)
      × Exchanged s s' pc pc' bs bs
unfolding received_disconnect count_out
received_disconnect-Exchanged s pc bs c f =
    let (cs', run, len, at) =
      for_chunks_lem count_out pc.bitfield bs 0 pc.bitfield.size s.counters c.valid (omega arith)
        c.len in
    let unused = record pc { using_counter = false } in
    elim (Bool-cases pc.using_counter) [
      | inr off ↦ (
        s,
        pc,
        rw off refl,
        refl,
        off,
        record { counted = c; parts = refl; seeds = refl; shares = λ i lt. refl },
      )
      | inl on ↦ elim (Bool-cases (is_all_set pc.bitfield)) [
        | inl all ↦ (
          record s { complete = sub32 s.complete 1 },
          unused,
          rw (on, all) refl,
          refl,
          refl,
          record {
            counted = record {
              valid = c.valid;
              len = c.len;
              few = c.few;
              own = λ i lt. omega arith;
              others = λ i lt. ground (arith, on, all, c.others i lt);
              own_part = omega arith;
              own_seed = omega arith;
            };
            parts = ground (arith, on, all);
            seeds = ground (arith, on, all, c.own_seed, f);
            shares = λ i lt. ground (arith, on, all);
          },
        )
        | inr some_left ↦
            let here : 1 ≤ s.accounted = ground (arith, c.own_part, on, some_left) in
            let there : (s.accounted == 0) ≡ false = ground (arith, here) in
            (
              record s { accounted = sub32 s.accounted 1; counters = cs' },
              unused,
              rw (on, some_left, there, run) refl,
              refl,
              refl,
              record {
                counted = record {
                  valid = c.valid;
                  len = len;
                  few = omega (arith, here, c.few);
                  own = λ i lt. omega arith;
                  others = λ i lt.
                      ground
                        (arith, at i lt, c.others i lt, c.own i lt, on, some_left, here, c.few);
                  own_part = omega arith;
                  own_seed = omega arith;
                };
                parts = ground (arith, on, some_left, here, c.few);
                seeds = ground (arith, on, some_left);
                shares = λ i lt.
                    ground (arith, at i lt, c.others i lt, c.own i lt, on, some_left, here, c.few);
              },
            )
      ]
    ]
