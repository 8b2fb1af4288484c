-- ===== src/Block/Invalidate.antt =====
-- `invalidate_transfer` of src/torrent/data/block.cc, for each transfer of a list.
use libtorrent.Common.{
  ℕ, ◌+◌, ◌-◌, ◌≤◌, ◌<◌, List, [], ◌∷◌, ◌++◌, Bool-cases, true, false, ◌&&◌, if◌then◌else◌, ◌==◌,
  ◌≡◌, Option, Option-cases, none, some, ok, inl, inr, arith, refl, ap, ◌∙◌, on_none, on_some, ltb,
}
use libtorrent.Common.Counting.{count, tally, tally_same}
use libtorrent.Block.{
  World, Block, BlockTransfer, on, is_at, write_at, invalidate_transfer, invalidate_all,
  one_if_eager,
}
use libtorrent.Block.Steps.{transfer_at-ok}

-- 1 for a transfer that was never stalled.
abbrev pub fast : Option BlockTransfer → ℕ
fast o = if on (λ t. t.stall == 0) o then 1 else 0

-- The transfers of the list are gone or no longer of the block; the rest is as it was.
pub record Invalidated (w w' : World) (xs : List ℕ) : Type 0 where
  pub block :
      w'.block
      ≡ record w.block { not_stalled = w.block.not_stalled - tally (λ a. fast (w.store a)) xs }
  pub same_fresh : w'.fresh ≡ w.fresh
  pub others : (a : ℕ) → count a xs ≡ 0 → w'.store a ≡ w.store a
  pub off : (a : ℕ) → 0 < count a xs → on (λ t. t.valid) (w'.store a) ≡ false
  pub held : (a : ℕ) → on (λ t. true) (w'.store a) ≡ true → on (λ t. true) (w.store a) ≡ true

abbrev fewer : ℕ → Block → Block
fewer n b = record b { not_stalled = b.not_stalled - n }

-- A transfer that does not lead, and that is counted if it was never stalled.
invalidate_transfer-Invalidated :
    (w : World) (a : ℕ) (t : BlockTransfer)
    → is_at w.block.leader a ≡ false
    → w.store a ≡ some t
    → fast (w.store a) ≤ w.block.not_stalled
    → (w' : World) × (invalidate_transfer w a ≡ ok w') × Invalidated w w' (a ∷ [])
unfolding invalidate_transfer count tally
invalidate_transfer-Invalidated w a t free at enough =
    let guard : (t.stall == 0 && w.block.not_stalled == 0) ≡ false = ground (arith, at, enough) in
    let b : Block = record w.block { not_stalled = w.block.not_stalled - one_if_eager t } in
    let less : w.block.not_stalled - one_if_eager t ≡ w.block.not_stalled - (fast (w.store a) + 0) =
      ground (arith, at) in
    let same_block : b
        ≡ record w.block { not_stalled = w.block.not_stalled - (fast (w.store a) + 0) } =
      ap (λ n. record w.block { not_stalled = n }) less in
    elim (Option-cases t.peer_info) [
      | inl nobody ↦
          let w' : World = record w { store = write_at w.store a none; block = b } in
          (
            w',
            rw free
                (rw (transfer_at-ok w a t at) (rw guard (ap ok (on_none t.peer_info _ _ nobody)))),
            record {
              block = same_block;
              same_fresh = refl;
              others = λ c away. ground (arith, away);
              off = λ c here. ground (arith, here);
              held = λ c is. ground (arith, is);
            },
          )
      | inr (p, has) ↦
          let w' : World = record w {
            store = write_at w.store a (some (record t { valid = false }));
            block = b;
            cancelled = if w.connected p then w.cancelled ++ (a ∷ []) else w.cancelled;
          } in
          (
            w',
            rw free (rw (transfer_at-ok w a t at) (rw guard (ap ok (on_some t.peer_info _ _ has)))),
            record {
              block = same_block;
              same_fresh = refl;
              others = λ c away. ground (arith, away);
              off = λ c here. ground (arith, here);
              held = λ c is. ground (arith, is, at);
            },
          )
    ]

-- What the later transfers of the list count is not changed by the first.
fast_later :
    (w w1 : World) (a : ℕ) (xs : List ℕ)
    → count a xs ≡ 0
    → Invalidated w w1 (a ∷ [])
    → tally (λ c. fast (w1.store c)) xs ≡ tally (λ c. fast (w.store c)) xs
unfolding count
fast_later w w1 a xs alone i1 =
    tally_same _ _ xs (λ c there. ap fast (i1.others c (ground (arith, there, alone))))

-- The first transfer, and then the others.
Invalidated-cons :
    (w w1 w2 : World) (a : ℕ) (xs : List ℕ)
    → count a xs ≡ 0
    → Invalidated w w1 (a ∷ [])
    → Invalidated w1 w2 xs
    → Invalidated w w2 (a ∷ xs)
unfolding count tally
Invalidated-cons w w1 w2 a xs alone i1 i2 =
    let n1 = tally (λ c. fast (w1.store c)) xs in
    let sum : w.block.not_stalled - (fast (w.store a) + 0) - n1
        ≡ w.block.not_stalled - (fast (w.store a) + tally (λ c. fast (w.store c)) xs) =
      omega (arith, fast_later w w1 a xs alone i1) in
    record {
      block = i2.block ∙ ap (fewer n1) i1.block ∙ ap (λ n. record w.block { not_stalled = n }) sum;
      same_fresh = i2.same_fresh ∙ i1.same_fresh;
      others = λ c away. i2.others c (omega (arith, away)) ∙ i1.others c (ground (arith, away));
      off = λ c there. elim (Bool-cases (ltb 0 (count c xs))) [
        | inl later ↦ i2.off c (ground (arith, later))
        | inr now ↦
            ap (on (λ t. t.valid)) (i2.others c (ground (arith, now)))
            ∙ i1.off c (ground (arith, now, there))
      ];
      held = λ c is. i1.held c (i2.held c is);
    }

-- Several transfers, each once, none of which leads.
pub invalidate_all-Invalidated :
    (xs : List ℕ) (w : World)
    → ((a : ℕ) → count a xs ≤ 1)
    → ((a : ℕ)
        → 0 < count a xs
        → (is_at w.block.leader a ≡ false) × (on (λ t. true) (w.store a) ≡ true))
    → tally (λ a. fast (w.store a)) xs ≤ w.block.not_stalled
    → (w' : World) × (invalidate_all w xs ≡ ok w') × Invalidated w w' xs
unfolding invalidate_all count tally
invalidate_all-Invalidated [] w once fit enough = (
  w,
  refl,
  record {
    block = ap (λ n. record w.block { not_stalled = n }) unchanged;
    same_fresh = refl;
    others = λ a away. refl;
    off = λ a here. absurd (omega (arith, here));
    held = λ a is. is;
  },
)
  where
    unchanged : w.block.not_stalled ≡ w.block.not_stalled - 0
    unchanged = omega arith
invalidate_all-Invalidated (a ∷ xs) w once fit enough =
    let here : 0 < count a (a ∷ xs) = ground arith in
    elim (Option-cases (w.store a)) [
      | inl gone ↦ absurd (ground (arith, fit a here, gone))
      | inr (t, at) ↦
          let (w1, run1, i1) =
            invalidate_transfer-Invalidated w a t (fit a here).0 at (omega (arith, enough)) in
          let alone : count a xs ≡ 0 = ground (arith, once a) in
          let left : w1.block.not_stalled ≡ w.block.not_stalled - (fast (w.store a) + 0) =
            ap (λ b. b.not_stalled) i1.block in
          let fits : (c : ℕ)
              → 0 < count c xs
              → (is_at w1.block.leader c ≡ false) × (on (λ t. true) (w1.store c) ≡ true) =
            λ c there. (
              ap (λ b. is_at b.leader c) i1.block ∙ (fit c (omega (arith, there))).0,
              ap (on (λ t. true)) (i1.others c (ground (arith, there, alone)))
                  ∙ (fit c (omega (arith, there))).1,
            ) in
          let (w2, run2, i2) =
            invalidate_all-Invalidated xs w1 (λ c. omega (arith, once c)) fits
              (omega (arith, fast_later w w1 a xs alone i1, left, enough)) in
          (w2, rw run1 run2, Invalidated-cons w w1 w2 a xs alone i1 i2)
    ]
