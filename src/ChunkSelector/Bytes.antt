-- ===== src/ChunkSelector/Bytes.antt =====
-- `search_linear_range` goes by bytes; here it is compared with a search index by index.
use native.Mathlib.Nat.{div-le_self}
use libtorrent.Bitfield.Bytes.{test_bit-zero}
use libtorrent.Bitfield.Conjunction.{
  test_bit-bit_and, bit_and-IsByte, test_bit-mask_to, test_bit-mask_from,
}
use libtorrent.Bitfield.Count.{bit}
use libtorrent.Bitfield.Valid.{IsValid, the_byte, byte_lt}
use libtorrent.Common.{
  Bool, Result, ap, arith, false, if◌then◌else◌, not, ok, refl, suc, true, zero, ℕ, ◌&&◌, ◌+◌, ◌<◌,
  ◌==◌, ◌>>=◌, ◌∙◌, ◌≡◌, ◌≤◌, >>=_assoc, Bool-cases, inl, inr, sym, >>=-ok, List, bit_and, get_or,
  ltb, ◌%◌, ◌*◌, ◌-◌, ◌/◌, ==_iff, ltb→ge, ltb→lt, leb, ◌^◌, ◌||◌,
}
use mathlib.Core.Path.{fun_ext}
use libtorrent.Bitfield.{test_bit, Bitfield, mask_before, mask_from}
use libtorrent.PartialQueue.{PartialQueue}
use libtorrent.PartialQueue
use libtorrent.ChunkStatistics.{ChunkStatistics}
use libtorrent.ChunkSelector.{
  rarity, search_linear_byte, try_insert, both, search_linear_bytes, search_linear_range,
}

-- Offers to the queue, from index `i` on, each of `n` indices that satisfies `f`, until the queue is full.
unfoldable pub offer :
    ChunkStatistics → (ℕ → Bool) → ℕ → ℕ → PartialQueue → Result (PartialQueue × Bool)
offer s f zero i q = ok (q, true)
offer s f (suc n) i q =
    let skip = offer s f n (i + 1) q in
    let take_it = try_insert s q i (λ q'. offer s f n (i + 1) q') in if f i then take_it else skip

module _ (s : ChunkStatistics) where
  search_linear_byte-offer :
      (f : ℕ → Bool) (n i : ℕ) (q : PartialQueue) (index wanted : ℕ)
      → ((j : ℕ) → i ≤ j → j < i + n → test_bit wanted j ≡ f (index + j))
      → search_linear_byte s n i q index wanted ≡ offer s f n (index + i) q
  unfolding search_linear_byte offer
  search_linear_byte-offer f zero i q index wanted h = refl
  search_linear_byte-offer f (suc n) i q index wanted h =
      let here = h i (omega arith) (omega arith) in
      let next : index + (i + 1) ≡ index + i + 1 = omega arith in
      let rest : (q' : PartialQueue)
          → search_linear_byte s n (i + 1) q' index wanted ≡ offer s f n (index + i + 1) q' =
        λ q'.
          search_linear_byte-offer f n (i + 1) q' index wanted
            (λ j lo hi. h j (omega (arith, lo)) (omega (arith, hi)))
          ∙ ap (λ k. offer s f n k q') next in
      rw here (
        ap (λ x. if f (index + i) then x else search_linear_byte s n (i + 1) q index wanted)
          (ap (try_insert s q (index + i)) (fun_ext rest))
        ∙ ap
            (λ y.
              if f (index + i)
              then try_insert s q (index + i) (λ q'. offer s f n (index + i + 1) q')
              else y)
            (rest q))

  offer_none :
      (f : ℕ → Bool) (n i : ℕ) (q : PartialQueue)
      → ((j : ℕ) → i ≤ j → j < i + n → f j ≡ false)
      → offer s f n i q ≡ ok (q, true)
  unfolding offer
  offer_none f zero i q h = refl
  offer_none f (suc n) i q h =
      rw (h i (omega arith) (omega arith))
        (offer_none f n (i + 1) q (λ j lo hi. h j (omega (arith, lo)) (omega (arith, hi))))

  abbrev then_offer : (ℕ → Bool) → ℕ → ℕ → PartialQueue × Bool → Result (PartialQueue × Bool)
  then_offer f m i (q, go_on) = let more = offer s f m i q in if go_on then more else ok (q, false)

  try_insert-bind :
      (q : PartialQueue) (i : ℕ) (rest : PartialQueue → Result (PartialQueue × Bool))
      (last : PartialQueue × Bool → Result (PartialQueue × Bool))
      → ((q' : PartialQueue) → last (q', false) ≡ ok (q', false))
      → (try_insert s q i rest >>= last) ≡ try_insert s q i (λ q'. rest q' >>= last)
  unfolding try_insert
  try_insert-bind q i rest last stop =
      >>=_assoc (rarity s i) _ last
      ∙ ap (λ k. rarity s i >>= k)
          (fun_ext λ key.
            >>=_assoc (PartialQueue.insert q key i) _ last
            ∙ ap (λ k. PartialQueue.insert q key i >>= k)
                (fun_ext λ r. last_if r.0 (not r.1 && r.0.ceiling == 0)))
    where
      last_if :
          (q' : PartialQueue) (full : Bool)
          → ((if full then ok (q', false) else rest q') >>= last)
            ≡ (if full then ok (q', false) else rest q' >>= last)
      last_if q' true = stop q'
      last_if q' false = refl

  -- A search goes on after the first indices, unless they have filled the queue.
  offer-add :
      (f : ℕ → Bool) (n m i : ℕ) (q : PartialQueue)
      → offer s f (n + m) i q ≡ (offer s f n i q >>= then_offer f m (i + n))
  unfolding offer
  offer-add f zero m i q =
      let e : i + 0 ≡ i = omega arith in let e' : 0 + m ≡ m = omega arith in rw (e, e') refl
  offer-add f (suc n) m i q =
      let e : i + suc n ≡ i + 1 + n = omega arith in
      let e' : suc n + m ≡ suc (n + m) = omega arith in
      let rest : (q' : PartialQueue)
          → offer s f (n + m) (i + 1) q' ≡ (offer s f n (i + 1) q' >>= then_offer f m (i + suc n)) =
        λ q'.
          offer-add f n m (i + 1) q'
          ∙ ap (λ k. offer s f n (i + 1) q' >>= then_offer f m k) (sym e) in
      rw e' (elim (Bool-cases (f i)) [
        | inr off ↦ rw off (rest q)
        | inl on ↦ rw on (
            ap (try_insert s q i) (fun_ext rest)
            ∙ sym (
                try_insert-bind q i (λ q'. offer s f n (i + 1) q') (then_offer f m (i + suc n))
                  (λ q'. refl)))
      ])

  offer-ext :
      (f g : ℕ → Bool) (n i : ℕ) (q : PartialQueue)
      → ((j : ℕ) → i ≤ j → j < i + n → f j ≡ g j)
      → offer s f n i q ≡ offer s g n i q
  unfolding offer
  offer-ext f g zero i q h = refl
  offer-ext f g (suc n) i q h =
      let rest : (q' : PartialQueue) → offer s f n (i + 1) q' ≡ offer s g n (i + 1) q' =
        λ q'. offer-ext f g n (i + 1) q' (λ j lo hi. h j (omega (arith, lo)) (omega (arith, hi))) in
      rw (h i (omega arith) (omega arith)) (
        ap (λ x. if g i then x else offer s f n (i + 1) q) (ap (try_insert s q i) (fun_ext rest))
        ∙ ap (λ y. if g i then try_insert s q i (λ q'. offer s g n (i + 1) q') else y) (rest q))

  -- Nothing is offered past the last index that satisfies `f`.
  offer_short :
      (f : ℕ → Bool) (n m i : ℕ) (q : PartialQueue)
      → ((j : ℕ) → i + n ≤ j → f j ≡ false)
      → offer s f (n + m) i q ≡ offer s f n i q
  offer_short f n m i q h =
      offer-add f n m i q
      ∙ ap (λ k. offer s f n i q >>= k) (fun_ext pass)
      ∙ >>=-ok (offer s f n i q)
    where
      pass : (r : PartialQueue × Bool) → then_offer f m (i + n) r ≡ ok r
      pass (q', true) = offer_none f m (i + n) q' (λ j lo hi. h j lo)
      pass (q', false) = refl

  module _ (untouched bf : Bitfield) (us ps : List ℕ) (vu : IsValid untouched us)
      (vp : IsValid bf ps) (same : bf.size ≡ untouched.size) where
    -- What the search looks for: the peer has the chunk and it is untouched.
    abbrev pub in_both : ℕ → Bool
    in_both i = bit ps i && bit us i

    abbrev word : ℕ → ℕ
    word i = bit_and (get_or ps (i / 8) 0) (get_or us (i / 8) 0)

    both-word : (i : ℕ) → i < untouched.size → both untouched bf i ≡ ok (word i)
    unfolding both
    both-word i lt =
        let lt' : i < bf.size = omega (arith, lt, same) in
        rw (the_byte bf ps i vp lt', the_byte untouched us i vu lt) refl

    word-IsByte : (i : ℕ) → i < untouched.size → word i < 256
    word-IsByte i lt = bit_and-IsByte _ _ (byte_lt bf ps i vp (omega (arith, lt, same)))

    word-bits :
        (i j : ℕ) → i < untouched.size → j < 8 → test_bit (word i) j ≡ in_both (i / 8 * 8 + j)
    unfolding bit
    word-bits i j lt hj =
        let e : (i / 8 * 8 + j) / 8 ≡ i / 8 = omega arith in
        let e' : (i / 8 * 8 + j) % 8 ≡ j = omega (arith, hj) in
        rw (e, e')
          (test_bit-bit_and _ _ j (byte_lt bf ps i vp (omega (arith, lt, same)))
            (byte_lt untouched us i vu lt) hj)

    last_byte-offer :
        (f : ℕ → Bool) (q : PartialQueue) (index wanted last : ℕ)
        → index < last
        → last ≤ index + 8
        → wanted < 256
        → ((j : ℕ) → j < 8 → test_bit wanted j ≡ f (index + j))
        → search_linear_byte s 8 0 q index (bit_and wanted (mask_before (last - index)))
          ≡ offer s f (last - index) index q
    last_byte-offer f q index wanted last lt le byte h =
        let k = last - index in
        let g : ℕ → Bool = λ i. f i && ltb i last in
        let whole : k + (8 - k) ≡ 8 = omega (arith, lt, le) in
        let start : index + 0 ≡ index = omega arith in
        search_linear_byte-offer g 8 0 q index _ (λ j lo hi. masked j (omega (arith, hi)))
        ∙ ap (λ i. offer s g 8 i q) start
        ∙ ap (λ n. offer s g n index q) (sym whole)
        ∙ offer_short g k (8 - k) index q (λ j lo. ground (arith, lo, lt))
        ∙ offer-ext g f k index q (λ j lo hi. ground (arith, hi, lt))
      where
        mask_lt : mask_before (last - index) < 256
        mask_lt = unfold mask_before in omega arith

        masked :
            (j : ℕ)
            → j < 8
            → test_bit (bit_and wanted (mask_before (last - index))) j
              ≡ f (index + j) && ltb (index + j) last
        masked j hj =
            test_bit-bit_and wanted (mask_before (last - index)) j byte mask_lt hj
            ∙ ground (arith, h j hj, test_bit-mask_to (last - index) j (omega (arith, le)) hj, lt)

    add_zero_lem : (i : ℕ) → i + 0 ≡ i
    add_zero_lem i = omega arith

    blank_at :
        (f : ℕ → Bool) (index wanted j : ℕ)
        → wanted ≡ 0
        → ((j : ℕ) → j < 8 → test_bit wanted j ≡ f (index + j))
        → index ≤ j
        → j < index + 8
        → f j ≡ false
    blank_at f index wanted j w h lo hi =
        let e : index + (j - index) ≡ j = omega (arith, lo) in
        ap f (sym e)
        ∙ sym (h (j - index) (omega (arith, hi, lo)))
        ∙ ap (λ x. test_bit x (j - index)) w
        ∙ test_bit-zero (j - index) (omega (arith, hi, lo))

    -- A search in a byte without a bit does nothing.
    blank_search :
        (w index : ℕ) (q : PartialQueue) → w ≡ 0 → search_linear_byte s 8 0 q index w ≡ ok (q, true)
    blank_search w index q e =
        search_linear_byte-offer (λ i. test_bit w (i - index)) 8 0 q index w
          (λ j lo hi. let z : index + j - index ≡ j = omega arith in rw z refl)
        ∙ offer_none _ 8 (index + 0) q (λ j lo hi.
          ap (λ x. test_bit x (j - index)) e ∙ test_bit-zero (j - index) (omega (arith, lo, hi)))

    if_more :
        (q' : PartialQueue) (x y : Result (PartialQueue × Bool)) (go_on : Bool)
        → x ≡ y
        → (if go_on then x else ok (q', false)) ≡ (if go_on then y else ok (q', false))
    if_more q' x y true e = e
    if_more q' x y false e = refl

    abbrev on_bytes : ℕ → ℕ → ℕ → PartialQueue × Bool → Result (PartialQueue × Bool)
    on_bytes fuel index last (q', go_on) =
        let more = (do
          wanted' ← both untouched bf (index + 8)
          search_linear_bytes s untouched bf fuel q' (index + 8) wanted' last) in
        if go_on then more else ok (q', false)

    search_linear_bytes-offer :
        (f : ℕ → Bool) (fuel : ℕ) (q : PartialQueue) (index wanted last : ℕ)
        → index % 8 ≡ 0
        → index < last
        → last ≤ untouched.size
        → last ≤ index + 8 * fuel
        → wanted < 256
        → ((j : ℕ) → j < 8 → test_bit wanted j ≡ f (index + j))
        → ((i : ℕ) → index + 8 ≤ i → f i ≡ in_both i)
        → search_linear_bytes s untouched bf fuel q index wanted last
          ≡ offer s f (last - index) index q
    unfolding search_linear_bytes
    search_linear_bytes-offer f zero q index wanted last al lt le enough byte h later =
        absurd (omega (arith, lt, enough))
    search_linear_bytes-offer f (suc fuel) q index wanted last al lt le enough byte h later =
        elim (Bool-cases (ltb (index + 8) last)) [
          | inl more_bytes ↦
              let more = ltb→lt (index + 8) last more_bytes in
              let inside : index + 8 < untouched.size = omega (arith, more, le) in
              let at : (index + 8) / 8 * 8 ≡ index + 8 = omega (arith, al) in
              let m = last - (index + 8) in
              let whole : 8 + m ≡ last - index = omega (arith, more) in
              let next : (q' : PartialQueue)
                  → (both untouched bf (index + 8)
                      >>= (λ w. search_linear_bytes s untouched bf fuel q' (index + 8) w last))
                    ≡ offer s f m (index + 8) q' =
                λ q'. rw (both-word (index + 8) inside) (
                  search_linear_bytes-offer f fuel q' (index + 8) (word (index + 8)) last
                    (omega (arith, al)) more le (omega (arith, enough))
                    (word-IsByte (index + 8) inside)
                    (λ j hj.
                      word-bits (index + 8) j inside hj
                      ∙ ap (λ b. in_both (b + j)) at
                      ∙ sym (later (index + 8 + j) (omega arith)))
                    (λ i lo. later i (omega (arith, lo)))) in
              let split = offer-add f 8 m index q in
              let byte_run =
                search_linear_byte-offer f 8 0 q index wanted (λ j lo hi. h j (omega (arith, hi)))
                ∙ ap (λ i. offer s f 8 i q) (add_zero_lem index) in
              rw more_bytes (elim (Bool-cases (wanted == 0)) [
                | inl blank ↦
                    let w : wanted ≡ 0 = (==_iff wanted 0).0 blank in
                    let nothing =
                      offer_none f 8 index q (λ j lo hi. blank_at f index wanted j w h lo hi) in
                    rw blank (
                      next q
                      ∙ sym (
                          ap (λ n. offer s f n index q) (sym whole)
                          ∙ split
                          ∙ ap (λ r. r >>= then_offer f m (index + 8)) nothing))
                | inr some_bit ↦ rw some_bit (
                    ap (λ r. r >>= on_bytes fuel index last) byte_run
                    ∙ ap (λ k. offer s f 8 index q >>= k)
                        (fun_ext λ r. if_more r.0 _ _ r.1 (next r.0))
                    ∙ sym (ap (λ n. offer s f n index q) (sym whole) ∙ split))
              ])
          | inr last_byte ↦
              let in_last =
                last_byte-offer f q index wanted last lt (ltb→ge (index + 8) last last_byte) byte
                  h in
              rw last_byte (elim (Bool-cases (bit_and wanted (mask_before (last - index)) == 0)) [
                | inl blank ↦
                    rw blank (sym (blank_search _ index q ((==_iff _ _).0 blank)) ∙ in_last)
                | inr some_bit ↦ rw some_bit in_last
              ])
        ]

    from_first :
        (first j : ℕ)
        → first < untouched.size
        → j < 8
        → test_bit (bit_and (word first) (mask_from (first % 8))) j
          ≡ leb first (first / 8 * 8 + j) && in_both (first / 8 * 8 + j)
    from_first first j inside hj =
        test_bit-bit_and (word first) (mask_from (first % 8)) j (word-IsByte first inside) mask_lt
          hj
        ∙ ground
            (arith, word-bits first j inside hj, test_bit-mask_from (first % 8) j (omega arith) hj)
      where
        mask_lt : mask_from (first % 8) < 256
        mask_lt = unfold mask_from in omega (arith, div-le_self 255 (2 ^ (first % 8)))

    -- On valid bitfields of the same size and a range within it that is not empty, the search by bytes
    -- is the search index by index: each chunk of the range that the peer has and that is
    -- untouched is offered to the queue, in order, until the queue is full.
    pub search_linear_range-offer :
        (q : PartialQueue) (first last : ℕ)
        → first < last
        → last ≤ untouched.size
        → search_linear_range s untouched bf q first last ≡ offer s in_both (last - first) first q
    unfolding search_linear_range
    search_linear_range-offer q first last lt le =
        let base = first / 8 * 8 in
        let f : ℕ → Bool = λ i. leb first i && in_both i in
        let inside : first < untouched.size = omega (arith, lt, le) in
        let guard : (leb last first || ltb untouched.size last) ≡ false = ground (arith, lt, le) in
        let masked = bit_and (word first) (mask_from (first % 8)) in
        let parts : (first - base) + (last - first) ≡ last - base = omega (arith, lt) in
        let back : base + (first - base) ≡ first = omega arith in
        let before = offer_none f (first - base) base q (λ j lo hi. ground (arith, hi)) in
        rw guard (
          rw (both-word first inside) (
            search_linear_bytes-offer f (last - first + 1) q base masked last (omega arith)
              (omega (arith, lt)) le (omega (arith, lt))
              (bit_and-IsByte (word first) (mask_from (first % 8)) (word-IsByte first inside))
              (λ j hj. from_first first j inside hj) (λ i lo. ground (arith, lo))))
        ∙ ap (λ n. offer s f n base q) (sym parts)
        ∙ offer-add f (first - base) (last - first) base q
        ∙ ap (λ r. r >>= then_offer f (last - first) (base + (first - base))) before
        ∙ ap (λ i. offer s f (last - first) i q) back
        ∙ offer-ext f in_both (last - first) first q (λ j lo hi. ground (arith, lo))
