-- ===== src/PartialQueue/Layers.antt =====
-- The layers of the queue: which one a key belongs to, and that `insert` never finds it full.
use libtorrent.Common.{
  ==_iff, Bool-cases, List, arith, get_or, inl, inr, leb, leb→le, length, ltb, ltb→ge, ltb→lt, ok,
  refl, some, suc, zero, ℕ, ◌*◌, ◌+◌, ◌<◌, ◌==◌, ◌≡◌, ◌≤◌, ap, false, get_or-set_ne,
  get_or-set_self, min, set, sym, true, ◌≢◌, if◌then◌else◌, leb→gt, length-set, ◌-◌, ◌∙◌, Option,
}
use native.Mathlib.Nat.{mul-suc, mul-le-mul_left}
use libtorrent.PartialQueue.{
  PartialQueue, num_layers, ceiling_of, inserted, popped, is_layer_full, find_layer, store, put,
  insert,
}

-- The ceiling above the layers below `limit`.
abbrev pub limit_ceiling : ℕ → ℕ
limit_ceiling zero = 0
limit_ceiling (suc l) = ceiling_of l

-- The array has room for the eight layers, the layers below `limit` are not full, and the ceiling
-- keeps the keys of all others out.
pub record IsValid (q : PartialQueue) (d : List ℕ) (limit : ℕ) : Type 0 where
  pub present : q.values ≡ some d
  pub room : length d ≡ q.max_layer_size * num_layers
  pub layers_len : length q.layers ≡ num_layers
  pub limited : limit ≤ num_layers
  pub below : q.ceiling ≡ limit_ceiling limit
  pub open_below : (l : ℕ) → l < limit → inserted q l < q.max_layer_size

find_layer_lem :
    (fuel key idx : ℕ)
    → idx + fuel ≡ num_layers
    → key < ceiling_of 7
    → ((k : ℕ) → k < idx → ceiling_of k ≤ key)
    → (l : ℕ) × (find_layer fuel key idx ≡ ok l)
      × (l < num_layers)
      × ((k : ℕ) → k < l → ceiling_of k ≤ key)
      × (key < ceiling_of l)
unfolding find_layer
find_layer_lem zero key idx e lt low = absurd (omega (arith, lt, low 7 (omega (arith, e))))
find_layer_lem (suc fuel) key idx e lt low = elim (Bool-cases (leb (ceiling_of idx) key)) [
  | inl above ↦
      let (l, run, small, lows, fits) =
        find_layer_lem fuel key (idx + 1) (omega (arith, e)) lt (λ k h.
          elim (Bool-cases (k == idx)) [
            | inl same ↦
                let p : k ≡ idx = (==_iff k idx).0 same in rw p (leb→le (ceiling_of idx) key above)
            | inr other ↦ low k (ground (arith, h, other))
          ]) in
      (l, rw above run, small, lows, fits)
  | inr here ↦ (idx, rw here refl, omega (arith, e), low, leb→gt (ceiling_of idx) key here)
]

below_limit :
    (key l limit : ℕ)
    → key < limit_ceiling limit
    → ((k : ℕ) → k < l → ceiling_of k ≤ key)
    → l < limit
below_limit key l zero lt low = absurd (omega (arith, lt))
below_limit key l (suc m) lt low = elim (Bool-cases (ltb m l)) [
  | inl over ↦ absurd (omega (arith, lt, low m (ltb→lt m l over)))
  | inr fine ↦ omega (arith, ltb→ge m l fine)
]

-- A layer ends by where a later one begins.
pub product_le : (m a b : ℕ) → a < b → m * a + m ≤ m * b
product_le m a b h =
    let whole : m * suc a ≤ m * b = mul-le-mul_left m h in omega (arith, whole, mul-suc m a)

below_top : (key limit : ℕ) → limit ≤ num_layers → key < limit_ceiling limit → key < ceiling_of 7
below_top key zero h lt = omega (arith, lt)
below_top key (suc zero) h lt = omega (arith, lt)
below_top key (suc (suc zero)) h lt = omega (arith, lt)
below_top key (suc (suc (suc zero))) h lt = omega (arith, lt)
below_top key (suc (suc (suc (suc zero)))) h lt = omega (arith, lt)
below_top key (suc (suc (suc (suc (suc zero))))) h lt = omega (arith, lt)
below_top key (suc (suc (suc (suc (suc (suc zero)))))) h lt = omega (arith, lt)
below_top key (suc (suc (suc (suc (suc (suc (suc zero))))))) h lt = omega (arith, lt)
below_top key (suc (suc (suc (suc (suc (suc (suc (suc zero)))))))) h lt = omega (arith, lt)
below_top key (suc (suc (suc (suc (suc (suc (suc (suc (suc a))))))))) h lt =
    absurd (omega (arith, h))

lowered : (l : ℕ) → (if ltb 0 l then ceiling_of (l - 1) else 0) ≡ limit_ceiling l
lowered zero = refl
lowered (suc l) =
    let e : suc l - 1 ≡ l = omega arith in
    let t : ltb 0 (suc l) ≡ true = ground arith in rw (t, e) refl

store-runs :
    (o : Option (List ℕ)) (d : List ℕ) (place value : ℕ)
    → o ≡ some d
    → ltb place (length d) ≡ true
    → store o place value ≡ ok (some (set d place value))
unfolding store
store-runs o d place value e h = ap (λ x. store x place value) e ∙ rw h refl

-- The value went to the end of layer `l`.
pub record Stored (q q' : PartialQueue) (d d' : List ℕ) (l value : ℕ) : Type 0 where
  pub array : d' ≡ set d (q.max_layer_size * l + inserted q l) value
  pub place_in : q.max_layer_size * l + inserted q l < length d
  pub max_same : q'.max_layer_size ≡ q.max_layer_size
  pub index_moved : q'.index ≡ min q.index l
  pub layers_set : q'.layers ≡ set q.layers l (popped q l, inserted q l + 1)

put-Stored :
    (q : PartialQueue) (d : List ℕ) (limit l value : ℕ)
    → IsValid q d limit
    → l < limit
    → (q' : PartialQueue) × (d' : List ℕ) × (limit' : ℕ) × (put q l value ≡ ok q')
      × IsValid q' d' limit'
      × Stored q q' d d' l value
unfolding put is_layer_full inserted
put-Stored q d limit l value v lt =
    let place = q.max_layer_size * l + inserted q l in
    let free : (leb q.max_layer_size (inserted q l)) ≡ false = ground (arith, v.open_below l lt) in
    let room : ltb place (length d) ≡ true = ground (
      arith,
      v.room,
      v.open_below l lt,
      product_le q.max_layer_size l num_layers (omega (arith, lt, v.limited)),
    ) in
    let d' = set d place value in
    let run = store-runs q.values d place value v.present room in
    let layers' = set q.layers l (popped q l, inserted q l + 1) in
    let filled : PartialQueue = record q {
      values = some d';
      index = min q.index l;
      layers = layers';
    } in
    let here : inserted filled l ≡ inserted q l + 1 =
      ap (λ p. p.1)
        (get_or-set_self q.layers l _ (0, 0) (omega (arith, lt, v.limited, v.layers_len))) in
    let other : (k : ℕ) → k ≢ l → inserted filled k ≡ inserted q k =
      λ k ne. ap (λ p. p.1) (get_or-set_ne q.layers l k _ (0, 0) (λ e. ne (sym e))) in
    let stored : (q' : PartialQueue)
        → q'.max_layer_size ≡ q.max_layer_size
        → q'.index ≡ min q.index l
        → q'.layers ≡ layers'
        → Stored q q' d d' l value =
      λ q' e1 e2 e3. record {
        array = refl;
        place_in = ground (arith, room);
        max_same = e1;
        index_moved = e2;
        layers_set = e3;
      } in
    let lens : length layers' ≡ num_layers = length-set q.layers l _ ∙ v.layers_len in
    elim (Bool-cases (leb q.max_layer_size (inserted filled l))) [
      | inl full ↦ (
        record filled { ceiling = if ltb 0 l then ceiling_of (l - 1) else 0 },
        d',
        l,
        rw (free, run, full) refl,
        record {
          present = refl;
          room = length-set d place value ∙ v.room;
          layers_len = lens;
          limited = omega (arith, lt, v.limited);
          below = lowered l;
          open_below = λ k h.
              omega (arith, other k (omega (arith, h)), v.open_below k (omega (arith, h, lt)));
        },
        stored _ refl refl refl,
      )
      | inr space ↦ (
        filled,
        d',
        limit,
        rw (free, run, space) refl,
        record {
          present = refl;
          room = length-set d place value ∙ v.room;
          layers_len = lens;
          limited = v.limited;
          below = v.below;
          open_below = λ k h. elim (Bool-cases (k == l)) [
            | inl same ↦
                let p : k ≡ l = (==_iff k l).0 same in
                rw p (leb→gt q.max_layer_size (inserted filled l) space)
            | inr apart ↦ omega (arith, other k (λ p. ground (arith, p, apart)), v.open_below k h)
          ];
        },
        stored _ refl refl refl,
      )
    ]

-- `insert` with all that it changes.
pub insert-Stored :
    (q : PartialQueue) (d : List ℕ) (limit key value : ℕ)
    → IsValid q d limit
    → (q' : PartialQueue) × (d' : List ℕ) × (limit' : ℕ) × (insert q key value
        ≡ ok (q', ltb key q.ceiling))
      × IsValid q' d' limit'
      × (q.ceiling ≤ key → (q' ≡ q) × (d' ≡ d))
      × (key < q.ceiling
          → (l : ℕ) × (l < limit)
            × ((k : ℕ) → k < l → ceiling_of k ≤ key)
            × (key < ceiling_of l)
            × Stored q q' d d' l value)
unfolding insert
insert-Stored q d limit key value v = elim (Bool-cases (leb q.ceiling key)) [
  | inl out ↦ (
    q,
    d,
    limit,
    rw out (ground (arith, out)),
    v,
    λ h. (refl, refl),
    λ h. absurd (ground (arith, h, out)),
  )
  | inr taken ↦
      let key_lt = leb→gt q.ceiling key taken in
      let (l, run, small, lows, fits) =
        find_layer_lem num_layers key 0 (omega arith)
          (below_top key limit v.limited (omega (arith, key_lt, v.below)))
          (λ k h. absurd (omega (arith, h))) in
      let l_lt = below_limit key l limit (omega (arith, key_lt, v.below)) lows in
      let (q', d', limit', run', v', stored) = put-Stored q d limit l value v l_lt in
      (
        q',
        d',
        limit',
        rw (taken, run, run') (ground (arith, key_lt)),
        v',
        λ h. absurd (omega (arith, h, key_lt)),
        λ h. (l, l_lt, lows, fits, stored),
      )
]

-- On a valid queue insert never throws; it refuses a key that is not below the ceiling and changes
-- nothing then, and stores any other in the first layer whose ceiling is above the key, which
-- counts one value more; the queue stays valid.
pub insert-IsValid :
    (q : PartialQueue) (d : List ℕ) (limit key value : ℕ)
    → IsValid q d limit
    → (q' : PartialQueue) × (d' : List ℕ) × (limit' : ℕ) × (insert q key value
        ≡ ok (q', ltb key q.ceiling))
      × IsValid q' d' limit'
      × (q.ceiling ≤ key → q' ≡ q)
      × (key < q.ceiling
          → (l : ℕ) × (l < limit)
            × ((k : ℕ) → k < l → ceiling_of k ≤ key)
            × (key < ceiling_of l)
            × (inserted q' l ≡ inserted q l + 1)
            × (get_or d' (q.max_layer_size * l + inserted q l) 0 ≡ value))
unfolding inserted
insert-IsValid q d limit key value v =
    let (q', d', limit', run, v', out, taken) = insert-Stored q d limit key value v in
    (
      q',
      d',
      limit',
      run,
      v',
      λ h. (out h).0,
      λ h.
          let (l, l_lt, lows, fits, s) = taken h in
          (
            l,
            l_lt,
            lows,
            fits,
            ap (λ (ls : List (ℕ × ℕ)). (get_or ls l (0, 0)).1) s.layers_set
                ∙ ap (λ p. p.1)
                    (get_or-set_self q.layers l _ (0, 0)
                      (omega (arith, l_lt, v.limited, v.layers_len))),
            ap (λ a. get_or a (q.max_layer_size * l + inserted q l) 0) s.array
                ∙ get_or-set_self d (q.max_layer_size * l + inserted q l) value 0 s.place_in,
          ),
    )
