-- ===== src/PartialQueue/Contents.antt =====
-- What the queue holds: a property that every inserted value has, every popped value has.
use libtorrent.Common.{
  ==_iff, Bool-cases, List, ap, arith, false, get_or, get_or-set_ne, get_or-set_self, inl, inr, ltb,
  ltb→ge, ltb→lt, ℕ, ◌*◌, ◌+◌, ◌<◌, ◌==◌, ◌∙◌, ◌≡◌, ◌≤◌, ok, Bool, refl, suc, true, zero, ◌||◌, [],
  leb, length, length-set, set, ◌-◌, ◌>>=◌, ◌∷◌, Option, length-replicate, none, replicate, some,
}
use native.Mathlib.Nat.{mul-suc, mul_comm}
use libtorrent.PartialQueue.{
  PartialQueue, num_layers, inserted, popped, is_layer_full, insert, prepare_from, prepare_pop, pop,
  load, enable, clear, ceiling_of,
}
use libtorrent.PartialQueue.Layers.{IsValid, Stored, insert-Stored, product_le}

pub record IsHolding (P : ℕ → Type 0) (q : PartialQueue) (d : List ℕ) (limit : ℕ) : Type 0 where
  pub valid : IsValid q d limit
  pub capped : (l : ℕ) → l < num_layers → inserted q l ≤ q.max_layer_size
  pub order : (l : ℕ) → l < num_layers → popped q l ≤ inserted q l
  pub holds :
      (l k : ℕ) → l < num_layers → k < inserted q l → P (get_or d (q.max_layer_size * l + k) 0)
  pub index_in : q.index < num_layers
  pub some_room : 0 < q.max_layer_size

-- How many values were inserted but not popped.
unfoldable pub left_in : List (ℕ × ℕ) → ℕ
left_in [] = 0
left_in ((p, i) ∷ ls) = (i - p) + left_in ls

left_in-set :
    (ls : List (ℕ × ℕ)) (l p i : ℕ)
    → l < length ls
    → left_in (set ls l (p, i)) + ((get_or ls l (0, 0)).1 - (get_or ls l (0, 0)).0)
      ≡ left_in ls + (i - p)
unfolding left_in
left_in-set [] l p i h = absurd (omega (arith, h))
left_in-set ((p', i') ∷ ls) zero p i h = omega arith
left_in-set ((p', i') ∷ ls) (suc l) p i h = omega (arith, left_in-set ls l p i (omega (arith, h)))

pub left_in-le :
    (ls : List (ℕ × ℕ)) (m : ℕ)
    → ((l : ℕ) → l < length ls → (get_or ls l (0, 0)).1 ≤ m)
    → left_in ls ≤ m * length ls
unfolding left_in
left_in-le [] m h = omega arith
left_in-le ((p, i) ∷ ls) m h = omega (
  arith,
  h 0 (omega arith),
  left_in-le ls m (λ l lt. h (suc l) (omega (arith, lt))),
  mul-suc m (length ls),
)

left_in_zero : (n : ℕ) → left_in (replicate n (0, 0)) ≡ 0
unfolding left_in
left_in_zero zero = refl
left_in_zero (suc n) = omega (arith, left_in_zero n)

abbrev no_values : ℕ × ℕ
no_values = (0, 0)

fresh_layer : (n l : ℕ) → get_or (replicate n no_values) l no_values ≡ no_values
fresh_layer zero l = refl
fresh_layer (suc n) zero = refl
fresh_layer (suc n) (suc l) = fresh_layer n l

abbrev cleared : PartialQueue → PartialQueue
cleared q = record q { index = 0; ceiling = ceiling_of 7; layers = replicate 8 (0, 0) }

clear-runs :
    (o : Option (List ℕ)) (q : PartialQueue) (d : List ℕ)
    → o ≡ some d
    → elim o as (λ x. PartialQueue) [ none ↦ q | some v ↦ cleared q ] ≡ cleared q
clear-runs o q d e = rw e refl

-- The array is there, with room for eight layers of some size.
pub record IsEnabled (q : PartialQueue) (d : List ℕ) : Type 0 where
  pub present : q.values ≡ some d
  pub room : length d ≡ q.max_layer_size * num_layers
  pub some_room : 0 < q.max_layer_size

pub enable-IsEnabled :
    (q : PartialQueue) (ls : ℕ)
    → 0 < ls
    → (q' : PartialQueue) × (enable q ls ≡ ok q') × IsEnabled q' (replicate (ls * num_layers) 0)
unfolding enable
enable-IsEnabled q ls h =
    let some_size : (ls == 0) ≡ false = ground (arith, h) in
    (
      record q { values = some (replicate (ls * num_layers) 0); max_layer_size = ls },
      rw some_size refl,
      record { present = refl; room = length-replicate (ls * num_layers) 0; some_room = h },
    )

module _ (P : ℕ → Type 0) where
  pub IsHolding-IsEnabled :
      {q : PartialQueue} {d : List ℕ} {limit : ℕ} → IsHolding P q d limit → IsEnabled q d
  IsHolding-IsEnabled h = record {
    present = h.valid.present;
    room = h.valid.room;
    some_room = h.some_room;
  }

  -- `clear` on a queue that is enabled leaves it empty and open to every key below 255.
  pub clear-IsHolding : (q : PartialQueue) (d : List ℕ) → IsEnabled q d → IsHolding P (clear q) d 8
  unfolding clear inserted popped
  clear-IsHolding q d e = rw (clear-runs q.values q d e.present) (record {
    valid = record {
      present = e.present;
      room = e.room;
      layers_len = refl;
      limited = omega arith;
      below = refl;
      open_below = λ l lt. omega (arith, ap (λ (x : ℕ × ℕ). x.1) (fresh_layer 8 l), e.some_room);
    };
    capped = λ l lt. omega (arith, ap (λ (x : ℕ × ℕ). x.1) (fresh_layer 8 l));
    order = λ l lt. omega (
      arith,
      ap (λ (x : ℕ × ℕ). x.1) (fresh_layer 8 l),
      ap (λ (x : ℕ × ℕ). x.0) (fresh_layer 8 l),
    );
    holds = λ l k lt hk. absurd (omega (arith, hk, ap (λ (x : ℕ × ℕ). x.1) (fresh_layer 8 l)));
    index_in = omega arith;
    some_room = e.some_room;
  })

  Stored-IsHolding :
      (q q' : PartialQueue) (d d' : List ℕ) (limit limit' l value : ℕ)
      → IsHolding P q d limit
      → IsValid q' d' limit'
      → l < limit
      → Stored q q' d d' l value
      → P value
      → IsHolding P q' d' limit'
  unfolding inserted popped
  Stored-IsHolding q q' d d' limit limit' l value h v lt s p = record {
    valid = v;
    capped = λ k hk. elim (Bool-cases (k == l)) [
      | inl same ↦
          let e : k ≡ l = (==_iff k l).0 same in
          rw (s.max_same, e) (omega (arith, ap (λ (x : ℕ × ℕ). x.1) here, h.valid.open_below l lt))
      | inr apart ↦
          omega (arith, s.max_same, ap (λ (x : ℕ × ℕ). x.1) (there k apart), h.capped k hk)
    ];
    order = λ k hk. elim (Bool-cases (k == l)) [
      | inl same ↦
          let e : k ≡ l = (==_iff k l).0 same in
          rw e (
            omega
              (arith, ap (λ (x : ℕ × ℕ). x.1) here, ap (λ (x : ℕ × ℕ). x.0) here, h.order l l_in))
      | inr apart ↦ omega (
        arith,
        ap (λ (x : ℕ × ℕ). x.1) (there k apart),
        ap (λ (x : ℕ × ℕ). x.0) (there k apart),
        h.order k hk,
      )
    ];
    holds = λ k i hk hi.
        let place = q.max_layer_size * k + i in
        let at = ap (λ (m : ℕ). get_or d' (m * k + i) 0) s.max_same in
        rw (at, s.array)
          (elim (Bool-cases (place == q.max_layer_size * l + inserted q l)) [
            | inl same ↦
                let e : place ≡ q.max_layer_size * l + inserted q l =
                  (==_iff place (q.max_layer_size * l + inserted q l)).0 same in
                rw (e, get_or-set_self d (q.max_layer_size * l + inserted q l) value 0 s.place_in) p
            | inr apart ↦
                rw
                  (get_or-set_ne d (q.max_layer_size * l + inserted q l) place value 0
                    (λ e. ground (arith, e, apart)))
                  (h.holds k i hk (old k i hi apart))
          ]);
    index_in = omega (arith, s.index_moved, h.index_in);
    some_room = omega (arith, s.max_same, h.some_room);
  }
    where
      l_in : l < num_layers
      l_in = omega (arith, lt, h.valid.limited)

      here : get_or q'.layers l (0, 0) ≡ (popped q l, inserted q l + 1)
      here =
          ap (λ (ls : List (ℕ × ℕ)). get_or ls l (0, 0)) s.layers_set
          ∙ get_or-set_self q.layers l _ (0, 0) (omega (arith, l_in, h.valid.layers_len))

      there : (k : ℕ) → (k == l) ≡ false → get_or q'.layers k (0, 0) ≡ get_or q.layers k (0, 0)
      there k apart =
          ap (λ (ls : List (ℕ × ℕ)). get_or ls k (0, 0)) s.layers_set
          ∙ get_or-set_ne q.layers l k _ (0, 0) (λ e. ground (arith, e, apart))

      old :
          (k i : ℕ)
          → i < inserted q' k
          → (q.max_layer_size * k + i == q.max_layer_size * l + inserted q l) ≡ false
          → i < inserted q k
      old k i hi apart = elim (Bool-cases (k == l)) [
        | inl same ↦
            let e : k ≡ l = (==_iff k l).0 same in
            ground (
              arith,
              ap (λ (x : ℕ × ℕ). x.1) here,
              hi,
              apart,
              ap (λ (z : ℕ). inserted q' z) e,
              ap (λ (z : ℕ). inserted q z) e,
              ap (λ (z : ℕ). q.max_layer_size * z) e,
            )
        | inr other ↦ omega (arith, hi, ap (λ (x : ℕ × ℕ). x.1) (there k other))
      ]

  -- `insert` never throws and keeps the property, if the value has it.
  pub insert-IsHolding :
      (q : PartialQueue) (d : List ℕ) (limit key value : ℕ)
      → IsHolding P q d limit
      → P value
      → (q' : PartialQueue) × (d' : List ℕ) × (limit' : ℕ) × (insert q key value
          ≡ ok (q', ltb key q.ceiling))
        × IsHolding P q' d' limit'
  insert-IsHolding q d limit key value h p =
      let (q', d', limit', run, v, out, taken) = insert-Stored q d limit key value h.valid in
      elim (Bool-cases (ltb key q.ceiling)) [
        | inl below ↦
            let (l, lt, _, _, s) = taken (ltb→lt key q.ceiling below) in
            (q', d', limit', run, Stored-IsHolding q q' d d' limit limit' l value h v lt s p)
        | inr above ↦
            let (e, e') = out (ltb→ge key q.ceiling above) in
            (q, d, limit, run ∙ ap (λ x. ok (x, ltb key q.ceiling)) e, h)
      ]

  index-IsHolding :
      (q : PartialQueue) (d : List ℕ) (limit i : ℕ)
      → IsHolding P q d limit
      → i < num_layers
      → IsHolding P (record q { index = i }) d limit
  unfolding inserted popped
  index-IsHolding q d limit i h lt = record {
    valid = record {
      present = h.valid.present;
      room = h.valid.room;
      layers_len = h.valid.layers_len;
      limited = h.valid.limited;
      below = h.valid.below;
      open_below = h.valid.open_below;
    };
    capped = h.capped;
    order = h.order;
    holds = h.holds;
    index_in = lt;
    some_room = h.some_room;
  }

  -- The loop of `prepare_pop` moves the index only, to a layer with something left if it says so.
  prepare_from_lem :
      (fuel : ℕ) (q : PartialQueue) (d : List ℕ) (limit : ℕ)
      → IsHolding P q d limit
      → num_layers ≤ q.index + fuel
      → (i : ℕ) × (any : Bool) × (prepare_from fuel q ≡ ok (record q { index = i }, any))
        × (i < num_layers)
        × (any ≡ true → popped q i < inserted q i)
  unfolding prepare_from inserted popped
  prepare_from_lem zero q d limit h le = absurd (omega (arith, h.index_in, le))
  prepare_from_lem (suc fuel) q d limit h le =
      elim (Bool-cases (popped q q.index == inserted q q.index)) [
        | inr some_left ↦ (
          q.index,
          true,
          rw some_left refl,
          h.index_in,
          λ t. ground (arith, some_left, h.order q.index h.index_in),
        )
        | inl empty ↦ elim (Bool-cases (is_layer_full q q.index || q.index + 1 == num_layers)) [
          | inl stop ↦ (q.index, false, rw (empty, stop) refl, h.index_in, λ t. cc)
          | inr more ↦
              let lt : q.index + 1 < num_layers = ground (arith, more, h.index_in) in
              let (i, any, run, i_lt, left) =
                prepare_from_lem fuel (record q { index = q.index + 1 }) d limit
                  (index-IsHolding q d limit (q.index + 1) h lt) (omega (arith, le)) in
              (i, any, rw (empty, more) run, i_lt, left)
        ]
      ]

  -- `prepare_pop` never throws; where it returns true, the layer at the index has something left.
  pub prepare_pop-IsHolding :
      (q : PartialQueue) (d : List ℕ) (limit : ℕ)
      → IsHolding P q d limit
      → (q' : PartialQueue) × (any : Bool) × (prepare_pop q ≡ ok (q', any))
        × IsHolding P q' d limit
        × (any ≡ true → popped q' q'.index < inserted q' q'.index)
        × (left_in q'.layers ≡ left_in q.layers)
  unfolding prepare_pop inserted popped
  prepare_pop-IsHolding q d limit h =
      let (i, any, run, lt, left) = prepare_from_lem num_layers q d limit h (omega arith) in
      (record q { index = i }, any, run, index-IsHolding q d limit i h lt, left, refl)

  -- Where a layer has something left, `pop` returns a value with the property.
  pub pop-IsHolding :
      (q : PartialQueue) (d : List ℕ) (limit : ℕ)
      → IsHolding P q d limit
      → popped q q.index < inserted q q.index
      → (q' : PartialQueue) × (v : ℕ) × (pop q ≡ ok (q', v))
        × P v
        × IsHolding P q' d limit
        × (left_in q'.layers + 1 ≡ left_in q.layers)
  unfolding pop load popped inserted
  pop-IsHolding q d limit h lt =
      let place = q.index * q.max_layer_size + popped q q.index in
      let l = q.index in
      let same : place ≡ q.max_layer_size * l + popped q l =
        ap (λ m. m + popped q l) (mul_comm l q.max_layer_size) in
      let deep = product_le q.max_layer_size l num_layers h.index_in in
      let here =
        get_or-set_self q.layers l (popped q l + 1, inserted q l) (0, 0)
          (omega (arith, h.index_in, h.valid.layers_len)) in
      let there : (k : ℕ)
          → (k == l) ≡ false
          → get_or (set q.layers l (popped q l + 1, inserted q l)) k (0, 0)
            ≡ get_or q.layers k (0, 0) =
        λ k apart. get_or-set_ne q.layers l k _ (0, 0) (λ e. ground (arith, e, apart)) in
      let same_inserted : (k : ℕ)
          → (get_or (set q.layers l (popped q l + 1, inserted q l)) k (0, 0)).1 ≡ inserted q k =
        λ k. elim (Bool-cases (k == l)) [
          | inl at ↦ let e : k ≡ l = (==_iff k l).0 at in rw e (ap (λ (x : ℕ × ℕ). x.1) here)
          | inr apart ↦ ap (λ (x : ℕ × ℕ). x.1) (there k apart)
        ] in
      let in_array : ltb place (length d) ≡ true =
        ground (arith, same, deep, h.valid.room, lt, h.capped l h.index_in) in
      let loads : load q.values place ≡ ok (get_or d place 0) =
        ap (λ v. load v place) h.valid.present ∙ rw in_array refl in
      let started : leb (inserted q l) (popped q l) ≡ false = ground (arith, lt) in
      let in_range : leb num_layers l ≡ false = ground (arith, h.index_in) in
      (
        record q { layers = set q.layers l (popped q l + 1, inserted q l) },
        get_or d place 0,
        rw (in_range, started)
            (ap
              (λ r. r >>= (λ v.
                ok (record q { layers = set q.layers l (popped q l + 1, inserted q l) }, v)))
              loads),
        rw same (h.holds l (popped q l) h.index_in lt),
        record {
          valid = record {
            present = h.valid.present;
            room = h.valid.room;
            layers_len = length-set q.layers l _ ∙ h.valid.layers_len;
            limited = h.valid.limited;
            below = h.valid.below;
            open_below = λ k hk. omega (arith, same_inserted k, h.valid.open_below k hk);
          };
          capped = λ k hk. omega (arith, same_inserted k, h.capped k hk);
          order = λ k hk. elim (Bool-cases (k == l)) [
            | inl at ↦
                let e : k ≡ l = (==_iff k l).0 at in
                rw e (omega (arith, ap (λ (x : ℕ × ℕ). x.0) here, ap (λ (x : ℕ × ℕ). x.1) here, lt))
            | inr apart ↦
                omega
                  (arith, ap (λ (x : ℕ × ℕ). x.0) (there k apart), same_inserted k, h.order k hk)
          ];
          holds = λ k i hk hi. h.holds k i hk (omega (arith, hi, same_inserted k));
          index_in = h.index_in;
          some_room = h.some_room;
        },
        omega (
          arith,
          left_in-set q.layers l (popped q l + 1) (inserted q l)
              (omega (arith, h.index_in, h.valid.layers_len)),
          lt,
        ),
      )
