-- ===== src/Ranges.antt =====
-- src/torrent/utils/ranges.h: sets of indices as ordered lists of half-open ranges. The bounds are
-- unsigned; a search by `std::find_if` and the erasure up to its result are one recursion.
pub mod Cover
pub mod Edit
pub mod Union
use libtorrent.Common.{ℕ, Bool, List, [], add64, false, if◌then◌else◌, leb, ltb, max, min, ◌-◌, ◌∷◌}

abbrev pub Range : Type 0
Range = ℕ × ℕ

-- The part of `insert` after the first touched range has become [lo, hi): the ranges that end by
-- `hi` go, and one that starts by `hi` lends its end.
unfoldable pub absorb : ℕ → ℕ → List Range → List Range
absorb lo hi [] = (lo, hi) ∷ []
absorb lo hi ((a, b) ∷ rest) =
    let later = absorb lo hi rest in
    if ltb hi b then (if leb a hi then (lo, b) ∷ rest else (lo, hi) ∷ (a, b) ∷ rest) else later

unfoldable pub insert_from : ℕ → ℕ → List Range → List Range
insert_from first last [] = (first, last) ∷ []
insert_from first last ((a, b) ∷ rest) =
    let later = insert_from first last rest in
    if leb first b
    then (if ltb last a
        then (first, last) ∷ (a, b) ∷ rest
        else absorb (min first a) (max last b) rest)
    else (a, b) ∷ later

unfoldable pub insert : ℕ → ℕ → List Range → List Range
unfolding insert_from
insert first last rs = if leb last first then rs else insert_from first last rs

-- The ranges from the first touched one on, which ends by `last`: those that end by `last` go, and
-- the next is cut.
unfoldable pub erase_to : ℕ → List Range → List Range
erase_to last [] = []
erase_to last ((a, b) ∷ rest) =
    let later = erase_to last rest in
    if ltb last b then (if ltb a last then (last, b) ∷ rest else (a, b) ∷ rest) else later

unfoldable pub erase_from : ℕ → ℕ → List Range → List Range
unfolding erase_to
erase_from first last [] = []
erase_from first last ((a, b) ∷ rest) =
    let later = erase_from first last rest in
    if ltb first b
    then (if ltb last b
        then (if ltb a first
            then (a, first) ∷ (last, b) ∷ rest
            else if ltb a last
            then (last, b) ∷ rest
            else (a, b) ∷ rest)
        else if ltb a first
        then (a, first) ∷ erase_to last rest
        else erase_to last rest)
    else (a, b) ∷ later

unfoldable pub erase : ℕ → ℕ → List Range → List Range
unfolding erase_from
erase first last rs = if leb last first then rs else erase_from first last rs

-- The iterator that `find` returns, as the ranges from it on.
unfoldable pub find : ℕ → List Range → List Range
find index [] = []
find index ((a, b) ∷ rest) =
    let later = find index rest in if ltb index b then (a, b) ∷ rest else later

starts_by : ℕ → List Range → Bool
starts_by index [] = false
starts_by index ((a, b) ∷ rest) = leb a index

unfoldable pub has : ℕ → List Range → Bool
unfolding starts_by find
has index rs = starts_by index (find index rs)

-- The loop of `intersect_distance` over the ranges after the first.
distance_from : ℕ → ℕ → List Range → ℕ
distance_from dist last [] = dist
distance_from dist last ((a, b) ∷ rest) =
    let more = distance_from (add64 dist (min last b - a)) last rest in
    if ltb a last then more else dist

distance_found : ℕ → ℕ → List Range → ℕ
unfolding distance_from
distance_found first last [] = 0
distance_found first last ((a, b) ∷ rest) =
    if leb last a then 0 else distance_from (min last b - max first a) last rest

unfoldable pub intersect_distance : ℕ → ℕ → List Range → ℕ
unfolding distance_found find
intersect_distance first last rs = distance_found first last (find first rs)

-- The two last loops of `create_union`: `cur` is `result.back()`.
unfoldable pub append_rest : Range → List Range → List Range
append_rest cur [] = cur ∷ []
append_rest cur ((a, b) ∷ rest) =
    let joined = append_rest (cur.0, max b cur.1) rest in
    let apart = append_rest (a, b) rest in if leb a cur.1 then joined else cur ∷ apart

unfoldable pub union_loop : Range → List Range → List Range → List Range
unfolding append_rest
union_loop cur [] right = append_rest cur right
union_loop cur ((a, b) ∷ left) [] = append_rest cur ((a, b) ∷ left)
union_loop cur ((a, b) ∷ left) ((c, d) ∷ right) =
    let left_joined = union_loop (cur.0, max b cur.1) left ((c, d) ∷ right) in
    let left_apart = union_loop (a, b) left ((c, d) ∷ right) in
    let right_joined = union_loop (cur.0, max d cur.1) ((a, b) ∷ left) right in
    let right_apart = union_loop (c, d) ((a, b) ∷ left) right in
    if ltb a c
    then (if leb a cur.1 then left_joined else cur ∷ left_apart)
    else if leb c cur.1
    then right_joined
    else cur ∷ right_apart

unfoldable pub create_union : List Range → List Range → List Range
create_union [] right = right
create_union ((a, b) ∷ left) [] = (a, b) ∷ left
create_union ((a, b) ∷ left) ((c, d) ∷ right) =
    if ltb a c
    then union_loop (a, b) left ((c, d) ∷ right)
    else union_loop (c, d) ((a, b) ∷ left) right
