-- ===== src/Tests/Ranges.antt =====
-- Runs of src/torrent/utils/ranges.h on two lists of ranges.
use libtorrent.Common.{List, [], arith, not, refl, ℕ, ◌&&◌, ◌||◌, ◌∷◌, ◌≡◌}
use libtorrent.Ranges.{
  Range, insert, erase, create_union, union_loop, append_rest, insert_from, erase_from, absorb,
  erase_to,
}
use libtorrent.Ranges.Cover.{within, covers, IsSorted}
use libtorrent.Ranges.Edit.{insert-covers, erase-covers}
use libtorrent.Ranges.Union.{create_union-covers}

abbrev some_ranges : List Range
some_ranges = (2, 5) ∷ (9, 12) ∷ (20, 30) ∷ []

abbrev other_ranges : List Range
other_ranges = (4, 9) ∷ (40, 41) ∷ []

some_ranges-IsSorted : IsSorted some_ranges
some_ranges-IsSorted = (omega arith, (omega arith, omega arith, (omega arith, omega arith, tt)))

insert_run : insert 5 9 some_ranges ≡ (2, 12) ∷ (20, 30) ∷ []
unfolding insert insert_from absorb
insert_run = refl

erase_run : erase 4 22 some_ranges ≡ (2, 4) ∷ (22, 30) ∷ []
unfolding erase erase_from erase_to
erase_run = refl

union_run : create_union some_ranges other_ranges ≡ (2, 12) ∷ (20, 30) ∷ (40, 41) ∷ []
unfolding create_union union_loop append_rest
union_run = refl

insert-covers_example :
    IsSorted (insert 5 9 some_ranges)
    × ((i : ℕ) → covers (insert 5 9 some_ranges) i ≡ covers some_ranges i || within 5 9 i)
insert-covers_example = insert-covers 5 9 some_ranges some_ranges-IsSorted

erase-covers_example :
    IsSorted (erase 4 22 some_ranges)
    × ((i : ℕ) → covers (erase 4 22 some_ranges) i ≡ covers some_ranges i && not (within 4 22 i))
erase-covers_example = erase-covers 4 22 some_ranges some_ranges-IsSorted

create_union-covers_example :
    IsSorted (create_union some_ranges other_ranges)
    × ((i : ℕ)
        → covers (create_union some_ranges other_ranges) i
          ≡ covers some_ranges i || covers other_ranges i)
create_union-covers_example =
    create_union-covers some_ranges other_ranges some_ranges-IsSorted
      (omega arith, (omega arith, omega arith, tt))
