-- ===== src/Tests/Bitfield.antt =====
-- Runs of src/torrent/bitfield.cc on a bitfield of eleven bits.
use libtorrent.Common.{
  List, [], arith, false, ok, refl, some, suc, true, zero, ℕ, ◌*◌, ◌+◌, ◌-◌, ◌<◌, ◌∷◌, ◌≡◌, ◌≤◌,
}
use libtorrent.Bitfield.{
  Bitfield, update, set_range, unset_range, find_first_set, clear_tail, find_from, test_bit,
  mask_last, get, mask_before, count_words64, count_word32, count_bytes, popcount,
}
use libtorrent.Bitfield.Count.{bit, ones}
use libtorrent.Bitfield.Valid.{IsValid}
use libtorrent.Bitfield.Update.{Fits, update-IsValid}
use libtorrent.Bitfield.Range.{
  Filled, IsFirstSet, set_range-Filled, unset_range-Filled, find_first_set-IsFirstSet,
}

-- Bits past the size are set in the second byte, as a peer may send them.
abbrev received : Bitfield
received = record { size = 11; num_set = 0; bytes = some (0x81 ∷ 0xff ∷ []) }

abbrev empty : Bitfield
empty = record { size = 11; num_set = 0; bytes = some (0 ∷ 0 ∷ []) }

update_run :
    update received ≡ ok (record { size = 11; num_set = 5; bytes = some (0x81 ∷ 0xe0 ∷ []) })
unfolding update clear_tail mask_last mask_before count_words64 count_word32 count_bytes popcount
update_run = refl

find_run : find_first_set (record received { num_set = 5 }) 1 11 ≡ ok 7
unfolding find_first_set find_from get test_bit
find_run = refl

received-Fits : Fits received (0x81 ∷ 0xff ∷ [])
received-Fits = record { fits = omega arith; present = refl; len = refl; are_bytes = omega arith }

empty-Fits : Fits empty (0 ∷ 0 ∷ [])
empty-Fits = record { fits = omega arith; present = refl; len = refl; are_bytes = omega arith }

update-IsValid_example :
    (bf' : Bitfield) × (bs' : List ℕ) × (update received ≡ ok bf')
    × IsValid bf' bs'
    × (bf'.size ≡ 11)
    × ((i : ℕ) → i < 11 → bit bs' i ≡ bit (0x81 ∷ 0xff ∷ []) i)
update-IsValid_example = update-IsValid received (0x81 ∷ 0xff ∷ []) received-Fits

-- One set bit, at index 9.
abbrev one_set : Bitfield
one_set = record { size = 11; num_set = 1; bytes = some (0 ∷ 0x40 ∷ []) }

tail_clear : (i : ℕ) → 11 ≤ i → i < 8 * 2 → bit (0 ∷ 0x40 ∷ []) i ≡ false
unfolding bit test_bit
tail_clear i lo hi = pick (i - 11) (omega arith)
  where
    at : (i k : ℕ) → i ≡ k → bit (0 ∷ 0x40 ∷ []) k ≡ false → bit (0 ∷ 0x40 ∷ []) i ≡ false
    at i k e h = rw e h

    pick : (d : ℕ) → i ≡ 11 + d → bit (0 ∷ 0x40 ∷ []) i ≡ false
    pick zero e = at i 11 e refl
    pick (suc zero) e = at i 12 e refl
    pick (suc (suc zero)) e = at i 13 e refl
    pick (suc (suc (suc zero))) e = at i 14 e refl
    pick (suc (suc (suc (suc zero)))) e = at i 15 e refl
    pick (suc (suc (suc (suc (suc d))))) e = absurd (omega arith)

one_set-IsValid : IsValid one_set (0 ∷ 0x40 ∷ [])
unfolding ones bit test_bit
one_set-IsValid = (
  refl,
  record {
    fits = omega arith;
    len = refl;
    are_bytes = omega arith;
    tail = tail_clear;
    counted = refl;
  },
)

set_range-Filled_example :
    (bf' : Bitfield) × (bs' : List ℕ) × (set_range one_set 6 11 ≡ ok bf')
    × Filled one_set bf' (0 ∷ 0x40 ∷ []) bs' 6 11 true
set_range-Filled_example =
    set_range-Filled one_set (0 ∷ 0x40 ∷ []) 6 11 one_set-IsValid (omega arith) (omega arith)

unset_range-Filled_example :
    (bf' : Bitfield) × (bs' : List ℕ) × (unset_range one_set 6 11 ≡ ok bf')
    × Filled one_set bf' (0 ∷ 0x40 ∷ []) bs' 6 11 false
unset_range-Filled_example =
    unset_range-Filled one_set (0 ∷ 0x40 ∷ []) 6 11 one_set-IsValid (omega arith) (omega arith)

find_first_set-IsFirstSet_example :
    (i : ℕ) × (find_first_set one_set 2 11 ≡ ok i) × IsFirstSet (0 ∷ 0x40 ∷ []) 2 11 i
find_first_set-IsFirstSet_example =
    find_first_set-IsFirstSet one_set (0 ∷ 0x40 ∷ []) 2 11 one_set-IsValid (omega arith)
      (omega arith)
