-- ===== src/Tests/Rate.antt =====
-- Runs of src/torrent/rate.cc on a rate with three samples over ten seconds.
use libtorrent.Common.{[], add64, arith, map_ok, ok, refl, ℕ, ◌+◌, ◌/◌, ◌∷◌, ◌≡◌, ◌≤◌}
use libtorrent.Rate.{Rate, rate, insert, discard_old, drop_old, is_old}
use libtorrent.Rate.Window.{IsValid, window, counts_at, sum, rate-window, insert-window}

abbrev three_samples : Rate
three_samples = record {
  span = 10;
  current = 600;
  total = 900;
  samples =
      record { time = 3; bytes = 100 }
      ∷ record { time = 8; bytes = 200 }
      ∷ record { time = 12; bytes = 300 }
      ∷ [];
}

three_samples-IsValid : IsValid 14 three_samples
unfolding sum
three_samples-IsValid = record {
  ordered = (
    (omega arith, omega arith),
    ((omega arith, omega arith), ((omega arith, omega arith), omega arith)),
  );
  summed = refl;
  fits = omega arith;
}

rate_run : map_ok (λ p. p.1) (rate 14 three_samples) ≡ ok 50
unfolding rate discard_old drop_old is_old
rate_run = refl

rate-window_example :
    (r' : Rate) × (rate 14 three_samples ≡ ok (r', window 14 10 three_samples.samples / 10))
    × IsValid 14 r'
    × ((later : ℕ)
        → 14 ≤ later
        → window later 10 r'.samples ≡ window later 10 three_samples.samples)
rate-window_example = rate-window 14 three_samples three_samples-IsValid (omega arith)

insert-window_example :
    (r' : Rate) × (insert 14 50 three_samples ≡ ok r')
    × IsValid 14 r'
    × (r'.total ≡ add64 900 50)
    × (r'.span ≡ 10)
    × ((later : ℕ)
        → 14 ≤ later
        → window later 10 r'.samples
          ≡ window later 10 three_samples.samples + counts_at later 10 14 50)
unfolding window is_old
insert-window_example =
    insert-window 14 50 three_samples three_samples-IsValid (omega arith) (omega arith)
      (omega arith)
