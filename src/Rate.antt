-- ===== src/Rate.antt =====
-- src/torrent/rate.h and src/torrent/rate.cc: bytes per second over the last `span` seconds. The
-- deque is a list with its back, the oldest entry, first. The current time is a count of seconds of 64 bits
-- that is not negative; a sample keeps the bits of an int32_t of it. The span is not negative.
pub mod Window
use libtorrent.Common.{
  ℕ, Bool, List, Result, [], add64, err, if◌then◌else◌, internal_error, ltb, ok, sub64, throw_if,
  undefined, ◌+◌, ◌/◌, ◌==◌, ◌>>=◌, ◌>>◌, ◌^◌, ◌||◌, ◌∷◌, ◌%◌, ◌&&◌,
}

-- `time` is the bit pattern of an int32_t: from 2 ^ 31 on it stands for a negative number.
pub record Sample : Type 0 where
  pub time : ℕ
  pub bytes : ℕ

pub record Rate : Type 0 where
  pub span : ℕ
  pub current : ℕ
  pub total : ℕ
  pub samples : List Sample

-- `m_container.back().first < cached_seconds - m_span`, on signed numbers of 64 bits.
unfoldable pub is_old : ℕ → ℕ → Sample → Bool
is_old now span s = ltb (s.time + span) (if ltb s.time (2 ^ 31) then now else now + 2 ^ 32)

-- `m_container.front().first == cached_seconds`, where the current time is not narrowed.
unfoldable pub is_now : ℕ → Sample → Bool
is_now now s = ltb s.time (2 ^ 31) && s.time == now

-- The time is narrowed to the type of the container.
abbrev pub new_sample : ℕ → ℕ → Sample
new_sample now bytes = record { time = now % 2 ^ 32; bytes = bytes }

-- The loop of `discard_old`: what is left of the container and of `m_current`.
unfoldable pub drop_old : ℕ → ℕ → ℕ → List Sample → ℕ × List Sample
drop_old now span current [] = (current, [])
drop_old now span current (s ∷ ss) =
    let rest = drop_old now span (sub64 current s.bytes) ss in
    if is_old now span s then rest else (current, s ∷ ss)

unfoldable pub discard_old : ℕ → Rate → Rate
discard_old now r =
    let (current, samples) = drop_old now r.span r.current r.samples in
    record r { current = current; samples = samples }

-- `rate()` is const, but drops what is old. A span of 0 divides by zero.
unfoldable pub rate : ℕ → Rate → Result (Rate × ℕ)
unfolding discard_old
rate now r =
    let r' = discard_old now r in
    if r.span == 0 then err undefined else ok (r', r'.current / r'.span)

-- The bytes join the newest sample if that has the same time, and else make a new one.
unfoldable pub add_sample : ℕ → ℕ → List Sample → List Sample
unfolding is_now
add_sample now bytes [] = new_sample now bytes ∷ []
add_sample now bytes (s ∷ []) =
    if is_now now s
    then record s { bytes = add64 s.bytes bytes } ∷ []
    else s ∷ new_sample now bytes ∷ []
add_sample now bytes (s ∷ t ∷ ss) = s ∷ add_sample now bytes (t ∷ ss)

unfoldable pub insert : ℕ → ℕ → Rate → Result Rate
insert now bytes r = do
  let r' = discard_old now r
  throw_if (ltb (2 ^ 40) r'.current || ltb (2 ^ 28) bytes) internal_error
  ok (record r' {
    total = add64 r'.total bytes;
    current = add64 r'.current bytes;
    samples = add_sample now bytes r'.samples;
  })
