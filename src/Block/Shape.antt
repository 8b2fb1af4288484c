-- ===== src/Block/Shape.antt =====
-- What a block of src/torrent/data/block.cc looks like while it is transferred.
use libtorrent.Common.{
  ℕ, ◌+◌, ◌^◌, ◌≤◌, ◌<◌, List, ◌++◌, Bool, true, not, ◌&&◌, ◌||◌, if◌then◌else◌, ◌==◌, ◌≡◌, Option,
}
use libtorrent.Common.Counting.{count, tally}
use libtorrent.Block.{
  World, BlockTransfer, on, is_erased, is_queued, is_leader, is_not_leader, is_at, is_some,
}

abbrev pub waits : Option BlockTransfer → Bool
waits o = on (λ t. t.valid && is_queued t) o

abbrev pub in_line : Option BlockTransfer → ℕ
in_line o = if waits o then 1 else 0

abbrev pub moves : Option BlockTransfer → Bool
moves o = on (λ t. t.valid && not (is_queued t)) o

abbrev pub leads : Option BlockTransfer → Bool
leads o = on (λ t. t.valid && is_leader t) o

abbrev pub follows : Option BlockTransfer → Bool
follows o = on (λ t. t.valid && is_not_leader t) o

-- Given up for its data, and stalled before.
abbrev pub dropped : Option BlockTransfer → Bool
dropped o = on (λ t. not t.valid && is_erased t && not (t.stall == 0)) o

-- The leader of an earlier attempt.
abbrev pub past_leader : Option BlockTransfer → Bool
past_leader o = on (λ t. not t.valid && is_leader t) o

-- 1 for a transfer that counts as not stalled.
abbrev pub eager : Option BlockTransfer → ℕ
eager o = if on (λ t. t.valid && t.stall == 0) o then 1 else 0

-- The queue has the transfers that wait, once each; the other list has the leaders of earlier attempts and
-- then the current transfers, once each: those that lead or follow, and those that were dropped. The block's
-- leader is the one transfer that leads, and none follows without it. `not_stalled` counts.
pub record IsBlock (w : World) (past current : List ℕ) : Type 0 where
  pub split : w.block.transfers ≡ past ++ current
  pub in_past : (a : ℕ) → 0 < count a past → past_leader (w.store a) ≡ true
  pub in_queue : (a : ℕ) → count a w.block.queued ≡ in_line (w.store a)
  pub in_current : (a : ℕ) → moves (w.store a) ≡ true → count a current ≡ 1
  pub once : (a : ℕ) → count a current ≤ 1
  pub known :
      (a : ℕ)
      → 0 < count a current
      → leads (w.store a) || follows (w.store a) || dropped (w.store a) ≡ true
  pub one_leader : (a : ℕ) → leads (w.store a) ≡ is_at w.block.leader a
  pub led : (a : ℕ) → follows (w.store a) ≡ true → is_some w.block.leader ≡ true
  pub counted :
      w.block.not_stalled
      ≡ tally (λ a. eager (w.store a)) w.block.queued + tally (λ a. eager (w.store a)) current
  pub fits : w.block.not_stalled < 2 ^ 32
  pub new : (a : ℕ) → on (λ t. true) (w.store a) ≡ true → a < w.fresh
