-- ===== src/Scheduler/Counts.antt =====
-- Heaps of addresses as src/torrent/system/scheduler.cc has them, compared by how often each address is there.
use libtorrent.Common.Counting.{count, remove_one, count-remove_one}
use libtorrent.Common.{
  ℕ, ◌+◌, ◌<◌, List, [], ◌∷◌, Bool-cases, if◌then◌else◌, leb, ◌==◌, ◌≡◌, refl, sym, ◌∙◌, inl, inr,
  arith, length,
}

-- How many handles on a heap are due.
unfoldable pub due_count : (ℕ → ℕ) → ℕ → List ℕ → ℕ
due_count key now [] = 0
due_count key now (a ∷ hs) = (if leb (key a) now then 1 else 0) + due_count key now hs

-- Lists with the same counts have as many due handles.
due_count-remove_one :
    (key : ℕ → ℕ) (now a : ℕ) (hs : List ℕ)
    → 0 < count a hs
    → due_count key now hs
      ≡ (if leb (key a) now then 1 else 0) + due_count key now (remove_one a hs)
unfolding count remove_one due_count
due_count-remove_one key now a [] h = absurd (omega (arith, h))
due_count-remove_one key now a (c ∷ cs) h = elim (Bool-cases (a == c)) [
  | inl same ↦ let e : a ≡ c = ground (arith, same) in rw same (rw e refl)
  | inr other ↦
      rw other (omega (arith, due_count-remove_one key now a cs (ground (arith, h, other))))
]

pub due_count_same :
    (key : ℕ → ℕ) (now : ℕ) (hs gs : List ℕ)
    → ((b : ℕ) → count b hs ≡ count b gs)
    → due_count key now hs ≡ due_count key now gs
unfolding count due_count
due_count_same key now [] [] same = refl
due_count_same key now [] (g ∷ gs) same = absurd (ground (arith, same g))
due_count_same key now (h ∷ hs) gs same =
    let there : 0 < count h gs = ground (arith, same h) in
    let rest =
      due_count_same key now hs (remove_one h gs)
        (λ b. ground (arith, same b, count-remove_one h b gs there)) in
    omega (arith, rest, due_count-remove_one key now h gs there)

due_count_all : (hs : List ℕ) → due_count (λ a. 0) 0 hs ≡ length hs
unfolding due_count
due_count_all [] = refl
due_count_all (h ∷ hs) = omega (arith, due_count_all hs)

pub length_same : (hs gs : List ℕ) → ((b : ℕ) → count b hs ≡ count b gs) → length hs ≡ length gs
length_same hs gs same =
    sym (due_count_all hs) ∙ due_count_same (λ a. 0) 0 hs gs same ∙ due_count_all gs

pub due_count_keys :
    (key key' : ℕ → ℕ) (now : ℕ) (hs : List ℕ)
    → ((b : ℕ) → 0 < count b hs → key b ≡ key' b)
    → due_count key now hs ≡ due_count key' now hs
unfolding count due_count
due_count_keys key key' now [] same = refl
due_count_keys key key' now (h ∷ hs) same =
    let rest = due_count_keys key key' now hs (λ b there. same b (omega (arith, there))) in
    rw (same h (ground arith)) (omega (arith, rest))
