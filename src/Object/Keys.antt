-- ===== src/Object/Keys.antt =====
-- The order of keys, and maps as ordered lists of entries.
use libtorrent.Common.{List, Ordering, [], ap, arith, false, refl, true, ℕ, ◌∷◌, ◌≡◌}
use libtorrent.Object.{Object, Entries, end, entry, compare_keys, key_le, key_lt, insert_key}

pub key_lt-asymm : (a b : List ℕ) → key_lt a b ≡ true → key_le b a ≡ false
unfolding key_lt key_le compare_keys
key_lt-asymm [] [] h = cc
key_lt-asymm [] (y ∷ b) h = refl
key_lt-asymm (x ∷ a) [] h = cc
key_lt-asymm (x ∷ a) (y ∷ b) h = ground (arith, key_lt-asymm a b)

pub key_lt_trans : (a b c : List ℕ) → key_lt a b ≡ true → key_lt b c ≡ true → key_lt a c ≡ true
unfolding key_lt compare_keys
key_lt_trans [] [] c h k = cc
key_lt_trans [] (y ∷ b) [] h k = cc
key_lt_trans [] (y ∷ b) (z ∷ c) h k = refl
key_lt_trans (x ∷ a) [] c h k = cc
key_lt_trans (x ∷ a) (y ∷ b) [] h k = cc
key_lt_trans (x ∷ a) (y ∷ b) (z ∷ c) h k = ground (arith, key_lt_trans a b c)

pub compare_keys-gt : (a b : List ℕ) → key_lt a b ≡ true → compare_keys b a ≡ Ordering.gt
unfolding key_lt compare_keys
compare_keys-gt [] [] h = cc
compare_keys-gt [] (y ∷ b) h = refl
compare_keys-gt (x ∷ a) [] h = cc
compare_keys-gt (x ∷ a) (y ∷ b) h = ground (arith, compare_keys-gt a b)

pub compare_keys_self : (a : List ℕ) → compare_keys a a ≡ Ordering.eq
unfolding compare_keys
compare_keys_self [] = refl
compare_keys_self (x ∷ a) = ground (arith, compare_keys_self a)

pub compare_keys-eq : (a b : List ℕ) → compare_keys a b ≡ Ordering.eq → a ≡ b
unfolding compare_keys
compare_keys-eq [] [] h = refl
compare_keys-eq [] (y ∷ b) h = cc
compare_keys-eq (x ∷ a) [] h = cc
compare_keys-eq (x ∷ a) (y ∷ b) h = ground (arith, compare_keys-eq a b)

pub compare_keys-lt : (a b : List ℕ) → compare_keys a b ≡ Ordering.gt → key_lt b a ≡ true
unfolding key_lt compare_keys
compare_keys-lt [] [] h = cc
compare_keys-lt [] (y ∷ b) h = cc
compare_keys-lt (x ∷ a) [] h = refl
compare_keys-lt (x ∷ a) (y ∷ b) h = ground (arith, compare_keys-lt a b)

-- Every key is below `k`.
abbrev pub KeysBelow : List ℕ → Entries → Type 0
KeysBelow k end = Unit {0}
KeysBelow k (entry j o es) = (key_lt j k ≡ true) × KeysBelow k es

-- The keys ascend strictly, from above `low` on.
abbrev pub Ascending : List ℕ → Entries → Type 0
Ascending low end = Unit {0}
Ascending low (entry k o es) = (key_lt low k ≡ true) × Ascending k es

abbrev pub IsOrdered : Entries → Type 0
IsOrdered end = Unit {0}
IsOrdered (entry k o es) = Ascending k es

unfoldable pub append_entries : Entries → Entries → Entries
append_entries end fs = fs
append_entries (entry k o es) fs = entry k o (append_entries es fs)

-- A key above all others goes to the end.
pub insert_key-last :
    (k : List ℕ) (o : Object) (es : Entries)
    → KeysBelow k es
    → insert_key k o es ≡ append_entries es (entry k o end)
unfolding insert_key append_entries
insert_key-last k o end h = refl
insert_key-last k o (entry j p es) h =
    rw (compare_keys-gt j k h.0, insert_key) (ap (entry j p) (insert_key-last k o es h.1))

pub KeysBelow-next :
    (k l : List ℕ) (o : Object) (es : Entries)
    → key_lt k l ≡ true
    → KeysBelow k es
    → KeysBelow l (append_entries es (entry k o end))
unfolding append_entries
KeysBelow-next k l o end h b = (h, tt)
KeysBelow-next k l o (entry j p es) h b = (key_lt_trans j k l b.0 h, KeysBelow-next k l o es h b.1)

pub append_entries_assoc :
    (es fs gs : Entries)
    → append_entries (append_entries es fs) gs ≡ append_entries es (append_entries fs gs)
unfolding append_entries
append_entries_assoc end fs gs = refl
append_entries_assoc (entry k o es) fs gs = ap (entry k o) (append_entries_assoc es fs gs)
