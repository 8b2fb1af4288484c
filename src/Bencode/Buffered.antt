-- ===== src/Bencode/Buffered.antt =====
-- The buffered writer emits the bytes of the encoder, however small its buffer is.
use libtorrent.Object.{
  Object, object, none, raw_bencode, raw_string, raw_list, raw_map, value, string, list, map,
  dict_key, Items, nil, cons, Entries, end, entry, flags,
}
use libtorrent.Common.{
  Bool-cases, List, Result, [], arith, inl, inr, length, length-append, ok, refl, sym, ℕ, ◌++◌, ◌<◌,
  ◌==◌, ◌∷◌, ◌≡◌, ◌≤◌, ap, drop, if◌then◌else◌, length-drop, length-take, min, negsuc, pos, suc,
  take, take-append-drop, zero, ℤ, ◌%◌, ◌+◌, ◌-◌, ◌>>=◌, ◌^◌, ◌∙◌, bit_and, err,
}
use mathlib.Core.List.{append_assoc, append-nil}
use libtorrent.Bencode.Writer.{
  ◌<++>◌, reusable, Output, flush, write_char, flush_to, write_loop, write_string, write_nat,
  write_value, write_obj_string, between, print_nat, print_value, print_string, digits, encode,
  write_object, encode_items, write_items, encode_entries, write_entries, skipped,
}

-- All that was written so far.
abbrev pub written : Output → List ℕ
written o = o.sent ++ o.pending

-- A buffer that can be used again, and holds no more than fits.
pub record IsOpen (o : Output) : Type 0 where
  pub reuses : o.sink ≡ reusable
  pub room : 0 < o.cap
  pub fits : length o.pending ≤ o.cap

-- A call that succeeds, leaves the buffer usable, and adds exactly `bytes`.
pub record Emits (o : Output) (r : Result Output) (bytes : List ℕ) : Type 0 where
  pub result : Output
  pub done : r ≡ ok result
  pub still_open : IsOpen result
  pub adds : written result ≡ written o ++ bytes

flush_lem :
    (o : Output)
    → o.sink ≡ reusable
    → flush o ≡ ok (record o { pending = []; sent = o.sent ++ o.pending })
unfolding flush flush_to
flush_lem o h = rw (h, flush_to) refl

write_char-Emits : (o : Output) (c : ℕ) → IsOpen o → Emits o (write_char o c) (c ∷ [])
unfolding write_char
write_char-Emits o c h = elim (Bool-cases (length o.pending == o.cap)) [
  | inl full ↦ record {
    result = record o { pending = c ∷ []; sent = o.sent ++ o.pending };
    done = rw (full, flush_lem o h.reuses) (ground (arith, h.room));
    still_open = record { reuses = h.reuses; room = h.room; fits = omega (arith, h.room) };
    adds = refl;
  }
  | inr part ↦ record {
    result = record o { pending = o.pending ++ (c ∷ []) };
    done = rw part refl;
    still_open = record {
      reuses = h.reuses;
      room = h.room;
      fits = ground (arith, h.fits, length-append o.pending (c ∷ []));
    };
    adds = sym (append_assoc o.sent o.pending (c ∷ []));
  }
]

-- Two calls in a row.
Emits-bind :
    (o : Output) (m : Result Output) (k : Output → Result Output) (bs cs : List ℕ)
    → Emits o m bs
    → ((o1 : Output) → IsOpen o1 → Emits o1 (k o1) cs)
    → Emits o (m >>= k) (bs ++ cs)
Emits-bind o m k bs cs e f =
    let g = f e.result e.still_open in
    record {
      result = g.result;
      done = rw e.done g.done;
      still_open = g.still_open;
      adds = g.adds ∙ ap (λ t. t ++ cs) e.adds ∙ append_assoc (written o) bs cs;
    }

fullness : Output → ℕ
fullness o = if length o.pending == o.cap then 1 else 0

-- What one round of the string loop puts into the buffer.
abbrev chunk : Output → List ℕ → ℕ
chunk o s = min (length s) (o.cap - length o.pending)

abbrev filled : Output → List ℕ → Output
filled o s = record o { pending = o.pending ++ take (chunk o s) s }

length-filled :
    (o : Output) (s : List ℕ) → length (filled o s).pending ≡ length o.pending + chunk o s
length-filled o s =
    omega (arith, length-append o.pending (take (chunk o s) s), length-take (chunk o s) s)

written-rest : (before s : List ℕ) (n : ℕ) → (before ++ take n s) ++ drop n s ≡ before ++ s
written-rest before s n =
    append_assoc before (take n s) (drop n s) ∙ ap (◌++◌ before) (take-append-drop n s)

write_loop-Emits :
    (fuel : ℕ) (o : Output) (s : List ℕ)
    → IsOpen o
    → length s + fullness o ≤ fuel
    → Emits o (write_loop fuel o s) s
unfolding write_loop fullness
write_loop-Emits fuel o [] h le = record {
  result = o;
  done = refl;
  still_open = h;
  adds = sym (append-nil (written o));
}
write_loop-Emits zero o (c ∷ cs) h le = absurd (omega arith)
write_loop-Emits (suc fuel) o (c ∷ cs) h le =
    elim (Bool-cases (length (filled o (c ∷ cs)).pending == o.cap)) [
      | inl full ↦
          let emptied : Output = record o {
            pending = [];
            sent = o.sent ++ (filled o (c ∷ cs)).pending;
          } in
          let fresh : IsOpen emptied = record {
            reuses = h.reuses;
            room = h.room;
            fits = omega arith;
          } in
          let rest =
            write_loop-Emits fuel emptied (drop (chunk o (c ∷ cs)) (c ∷ cs)) fresh
              (ground (arith, h.room, h.fits, length-drop (chunk o (c ∷ cs)) (c ∷ cs))) in
          record {
            result = rest.result;
            done =
                rw (full, flush_lem (filled o (c ∷ cs)) h.reuses)
                  (ground (arith, h.room, rest.done));
            still_open = rest.still_open;
            adds =
                rest.adds
                ∙ ap (λ t. t ++ drop (chunk o (c ∷ cs)) (c ∷ cs))
                    (append-nil _
                      ∙ sym (append_assoc o.sent o.pending (take (chunk o (c ∷ cs)) (c ∷ cs))))
                ∙ written-rest (written o) (c ∷ cs) (chunk o (c ∷ cs));
          }
      | inr part ↦
          let roomy : IsOpen (filled o (c ∷ cs)) = record {
            reuses = h.reuses;
            room = h.room;
            fits = omega (arith, h.fits, length-filled o (c ∷ cs));
          } in
          let rest =
            write_loop-Emits fuel (filled o (c ∷ cs)) (drop (chunk o (c ∷ cs)) (c ∷ cs)) roomy (
              ground (
                arith,
                h.fits,
                length-filled o (c ∷ cs),
                length-drop (chunk o (c ∷ cs)) (c ∷ cs),
              )) in
          record {
            result = rest.result;
            done = rw part rest.done;
            still_open = rest.still_open;
            adds =
                rest.adds
                ∙ ap (λ t. t ++ drop (chunk o (c ∷ cs)) (c ∷ cs))
                    (sym (append_assoc o.sent o.pending (take (chunk o (c ∷ cs)) (c ∷ cs))))
                ∙ written-rest (written o) (c ∷ cs) (chunk o (c ∷ cs));
          }
    ]

write_string-Emits : (o : Output) (s : List ℕ) → IsOpen o → Emits o (write_string o s) s
unfolding write_string
write_string-Emits o s h = write_loop-Emits (length s + 1) o s h (unfold fullness in ground arith)

write_nat-Emits : (o : Output) (v : ℕ) → IsOpen o → Emits o (write_nat o v) (print_nat v)
unfolding write_nat print_nat
write_nat-Emits o v h = elim (Bool-cases (v == 0)) [
  | inl e ↦ rw e (write_char-Emits o b'0' h)
  | inr e ↦ rw e (write_string-Emits o (digits 20 v []) h)
]

write_value-Emits : (o : Output) (v : ℤ) → IsOpen o → Emits o (write_value o v) (print_value v)
unfolding write_value print_value
write_value-Emits o (pos n) h = write_nat-Emits o n h
write_value-Emits o (negsuc n) h =
    Emits-bind o (write_char o b'-') (λ o1. write_nat o1 (suc n)) (b'-' ∷ []) (print_nat (suc n))
      (write_char-Emits o b'-' h) (λ o1. write_nat-Emits o1 (suc n))

write_obj_string-Emits :
    (o : Output) (s : List ℕ) → IsOpen o → Emits o (write_obj_string o s) (print_string s)
unfolding write_obj_string print_string
write_obj_string-Emits o s h =
    Emits-bind o _ _ (print_nat (length s % 2 ^ 32)) (b':' ∷ take (length s % 2 ^ 32) s)
      (write_nat-Emits o (length s % 2 ^ 32) h)
      (λ o1 h1.
        Emits-bind o1 _ _ (b':' ∷ []) (take (length s % 2 ^ 32) s) (write_char-Emits o1 b':' h1)
          (λ o2. write_string-Emits o2 (take (length s % 2 ^ 32) s)))

between-Emits :
    (o : Output) (c : ℕ) (s : List ℕ) → IsOpen o → Emits o (between o c s) (c ∷ (s ++ b'e' ∷ []))
unfolding between
between-Emits o c s h =
    Emits-bind o _ _ (c ∷ []) (s ++ b'e' ∷ []) (write_char-Emits o c h) (λ o1 h1.
      Emits-bind o1 _ _ s (b'e' ∷ []) (write_string-Emits o1 s h1) (λ o2. write_char-Emits o2 b'e'))

-- The writer does what the encoder says: it emits its bytes, or fails with its error.
abbrev pub Agrees : Output → Result (List ℕ) → Result Output → Type 0
Agrees o (ok bytes) w = Emits o w bytes
Agrees o (err e) w = w ≡ err e

Agrees-bind :
    (o : Output) (r r' : Result (List ℕ)) (m : Result Output) (k : Output → Result Output)
    → Agrees o r m
    → ((o1 : Output) → IsOpen o1 → Agrees o1 r' (k o1))
    → Agrees o (do h ← r; h <++> r') (m >>= k)
Agrees-bind o (ok h) (ok ys) m k a f = Emits-bind o m k h ys a f
Agrees-bind o (ok h) (err e) m k a f = rw a.done (f a.result a.still_open)
Agrees-bind o (err e) r' m k a f = rw a

-- One entry: the key, the value and the entries after it.
entry_round :
    (o : Output) (key : List ℕ) (r r' : Result (List ℕ)) (m : Result Output)
    (k k' : Output → Result Output)
    → Emits o m key
    → ((o1 : Output) → IsOpen o1 → Agrees o1 r (k o1))
    → ((o1 : Output) → IsOpen o1 → Agrees o1 r' (k' o1))
    → Agrees o (do h ← r; (key ++ h) <++> r') (do o1 ← m; o2 ← k o1; k' o2)
entry_round o key (ok h) (ok ys) m k k' a f g = rw (append_assoc key h ys) (
    Emits-bind o m (λ o1. k o1 >>= k') key (h ++ ys) a
      (λ o1 h1. Emits-bind o1 (k o1) k' h ys (f o1 h1) g))
entry_round o key (ok h) (err e) m k k' a f g =
    let b = f a.result a.still_open in rw (a.done, b.done) (g b.result b.still_open)
entry_round o key (err e) r' m k k' a f g = rw (a.done, f a.result a.still_open) refl

mutual
  unfolding encode write_object

  write_object-Agrees :
      (mask : ℕ) (x : Object) (o : Output)
      → IsOpen o
      → Agrees o (encode mask x) (write_object mask x o)
  write_object-Agrees mask (object f none) o h = record {
    result = o;
    done = refl;
    still_open = h;
    adds = sym (append-nil (written o));
  }
  write_object-Agrees mask (object f (raw_bencode s)) o h = write_string-Emits o s h
  write_object-Agrees mask (object f (raw_string s)) o h = write_obj_string-Emits o s h
  write_object-Agrees mask (object f (raw_list s)) o h = between-Emits o b'l' s h
  write_object-Agrees mask (object f (raw_map s)) o h = between-Emits o b'd' s h
  write_object-Agrees mask (object f (value n)) o h =
      Emits-bind o _ _ (b'i' ∷ []) (print_value n ++ b'e' ∷ []) (write_char-Emits o b'i' h)
        (λ o1 h1.
          Emits-bind o1 _ _ (print_value n) (b'e' ∷ []) (write_value-Emits o1 n h1)
            (λ o2. write_char-Emits o2 b'e'))
  write_object-Agrees mask (object f (string s)) o h = write_obj_string-Emits o s h
  write_object-Agrees mask (object f (list xs)) o h =
      Agrees-bind o (ok (b'l' ∷ [])) (encode_items mask xs) (write_char o b'l')
        (write_items mask xs) (write_char-Emits o b'l' h) (λ o1. write_items-Agrees mask xs o1)
  write_object-Agrees mask (object f (map es)) o h =
      Agrees-bind o (ok (b'd' ∷ [])) (encode_entries mask es) (write_char o b'd')
        (write_entries mask es) (write_char-Emits o b'd' h) (λ o1. write_entries-Agrees mask es o1)
  write_object-Agrees mask (object f dict_key) o h = refl

  write_items-Agrees :
      (mask : ℕ) (xs : Items) (o : Output)
      → IsOpen o
      → Agrees o (encode_items mask xs) (write_items mask xs o)
  write_items-Agrees mask nil o h = write_char-Emits o b'e' h
  write_items-Agrees mask (cons x xs) o h = elim (Bool-cases (skipped mask x)) [
    | inl e ↦ rw e (write_items-Agrees mask xs o h)
    | inr e ↦ rw e (
        Agrees-bind o (encode mask x) (encode_items mask xs) (write_object mask x o)
          (write_items mask xs) (write_object-Agrees mask x o h)
          (λ o1. write_items-Agrees mask xs o1))
  ]

  write_entries-Agrees :
      (mask : ℕ) (es : Entries) (o : Output)
      → IsOpen o
      → Agrees o (encode_entries mask es) (write_entries mask es o)
  write_entries-Agrees mask end o h = write_char-Emits o b'e' h
  write_entries-Agrees mask (entry k x es) o h = elim (Bool-cases (skipped mask x)) [
    | inl e ↦ rw e (write_entries-Agrees mask es o h)
    | inr e ↦ rw e (
        entry_round o (print_string k) (encode mask x) (encode_entries mask es)
          (write_obj_string o k) (write_object mask x) (write_entries mask es)
          (write_obj_string-Emits o k h) (λ o1. write_object-Agrees mask x o1)
          (λ o1. write_entries-Agrees mask es o1))
  ]

-- The bytes that reach the write function for a whole object: none where the mask skips it.
abbrev pub skipped_encoding : ℕ → Object → Result (List ℕ)
skipped_encoding mask x = if bit_and (flags x) mask == 0 then encode mask x else ok []
