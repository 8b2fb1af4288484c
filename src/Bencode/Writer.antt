-- ===== src/Bencode/Writer.antt =====
-- The writer of src/torrent/object_stream.cc: first the bytes that it emits, then the buffered
-- machine `object_write_data_t` that hands them to a write function.
use libtorrent.Common.{
  Bool, List, Result, [], bencode_error, bit_and, drop, err, if◌then◌else◌, internal_error, length,
  min, negsuc, not, ok, out_of_fuel, pos, suc, take, zero, ℕ, ℤ, ◌%◌, ◌++◌, ◌+◌, ◌-◌, ◌/◌, ◌==◌,
  ◌>>=◌, ◌^◌, ◌||◌, ◌∷◌,
}
use libtorrent.Object.{
  Object, object, none, raw_bencode, raw_string, raw_list, raw_map, value, string, list, map,
  dict_key, Items, nil, cons, Entries, end, entry, is_empty, flags,
}

-- The digits of `value`, prepended to `tail`: `*--first = '0' + value % 10; value /= 10;`. Twenty
-- rounds are enough for 64 bits, and the source's array has twenty characters.
unfoldable pub digits : ℕ → ℕ → List ℕ → List ℕ
digits zero v tail = tail
digits (suc fuel) v tail =
    let more = digits fuel (v / 10) ((b'0' + v % 10) ∷ tail) in if v == 0 then tail else more

unfoldable pub print_nat : ℕ → List ℕ
print_nat v = if v == 0 then b'0' ∷ [] else digits 20 v []

-- `value = -static_cast<uint64_t>(src)` is the magnitude.
unfoldable pub print_value : ℤ → List ℕ
print_value (pos n) = print_nat n
print_value (negsuc n) = b'-' ∷ print_nat (suc n)

-- `object_write_bencode_c_obj_string`: the size is a uint32_t.
unfoldable pub print_string : List ℕ → List ℕ
print_string s = let n = length s % 2 ^ 32 in print_nat n ++ (b':' ∷ take n s)

unfoldable pub skipped : ℕ → Object → Bool
skipped mask o = is_empty o || not (bit_and (flags o) mask == 0)

infixr 6 ◌<++>◌
abbrev pub ◌<++>◌ : List ℕ → Result (List ℕ) → Result (List ℕ)
xs <++> r = do ys ← r; ok (xs ++ ys)

-- The bytes of `object_write_bencode_c_object`.
unfoldable mutual
  pub encode : ℕ → Object → Result (List ℕ)
  encode mask (object f none) = ok []
  encode mask (object f (raw_bencode s)) = ok s
  encode mask (object f (raw_string s)) = ok (print_string s)
  encode mask (object f (raw_list s)) = ok (b'l' ∷ (s ++ b'e' ∷ []))
  encode mask (object f (raw_map s)) = ok (b'd' ∷ (s ++ b'e' ∷ []))
  encode mask (object f (value n)) = ok (b'i' ∷ (print_value n ++ b'e' ∷ []))
  encode mask (object f (string s)) = ok (print_string s)
  encode mask (object f (list xs)) = (b'l' ∷ []) <++> encode_items mask xs
  encode mask (object f (map es)) = (b'd' ∷ []) <++> encode_entries mask es
  encode mask (object f dict_key) = err bencode_error

  pub encode_items : ℕ → Items → Result (List ℕ)
  encode_items mask nil = ok (b'e' ∷ [])
  encode_items mask (cons o xs) =
      let here = encode mask o in
      let later = encode_items mask xs in
      if skipped mask o then later else (do h ← here; h <++> later)

  pub encode_entries : ℕ → Entries → Result (List ℕ)
  encode_entries mask end = ok (b'e' ∷ [])
  encode_entries mask (entry k o es) =
      let here = encode mask o in
      let later = encode_entries mask es in
      if skipped mask o then later else (do h ← here; (print_string k ++ h) <++> later)

-- `object_write_to_stream` (on a stream that takes all), `_to_sha1` and `_to_size` give the buffer
-- back; `object_write_to_buffer` leaves an empty one, and throws where it was empty before.
pub data Sink : Type 0 where
  reusable fixed_buffer : Sink

-- `object_write_data_t`: `cap` is the size of the buffer, `pending` what stands before `pos`, and
-- `sent` what the write function was handed so far.
pub record Output : Type 0 where
  pub sink : Sink
  pub cap : ℕ
  pub pending : List ℕ
  pub sent : List ℕ

unfoldable pub flush_to : Sink → Output → Result Output
flush_to reusable o = ok (record o { pending = []; sent = o.sent ++ o.pending })
flush_to fixed_buffer o =
    if o.cap == 0
    then err internal_error
    else ok (record o { cap = 0; pending = []; sent = o.sent ++ o.pending })

-- `output->buffer = output->writeFunc(output->data, output->buffer); output->pos = buffer.first;`
unfoldable pub flush : Output → Result Output
flush o = flush_to o.sink o

-- The loop of `object_write_bencode_c_string`.
unfoldable pub write_loop : ℕ → Output → List ℕ → Result Output
write_loop fuel o [] = ok o
write_loop zero o (c ∷ cs) = err out_of_fuel
write_loop (suc fuel) o (c ∷ cs) =
    let len = min (length (c ∷ cs)) (o.cap - length o.pending) in
    let filled : Output = record o { pending = o.pending ++ take len (c ∷ cs) } in
    let rest = drop len (c ∷ cs) in
    let full = (do
      emptied ← flush filled
      let more = write_loop fuel emptied rest
      if emptied.cap == 0 then ok emptied else more) in
    let roomy = write_loop fuel filled rest in
    if length filled.pending == o.cap then full else roomy

-- A round takes a byte at least, but for a first one on a full buffer.
unfoldable pub write_string : Output → List ℕ → Result Output
write_string o s = write_loop (length s + 1) o s

-- `object_write_bencode_c_char`.
unfoldable pub write_char : Output → ℕ → Result Output
write_char o c =
    if length o.pending == o.cap
    then (do
      emptied ← flush o
      if emptied.cap == 0
          then ok emptied
          else ok (record emptied { pending = emptied.pending ++ (c ∷ []) }))
    else ok (record o { pending = o.pending ++ (c ∷ []) })

unfoldable pub write_nat : Output → ℕ → Result Output
write_nat o v = if v == 0 then write_char o b'0' else write_string o (digits 20 v [])

unfoldable pub write_value : Output → ℤ → Result Output
write_value o (pos n) = write_nat o n
write_value o (negsuc n) = do o1 ← write_char o b'-'; write_nat o1 (suc n)

unfoldable pub write_obj_string : Output → List ℕ → Result Output
write_obj_string o s = do
  let n = length s % 2 ^ 32
  o1 ← write_nat o n
  o2 ← write_char o1 b':'
  write_string o2 (take n s)

unfoldable pub between : Output → ℕ → List ℕ → Result Output
between o c s = do o1 ← write_char o c; o2 ← write_string o1 s; write_char o2 b'e'

-- `object_write_bencode_c_object`.
unfoldable mutual
  pub write_object : ℕ → Object → Output → Result Output
  write_object mask (object f none) o = ok o
  write_object mask (object f (raw_bencode s)) o = write_string o s
  write_object mask (object f (raw_string s)) o = write_obj_string o s
  write_object mask (object f (raw_list s)) o = between o b'l' s
  write_object mask (object f (raw_map s)) o = between o b'd' s
  write_object mask (object f (value n)) o = do
    o1 ← write_char o b'i'
    o2 ← write_value o1 n
    write_char o2 b'e'
  write_object mask (object f (string s)) o = write_obj_string o s
  write_object mask (object f (list xs)) o = do o1 ← write_char o b'l'; write_items mask xs o1
  write_object mask (object f (map es)) o = do o1 ← write_char o b'd'; write_entries mask es o1
  write_object mask (object f dict_key) o = err bencode_error

  pub write_items : ℕ → Items → Output → Result Output
  write_items mask nil o = write_char o b'e'
  write_items mask (cons x xs) o =
      let skip = write_items mask xs o in
      let both = (do o1 ← write_object mask x o; write_items mask xs o1) in
      if skipped mask x then skip else both

  pub write_entries : ℕ → Entries → Output → Result Output
  write_entries mask end o = write_char o b'e'
  write_entries mask (entry k x es) o =
      let skip = write_entries mask es o in
      let both = (do
        o1 ← write_obj_string o k
        o2 ← write_object mask x o1
        write_entries mask es o2) in
      if skipped mask x then skip else both

-- `object_write_bencode_c`: the last part of the buffer is handed over unless there is none.
unfoldable pub write_bencode : Sink → ℕ → ℕ → Object → Result Output
write_bencode sink cap mask obj = do
  let start : Output = record { sink = sink; cap = cap; pending = []; sent = [] }
  let run = write_object mask obj start
  o ← if bit_and (flags obj) mask == 0 then run else ok start
  if length o.pending == 0 then ok o else flush_to sink o
