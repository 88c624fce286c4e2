-- ===== src/Protocol/Binary/RoundTrip.antt =====
-- What is written is read back.
use paperboat_helper.Base.{
  ℕ, add64, suc, ◌+◌, ◌-◌, ◌≡◌, ◌<◌, ◌≤◌, refl, sym, ap, ◌∙◌, true, some, [], ◌∷◌, ◌++◌, Bytes,
  length, take, drop, length-append, arith, ok, u64_mod,
}
use mathlib.Core.List.{append_assoc}
use paperboat_helper.Protocol.Binary.{
  BinaryFrame, put_uint, get_uint, read_full, read_body, read_sized, read_binary_frame,
  write_binary_frame, wire, supported, end_sequence,
}
use paperboat_helper.Protocol.Binary.BigEndian.{length-put_uint, get_uint-put_uint}

take-append : (xs ys : Bytes) → take (length xs) (xs ++ ys) ≡ xs
take-append [] ys = refl
take-append (x ∷ xs) ys = ap (◌∷◌ x) (take-append xs ys)

drop-append : (xs ys : Bytes) → drop (length xs) (xs ++ ys) ≡ ys
drop-append [] ys = refl
drop-append (x ∷ xs) ys = drop-append xs ys

read_full-append : (n : ℕ) (xs ys : Bytes) → length xs ≡ n → read_full n (xs ++ ys) ≡ some (xs, ys)
unfolding read_full
read_full-append n xs ys h =
    let size = length-append xs ys in
    let t : take n (xs ++ ys) ≡ xs = rw (sym h) (take-append xs ys) in
    let d : drop n (xs ++ ys) ≡ ys = rw (sym h) (drop-append xs ys) in ground (arith, size, t, d)

-- What a frame that is written satisfies.
record Writes (f : BinaryFrame) (bytes : Bytes) : Type 0 where
  known : supported f.channel ≡ true
  small : length f.data_bytes ≤ 262135
  ended_at : (e : ℕ) × (end_sequence f ≡ ok e)
  bytes_are : bytes ≡ wire f

write_tests : (f : BinaryFrame) (bytes : Bytes) → write_binary_frame f ≡ ok bytes → Writes f bytes
unfolding write_binary_frame end_sequence
write_tests f bytes h = record {
  known = ground arith;
  small = ground arith;
  ended_at = (add64 f.start_sequence (length f.data_bytes), ground arith);
  bytes_are = ground arith;
}

read_body_lem :
    (f : BinaryFrame) (rest bytes : Bytes)
    → Writes f bytes
    → f.start_sequence < u64_mod
    → read_body
        (9 + length f.data_bytes)
        (f.channel ∷ put_uint 8 f.start_sequence)
        (f.data_bytes ++ rest)
      ≡ ok (f, rest)
unfolding read_body
read_body_lem f rest bytes w word =
    let number = get_uint-put_uint 8 f.start_sequence word in
    let width : 9 + length f.data_bytes - 9 ≡ length f.data_bytes = omega arith in
    let content = read_full-append (length f.data_bytes) f.data_bytes rest refl in
    rw (w.known, width, content, number, w.ended_at.1) refl

read_prefixed :
    (stream prefix rest : Bytes)
    → read_full 4 stream ≡ some (prefix, rest)
    → read_binary_frame stream ≡ read_sized (get_uint 0 prefix) rest
unfolding read_binary_frame
read_prefixed stream prefix rest h = ground (arith, h)

read_headed :
    (n : ℕ) (stream header rest : Bytes)
    → 9 ≤ n
    → n ≤ 262144
    → read_full 9 stream ≡ some (header, rest)
    → read_sized n stream ≡ read_body n header rest
unfolding read_sized
read_headed n stream header rest lo hi h = ground (arith, h)

-- A frame that `WriteBinaryFrame` writes, whose start is a uint64, is what `ReadBinaryFrame` reads
-- from its bytes, whatever bytes follow, which it leaves.
pub read-write :
    (f : BinaryFrame) (bytes rest : Bytes)
    → write_binary_frame f ≡ ok bytes
    → f.start_sequence < u64_mod
    → read_binary_frame (bytes ++ rest) ≡ ok (f, rest)
read-write f bytes rest h word =
    let w = write_tests f bytes h in
    let n = 9 + length f.data_bytes in
    let header = f.channel ∷ put_uint 8 f.start_sequence in
    let split : bytes ++ rest ≡ put_uint 4 n ++ (header ++ (f.data_bytes ++ rest)) =
      ap (λ x. x ++ rest) w.bytes_are
      ∙ append_assoc (put_uint 4 n) (header ++ f.data_bytes) rest
      ∙ ap (◌++◌ (put_uint 4 n)) (append_assoc header f.data_bytes rest) in
    let prefix =
      read_full-append 4 (put_uint 4 n) (header ++ (f.data_bytes ++ rest)) (length-put_uint 4 n) in
    let size : get_uint 0 (put_uint 4 n) ≡ n = get_uint-put_uint 4 n (omega (arith, w.small)) in
    let head =
      read_full-append 9 header (f.data_bytes ++ rest)
        (ap suc (length-put_uint 8 f.start_sequence)) in
    ap read_binary_frame split
    ∙ read_prefixed (put_uint 4 n ++ (header ++ (f.data_bytes ++ rest))) (put_uint 4 n)
        (header ++ (f.data_bytes ++ rest)) prefix
    ∙ ap (λ x. read_sized x (header ++ (f.data_bytes ++ rest))) size
    ∙ read_headed n (header ++ (f.data_bytes ++ rest)) header (f.data_bytes ++ rest) (omega arith)
        (omega (arith, w.small)) head
    ∙ read_body_lem f rest bytes w word
