-- ===== src/Protocol/Binary.antt =====
-- internal/protocol/binary.go: the frames that carry terminal output and input.
--
-- A reader is the list of the bytes that it still has, behind which it ends. A writer takes every
-- byte, so that `writeAll` is one append, as Binary/Writing shows of one that fails at nothing.
pub mod BigEndian
pub mod RoundTrip
pub mod Writing
use paperboat_helper.Base.{
  ℕ, zero, suc, ◌+◌, ◌-◌, ◌*◌, ◌/◌, ◌%◌, Bool, true, false, not, ◌&&◌, ◌||◌, Option, none, some,
  List, [], ◌∷◌, ◌++◌, Bytes, length, take, drop, ltb, leb, ◌==◌, if◌then◌else◌, Result, ok, err,
  max_u64, add64,
}

-- The codes of the errors; `ended` is the error of the reader itself.
pub data Error : Type 0 where
  invalid_frame oversized unsupported_channel ended : Error

abbrev pub max_binary_frame : ℕ
max_binary_frame = 262144

abbrev pub binary_header_len : ℕ
binary_header_len = 9

pub record BinaryFrame : Type 0 where
  pub channel : ℕ
  pub start_sequence : ℕ
  pub data_bytes : Bytes

unfoldable pub end_sequence : BinaryFrame → Result Error ℕ
end_sequence f =
    if ltb (max_u64 - f.start_sequence) (length f.data_bytes)
    then err invalid_frame
    else ok (add64 f.start_sequence (length f.data_bytes))

-- `binary.BigEndian.PutUint`, of `k` bytes.
unfoldable pub put_uint : ℕ → ℕ → Bytes
put_uint zero n = []
put_uint (suc k) n = put_uint k (n / 256) ++ n % 256 ∷ []

-- `binary.BigEndian.Uint`, behind what was read before.
unfoldable pub get_uint : ℕ → Bytes → ℕ
get_uint acc [] = acc
get_uint acc (b ∷ bs) = get_uint (acc * 256 + b) bs

-- `io.ReadFull` of `n` bytes: what it read, and the rest.
unfoldable pub read_full : ℕ → Bytes → Option (Bytes × Bytes)
read_full n stream = if ltb (length stream) n then none else some (take n stream, drop n stream)

-- Stdout, Stderr and TerminalInput.
abbrev pub supported : ℕ → Bool
supported channel = channel == 1 || channel == 2 || channel == 3

-- The error of `EndSequence`, or the frame.
abbrev pub with_end : BinaryFrame → Bytes → Result Error ℕ → Result Error (BinaryFrame × Bytes)
with_end f rest (err e) = err e
with_end f rest (ok _) = ok (f, rest)

-- `ReadBinaryFrame` behind its header.
unfoldable pub read_body : ℕ → Bytes → Bytes → Result Error (BinaryFrame × Bytes)
read_body n [] stream = err invalid_frame
read_body n (channel ∷ sequence) stream =
    if not (supported channel)
    then err unsupported_channel
    else elim (read_full (n - binary_header_len) stream) [
      | none ↦ err invalid_frame
      | some (content, rest) ↦
          let f : BinaryFrame = record {
            channel = channel;
            start_sequence = get_uint 0 sequence;
            data_bytes = content;
          } in
          with_end f rest (end_sequence f)
    ]

-- `ReadBinaryFrame` behind its prefix.
unfoldable pub read_sized : ℕ → Bytes → Result Error (BinaryFrame × Bytes)
unfolding read_body
read_sized n stream =
    if ltb n binary_header_len
    then err invalid_frame
    else if ltb max_binary_frame n
    then err oversized
    else elim (read_full binary_header_len stream) [
      | none ↦ err invalid_frame
      | some (header, rest) ↦ read_body n header rest
    ]

unfoldable pub read_binary_frame : Bytes → Result Error (BinaryFrame × Bytes)
unfolding read_sized
read_binary_frame stream = elim (read_full 4 stream) [
  | none ↦ err ended
  | some (prefix, rest) ↦ read_sized (get_uint 0 prefix) rest
]

-- The bytes of a frame that `WriteBinaryFrame` writes.
abbrev pub wire : BinaryFrame → Bytes
wire f =
    put_uint 4 (binary_header_len + length f.data_bytes)
    ++ ((f.channel ∷ put_uint 8 f.start_sequence) ++ f.data_bytes)

abbrev pub written : BinaryFrame → Result Error ℕ → Result Error Bytes
written f (err e) = err e
written f (ok _) = ok (wire f)

unfoldable pub write_binary_frame : BinaryFrame → Result Error Bytes
write_binary_frame f =
    if not (supported f.channel)
    then err unsupported_channel
    else if ltb (max_binary_frame - binary_header_len) (length f.data_bytes)
    then err oversized
    else written f (end_sequence f)
