-- ===== src/Wire/Faults.antt =====
-- What WriteMsg refuses, and what ReadMsg does with a header that announces no byte.
use crosshub.Prelude.{ℕ, ◌-◌, ◌+◌, ◌%◌, ◌↔◌, ◌^◌, ◌<◌, ◌≡◌, ◌++◌, some, err, Bytes, length, arith}
use crosshub.Wire.Stream.{Rlp, IsRlp, unexpected, Conn, IsPipe}
use crosshub.Wire.Frame.{
  Msg, reading, overflow, max_uint24, head_buf, write_parts, write_msg, fill, read_msg,
}
use crosshub.Wire.Roundtrip.{fill-pending, read-head, length-head_buf}

module _ (rlp : Rlp) (conn : Conn) (lawful : IsRlp rlp) where
  write_parts_ne_overflow :
      (w : conn.Writer) (head code payload : Bytes)
      → write_parts rlp conn w head code payload ≡ err overflow
      → ⊥
  unfolding write_parts
  write_parts_ne_overflow w head code payload h = ground arith

  -- A message whose code takes one byte is refused as too large exactly where its size and that byte, added in
  -- 32 bits, are more than three bytes can hold; so one of size 2^32 - 1 is not.
  pub write_msg-overflow :
      (w : conn.Writer) (msg : Msg)
      → msg.code < 128
      → (write_msg rlp conn w msg ≡ err overflow) ↔ (max_uint24 < (msg.size + 1) % 2 ^ 32)
  unfolding write_msg
  write_msg-overflow w msg c = (
    λ h. ground (
      arith,
      lawful.short msg.code c,
      write_parts_ne_overflow w
          (head_buf ((length (rlp.encode_byte msg.code) % 2 ^ 32 + msg.size) % 2 ^ 32))
          (rlp.encode_byte msg.code) msg.bytes,
    ),
    λ h. ground (arith, lawful.short msg.code c),
  )

module _ (rlp : Rlp) (conn : Conn) (pipe : IsPipe conn) where
  open pipe use {pending}

  -- A frame whose header announces 0 bytes makes ReadMsg wait for 2^32 - 1 bytes of payload: the size
  -- without the code wraps. Whatever shorter input follows, whole frames included, is lost with it.
  pub read_msg-zero_size :
      (r : conn.Reader) (code rest : Bytes) (c : ℕ)
      → length code ≡ 1
      → rlp.decode_byte code ≡ some c
      → pending r ≡ head_buf 0 ++ (code ++ rest)
      → 0 < length rest
      → length rest < 2 ^ 32 - 1
      → read_msg rlp conn r ≡ err (reading unexpected)
  unfolding read_msg fill
  read_msg-zero_size r code rest c l d e some_left few =
      let (r1, g1, p1) =
        fill-pending rlp conn pipe r 32 (head_buf 0) (code ++ rest) (length-head_buf 0) e in
      let (r2, g2, p2) = fill-pending rlp conn pipe r1 1 code rest l p1 in
      let short = pipe.read_full-short r2 (2 ^ 32 - 1) (rw p2 some_left) (rw p2 few) in
      rw (g1, read_msg, read-head 0 (omega arith), g2, d, short, fill)
