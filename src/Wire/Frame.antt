-- ===== src/Wire/Frame.antt =====
-- hubnet/message.go, rlpx.go and handle.go. `ReceivedAt` of a message is neither set nor read.
use crosshub.Prelude.{
  ℕ, zero, suc, ◌+◌, ◌-◌, ◌*◌, ◌/◌, ◌%◌, ◌^◌, Bool, [], ◌∷◌, ◌++◌, Option, none, some, Run, ok, err,
  panic, ◌>>=◌, or_else, Bytes, length, replicate, ltb, if◌then◌else◌,
}
use crosshub.Wire.Stream.{Rlp, ReadError, eof, Conn}

pub record Msg : Type 0 where
  pub code : ℕ
  pub size : ℕ
  pub bytes : Bytes

pub data WireError : Type 0 where
  encoding overflow writing decoding : WireError
  reading : ReadError → WireError

-- How handleNewStream ends: it returns, it resets the stream and returns, or it panics.
pub data StreamEnd {ℓ} (H : Type ℓ) : Type ℓ where
  closed reset : H → StreamEnd H
  panicked out_of_fuel : StreamEnd H

abbrev pub max_uint24 : ℕ
max_uint24 = 0xff_ffff

-- NewMsg: `encoded` is the result of rlp.EncodeToBytes on the data.
unfoldable pub new_msg : ℕ → Option Bytes → Run WireError Msg
new_msg code encoded = do
  b ← or_else encoded (err encoding)
  ok (record { code = code; size = length b % 2 ^ 32; bytes = b })

-- The first three bytes of the buffer, most significant first.
unfoldable pub put_int24 : ℕ → Bytes
put_int24 v = (v / 65536 % 256) ∷ (v / 256 % 256) ∷ (v % 256) ∷ []

-- The three bytes fill disjoint bit ranges, so `|` is their sum. A shorter buffer panics.
unfoldable pub read_int24 : Bytes → Run WireError ℕ
read_int24 (b0 ∷ b1 ∷ b2 ∷ _) = ok (b2 + b1 * 256 + b0 * 65536)
read_int24 _ = panic

-- make([]byte, 32) with the size written into it.
unfoldable pub head_buf : ℕ → Bytes
head_buf v = put_int24 v ++ replicate 29 0

module _ (rlp : Rlp) (conn : Conn) where
  -- The three writes of WriteMsg, each with its early return.
  unfoldable pub write_parts : conn.Writer → Bytes → Bytes → Bytes → Run WireError conn.Writer
  write_parts w head ptype payload = do
    w1 ← or_else (conn.write w head) (err writing)
    w2 ← or_else (conn.write w1 ptype) (err writing)
    or_else (conn.write w2 payload) (err writing)

  unfoldable pub write_msg : conn.Writer → Msg → Run WireError conn.Writer
  write_msg w msg =
      let ptype = rlp.encode_byte msg.code in
      let fsize = (length ptype % 2 ^ 32 + msg.size) % 2 ^ 32 in
      if ltb max_uint24 fsize then err overflow else write_parts w (head_buf fsize) ptype msg.bytes

  -- io.ReadFull, with its error passed on.
  unfoldable pub fill : conn.Reader → ℕ → Run WireError (Bytes × conn.Reader)
  fill r n = elim (conn.read_full r n) [ ok x ↦ ok x | err e ↦ err (reading e) | panic ↦ panic ]

  -- `fsize - 1` wraps in a uint32.
  unfoldable pub read_msg : conn.Reader → Run WireError (Msg × conn.Reader)
  read_msg r = do
    (headbuf, r1) ← fill r 32
    fsize ← read_int24 headbuf
    (codebuf, r2) ← fill r1 1
    code ← or_else (rlp.decode_byte codebuf) (err decoding)
    let size = (fsize + 2 ^ 32 - 1) % 2 ^ 32
    (framebuf, r3) ← fill r2 size
    ok (record { code = code; size = size; bytes = framebuf }, r3)

  -- The loop of handleNewStream on fuel, with the state `h` that the message handler keeps.
  unfoldable pub handle_loop {ℓ} :
      {H : Type ℓ} → ℕ → Option (H → Msg → H) → conn.Reader → H → StreamEnd H
  handle_loop zero handle r h = out_of_fuel
  handle_loop (suc fuel) handle r h = elim (read_msg r) [
    | ok (msg, r') ↦ handle_loop fuel handle r' (elim handle [ none ↦ h | some f ↦ f h msg ])
    | err (reading eof) ↦ closed h
    | err _ ↦ reset h
    | panic ↦ panicked
  ]

  -- handleNewStream: nothing is read where the deadline cannot be set.
  unfoldable pub handle_new_stream {ℓ} :
      {H : Type ℓ} → Bool → ℕ → Option (H → Msg → H) → conn.Reader → H → StreamEnd H
  unfolding handle_loop
  handle_new_stream deadline_set fuel handle r h =
      if deadline_set then handle_loop fuel handle r h else closed h
