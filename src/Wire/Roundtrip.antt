-- ===== src/Wire/Roundtrip.antt =====
-- What is written by WriteMsg is what handleNewStream hands to the message handler.
use mathlib.Core.List.{foldl}
use crosshub.Prelude.{
  ℕ, zero, suc, ◌+◌, ◌-◌, ◌%◌, ◌^◌, ◌≤◌, ◌<◌, ◌≡◌, refl, sym, ap, ◌∙◌, true, false, List, [], ◌∷◌,
  ◌++◌, some, Run, ok, err, ◌>>=◌, or_else, >>=-ok, or_else-eq-ok, ok-injective, append-nil, subst,
  Bytes, length, ltb, arith, append_assoc,
}
use crosshub.Wire.Stream.{Rlp, IsRlp, eof, Conn, IsPipe}
use crosshub.Wire.Frame.{
  Msg, WireError, reading, writing, closed, max_uint24, put_int24, read_int24, head_buf,
  write_parts, write_msg, fill, read_msg, handle_loop, handle_new_stream,
}

-- A message as NewMsg makes it of at most 2^24 - 2 bytes, with a code below 128.
pub record IsFramed (msg : Msg) : Type 0 where
  pub code_short : msg.code < 128
  pub size_exact : msg.size ≡ length msg.bytes
  pub size_fits : msg.size < max_uint24

abbrev pub AllFramed : List Msg → Type 0
AllFramed [] = Unit {0}
AllFramed (msg ∷ msgs) = IsFramed msg × AllFramed msgs

-- The three bytes of a size below 2^24 read back as the size.
pub read-head : (v : ℕ) → v ≤ max_uint24 → read_int24 (head_buf v) ≡ ok v
unfolding head_buf put_int24 read_int24
read-head v h = ground arith

pub length-head_buf : (v : ℕ) → length (head_buf v) ≡ 32
unfolding head_buf put_int24
length-head_buf v = refl

module _ (rlp : Rlp) where
  abbrev pub frame : Msg → Bytes
  frame msg = head_buf (msg.size + 1) ++ (rlp.encode_byte msg.code ++ msg.bytes)

  abbrev pub frames : List Msg → Bytes
  frames [] = []
  frames (msg ∷ msgs) = frame msg ++ frames msgs

module _ (rlp : Rlp) (conn : Conn) where
  -- WriteMsg on a framed message passes its size check.
  write_msg-framed :
      (lawful : IsRlp rlp) (w : conn.Writer) (msg : Msg)
      → IsFramed msg
      → write_msg rlp conn w msg
        ≡ write_parts rlp conn w (head_buf (msg.size + 1)) (rlp.encode_byte msg.code) msg.bytes
  unfolding write_msg
  write_msg-framed lawful w msg f =
      let l = lawful.short msg.code f.code_short in
      let size : (length (rlp.encode_byte msg.code) % 2 ^ 32 + msg.size) % 2 ^ 32 ≡ msg.size + 1 =
        omega (arith, l, f.size_fits) in
      let small : ltb max_uint24 (msg.size + 1) ≡ false = ground (arith, f.size_fits) in
      rw (size, small)

  -- The steps of ReadMsg, given what each read returns.
  read_msg-steps :
      (r r1 r2 r3 : conn.Reader) (msg : Msg) (head code : Bytes)
      → fill rlp conn r 32 ≡ ok (head, r1)
      → read_int24 head ≡ ok (msg.size + 1)
      → fill rlp conn r1 1 ≡ ok (code, r2)
      → rlp.decode_byte code ≡ some msg.code
      → msg.size < max_uint24
      → fill rlp conn r2 ((msg.size + 1 + 2 ^ 32 - 1) % 2 ^ 32) ≡ ok (msg.bytes, r3)
      → read_msg rlp conn r ≡ ok (msg, r3)
  unfolding read_msg
  read_msg-steps r r1 r2 r3 msg head code g1 h g2 d s g3 =
      let same : (msg.size + 1 + 2 ^ 32 - 1) % 2 ^ 32 ≡ msg.size = omega (arith, s) in
      let g3' = subst (λ n. fill rlp conn r2 n ≡ ok (msg.bytes, r3)) same g3 in
      rw (g1, h, g2, d, same, g3')

module _ (rlp : Rlp) (conn : Conn) (pipe : IsPipe conn) where
  open conn use {Reader}
  open pipe use {pending}

  pub fill-pending :
      (r : Reader) (n : ℕ) (b rest : Bytes)
      → length b ≡ n
      → pending r ≡ b ++ rest
      → (r' : Reader) × (fill rlp conn r n ≡ ok (b, r')) × (pending r' ≡ rest)
  unfolding fill
  fill-pending r n b rest l e =
      let (r', got, left) = pipe.read_full-pending r b rest e in
      let at : conn.read_full r n ≡ ok (b, r') = ap (conn.read_full r) (sym l) ∙ got in
      (r', rw (at, fill), left)

-- Calls of WriteMsg, one after the other, up to the first error.
module _ (rlp : Rlp) (conn : Conn) where
  abbrev pub write_msgs : conn.Writer → List Msg → Run WireError conn.Writer
  write_msgs w [] = ok w
  write_msgs w (msg ∷ msgs) = do w' ← write_msg rlp conn w msg; write_msgs w' msgs

module _ (rlp : Rlp) (conn : Conn) (lawful : IsRlp rlp) (pipe : IsPipe conn) where
  open conn use {Writer, Reader}
  open pipe use {sent, pending}

  write_parts-sent :
      (w w' : Writer) (a b c : Bytes)
      → write_parts rlp conn w a b c ≡ ok w'
      → sent w' ≡ sent w ++ (a ++ (b ++ c))
  unfolding write_parts
  write_parts-sent w w' a b c e = >>=-ok (or_else (conn.write w a) (err writing)) _ e λ w1 e1 k1.
      >>=-ok (or_else (conn.write w1 b) (err writing)) _ k1 λ w2 e2 k2.
        let s1 = pipe.write-sent w w1 a (or_else-eq-ok _ _ e1) in
        let s2 = pipe.write-sent w1 w2 b (or_else-eq-ok _ _ e2) in
        let s3 = pipe.write-sent w2 w' c (or_else-eq-ok _ _ k2) in
        rw (s3, s2, s1) (simp append_assoc)

  -- A successful write appends exactly the frame.
  pub write_msg-sent :
      (w w' : Writer) (msg : Msg)
      → IsFramed msg
      → write_msg rlp conn w msg ≡ ok w'
      → sent w' ≡ sent w ++ frame rlp msg
  write_msg-sent w w' msg f e =
      write_parts-sent w w' _ _ _ (sym (write_msg-framed rlp conn lawful w msg f) ∙ e)

  pub read_msg-frame :
      (r : Reader) (msg : Msg) (rest : Bytes)
      → IsFramed msg
      → pending r ≡ frame rlp msg ++ rest
      → (r' : Reader) × (read_msg rlp conn r ≡ ok (msg, r')) × (pending r' ≡ rest)
  read_msg-frame r msg rest f e =
      let head = head_buf (msg.size + 1) in
      let code = rlp.encode_byte msg.code in
      let (r1, g1, p1) =
        fill-pending rlp conn pipe r 32 head (code ++ (msg.bytes ++ rest))
          (length-head_buf (msg.size + 1)) (e ∙ simp append_assoc) in
      let (r2, g2, p2) =
        fill-pending rlp conn pipe r1 1 code (msg.bytes ++ rest)
          (lawful.short msg.code f.code_short) p1 in
      let (r3, g3, p3) =
        fill-pending rlp conn pipe r2 ((msg.size + 1 + 2 ^ 32 - 1) % 2 ^ 32) msg.bytes rest
          (omega (arith, f.size_exact, f.size_fits)) p2 in
      (
        r3,
        read_msg-steps rlp conn r r1 r2 r3 msg head code g1 (read-head _ (omega arith)) g2
            (lawful.decodes msg.code (omega (arith, f.code_short))) f.size_fits g3,
        p3,
      )

  pub read_msg-end : (r : Reader) → pending r ≡ [] → read_msg rlp conn r ≡ err (reading eof)
  unfolding read_msg fill
  read_msg-end r e = rw (pipe.read_full-eof r 32 e (omega arith), read_msg, fill)

  -- `n` rounds of the loop of handleNewStream: every message, in order, then the end of the stream.
  handle_loop-frames {ℓ} :
      {H : Type ℓ} (f : H → Msg → H) (fuel : ℕ) (msgs : List Msg) (r : Reader) (h : H)
      → AllFramed msgs
      → length msgs < fuel
      → pending r ≡ frames rlp msgs
      → handle_loop rlp conn fuel (some f) r h ≡ closed (foldl f h msgs)
  unfolding handle_loop
  handle_loop-frames f zero msgs r h v n e = absurd (omega arith)
  handle_loop-frames f (suc fuel) [] r h v n e = rw (read_msg-end r e, handle_loop)
  handle_loop-frames f (suc fuel) (msg ∷ msgs) r h v n e =
      let (r', got, left) = read_msg-frame r msg (frames rlp msgs) v.0 e in
      rw (got, handle_loop) (handle_loop-frames f fuel msgs r' (f h msg) v.1 (omega arith) left)

  write_msgs-sent :
      (w w' : Writer) (msgs : List Msg)
      → AllFramed msgs
      → write_msgs rlp conn w msgs ≡ ok w'
      → sent w' ≡ sent w ++ frames rlp msgs
  write_msgs-sent w w' [] v e = rw append-nil (ap sent (sym (ok-injective e)))
  write_msgs-sent w w' (msg ∷ msgs) v e =
      >>=-ok (write_msg rlp conn w msg) (λ w1. write_msgs rlp conn w1 msgs) e
        λ w1 e1 k1.
          rw (write_msgs-sent w1 w' msgs v.1 k1, write_msg-sent w w1 msg v.0 e1) (simp append_assoc)

  -- Framed messages that WriteMsg wrote to a fresh stream, one after the other and without error, are
  -- handed to the message handler of the reading end in the same order, each once and unchanged, and
  -- the loop of handleNewStream then returns without a reset. One round per message and one more for
  -- the end of the stream are enough.
  pub messages_delivered {ℓ} :
      {H : Type ℓ} (f : H → Msg → H) (h : H) (msgs : List Msg) (w w' : Writer) (r : Reader)
      → AllFramed msgs
      → sent w ≡ []
      → write_msgs rlp conn w msgs ≡ ok w'
      → pending r ≡ sent w'
      → handle_new_stream rlp conn true (length msgs + 1) (some f) r h ≡ closed (foldl f h msgs)
  unfolding handle_new_stream
  messages_delivered f h msgs w w' r v fresh e p =
      handle_loop-frames f (length msgs + 1) msgs r h v (omega arith)
        (p ∙ write_msgs-sent w w' msgs v e ∙ ap (λ s. s ++ frames rlp msgs) fresh)
