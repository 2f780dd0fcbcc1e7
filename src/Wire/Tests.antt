-- ===== src/Wire/Tests.antt =====
-- A pipe kept as a list of bytes, and runs of the frame functions on it.

use crosshub.Prelude.{
  ◌↔◌, ◌%◌, ◌^◌, ◌-◌, ℕ, ◌+◌, ◌<◌, ◌≡◌, refl, ap, ◌∙◌, true, [], ◌∷◌, ◌++◌, Option, none, some, Run,
  ok, err, Bytes, length, length-append, take, drop, take-append, drop-append, leb, ◌==◌,
  if◌then◌else◌, arith,
}
use crosshub.Wire.Stream.{Rlp, IsRlp, ReadError, eof, unexpected, Conn, IsPipe}
use crosshub.Wire.Frame.{
  Msg, reading, overflow, max_uint24, closed, head_buf, put_int24, new_msg, write_msg, write_parts,
  read_msg, handle_new_stream,
}
use crosshub.Wire.Roundtrip.{frame, write_msgs, messages_delivered}
use crosshub.Wire.Faults.{write_msg-overflow, read_msg-zero_size}

-- One byte below 128, and a prefix byte above.
rlp_encode : ℕ → Bytes
rlp_encode c = if leb 128 c then 0x81 ∷ c ∷ [] else if c == 0 then 0x80 ∷ [] else c ∷ []

rlp_decode : Bytes → Option ℕ
rlp_decode (a ∷ []) = if a == 0x80 then some 0 else if leb a 127 then some a else none
rlp_decode (a ∷ b ∷ []) = if a == 0x81 then some b else none
rlp_decode _ = none

abbrev small_rlp : Rlp
small_rlp = record { encode_byte = rlp_encode; decode_byte = rlp_decode }

rlp_short : (c : ℕ) → c < 128 → length (rlp_encode c) ≡ 1
unfolding rlp_encode
rlp_short c h = ground arith

rlp_decodes : (c : ℕ) → c < 256 → rlp_decode (rlp_encode c) ≡ some c
unfolding rlp_encode rlp_decode
rlp_decodes c h = ground arith

small_rlp-IsRlp : IsRlp small_rlp
small_rlp-IsRlp = record { short = rlp_short; decodes = rlp_decodes }

pipe_read : Bytes → ℕ → Run ReadError (Bytes × Bytes)
pipe_read r n =
    if leb n (length r)
    then ok (take n r, drop n r)
    else if length r == 0
    then err eof
    else err unexpected

abbrev byte_pipe : Conn
byte_pipe = record {
  Writer = Bytes;
  Reader = Bytes;
  write = λ w b. some (w ++ b);
  read_full = pipe_read;
}

pipe_read-append : (b rest : Bytes) → pipe_read (b ++ rest) (length b) ≡ ok (b, rest)
unfolding pipe_read
pipe_read-append b rest = ground (
  arith,
  length-append b rest,
  take-append (length b) b rest refl,
  drop-append (length b) b rest refl,
)

pipe_read-eof : (n : ℕ) → 0 < n → pipe_read [] n ≡ err eof
unfolding pipe_read
pipe_read-eof n h = ground arith

pipe_read-short : (r : Bytes) (n : ℕ) → 0 < length r → length r < n → pipe_read r n ≡ err unexpected
unfolding pipe_read
pipe_read-short r n h l = ground arith

byte_pipe-IsPipe : IsPipe byte_pipe
byte_pipe-IsPipe = record {
  sent = λ w. w;
  pending = λ r. r;
  write-sent = λ w w' b e. cc;
  read_full-pending =
      λ r b rest e. (rest, ap (λ x. pipe_read x (length b)) e ∙ pipe_read-append b rest, refl);
  read_full-eof = λ r n e h. ap (λ x. pipe_read x n) e ∙ pipe_read-eof n h;
  read_full-short = pipe_read-short;
}

abbrev hello : Msg
hello = record { code = 3; size = 2; bytes = 7 ∷ 9 ∷ [] }

abbrev bye : Msg
bye = record { code = 4; size = 0; bytes = [] }

new_msg-hello : new_msg 3 (some (7 ∷ 9 ∷ [])) ≡ ok hello
unfolding new_msg
new_msg-hello = refl

abbrev written : Bytes
written = frame small_rlp hello ++ frame small_rlp bye

write_msgs-written : write_msgs small_rlp byte_pipe [] (hello ∷ bye ∷ []) ≡ ok written
unfolding write_msg write_parts rlp_encode head_buf put_int24
write_msgs-written = refl

messages_delivered_example :
    handle_new_stream small_rlp byte_pipe true 3 (some (λ n msg. n + msg.size)) written 0 ≡ closed 2
unfolding byte_pipe-IsPipe
messages_delivered_example =
    messages_delivered small_rlp byte_pipe small_rlp-IsRlp byte_pipe-IsPipe (λ n msg. n + msg.size)
      0 (hello ∷ bye ∷ []) [] written written (omega arith) refl write_msgs-written refl

write_msg-overflow_example :
    (write_msg small_rlp byte_pipe [] (record hello { size = 0xff_ffff }) ≡ err overflow)
    ↔ (max_uint24 < (0xff_ffff + 1) % 2 ^ 32)
write_msg-overflow_example =
    write_msg-overflow small_rlp byte_pipe small_rlp-IsRlp [] (record hello { size = 0xff_ffff })
      (omega arith)

-- A size that wraps is accepted.
wrapped_size :
    (write_msg small_rlp byte_pipe [] (record hello { size = 2 ^ 32 - 1 }) ≡ err overflow) → ⊥
wrapped_size h =
    let large =
      (write_msg-overflow small_rlp byte_pipe small_rlp-IsRlp []
          (record hello { size = 2 ^ 32 - 1 }) (omega arith)).0
        h in
    omega arith

read_msg-zero_size_example :
    read_msg small_rlp byte_pipe (head_buf 0 ++ (3 ∷ 1 ∷ 2 ∷ [])) ≡ err (reading unexpected)
unfolding rlp_decode head_buf byte_pipe-IsPipe
read_msg-zero_size_example =
    read_msg-zero_size small_rlp byte_pipe byte_pipe-IsPipe (head_buf 0 ++ (3 ∷ 1 ∷ 2 ∷ []))
      (3 ∷ []) (1 ∷ 2 ∷ []) 3 refl refl refl (omega arith) (omega arith)
