-- ===== src/Wire/Stream.antt =====
-- What hubnet uses of its libraries: the RLP form of a message code, and the ends of a stream.
use crosshub.Prelude.{ℕ, ◌<◌, ◌≡◌, [], ◌++◌, Option, some, Run, ok, err, length, Bytes}

-- rlp.EncodeToBytes and rlp.DecodeBytes at a uint8; `none` is a decoding error.
pub record Rlp : Type 0 where
  pub encode_byte : ℕ → Bytes
  pub decode_byte : Bytes → Option ℕ

-- A byte below 128 is encoded in one byte, and every encoding can be decoded.
pub record IsRlp (rlp : Rlp) : Type 0 where
  pub short : (c : ℕ) → c < 128 → length (rlp.encode_byte c) ≡ 1
  pub decodes : (c : ℕ) → c < 256 → rlp.decode_byte (rlp.encode_byte c) ≡ some c

-- io.ReadFull fails with io.EOF if nothing was read, and with another error else.
pub data ReadError : Type 0 where
  eof unexpected : ReadError

-- The writing end (`none` is an error of Write) and the reading end (io.ReadFull).
pub record Conn : Type 1 where
  pub Writer : Type 0
  pub Reader : Type 0
  pub write : Writer → Bytes → Option Writer
  pub read_full : Reader → ℕ → Run ReadError (Bytes × Reader)

-- A reliable stream: bytes are taken in the order in which they were written.
pub record IsPipe (conn : Conn) : Type 0 where
  pub sent : conn.Writer → Bytes
  pub pending : conn.Reader → Bytes
  pub write-sent :
      (w w' : conn.Writer) (b : Bytes) → conn.write w b ≡ some w' → sent w' ≡ sent w ++ b
  pub read_full-pending :
      (r : conn.Reader) (b rest : Bytes)
      → pending r ≡ b ++ rest
      → (r' : conn.Reader) × (conn.read_full r (length b) ≡ ok (b, r')) × (pending r' ≡ rest)
  pub read_full-eof :
      (r : conn.Reader) (n : ℕ) → pending r ≡ [] → 0 < n → conn.read_full r n ≡ err eof
  pub read_full-short :
      (r : conn.Reader) (n : ℕ)
      → 0 < length (pending r)
      → length (pending r) < n
      → conn.read_full r n ≡ err unexpected
