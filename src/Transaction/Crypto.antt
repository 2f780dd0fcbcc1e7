-- ===== src/Transaction/Crypto.antt =====
-- What core/ calls of its libraries. A common.Hash and a common.Address are their bytes, a Go string too.
use crosshub.Prelude.{
  ℕ, ◌+◌, ◌*◌, ◌≤◌, ◌≡◌, ℤ, pos, Option, some, Run, ok, Bytes, length, get_elem?, take, drop,
}

abbrev pub Hash : Type 0
Hash = Bytes

abbrev pub Address : Type 0
Address = Bytes

pub data SignError : Type 0 where
  invalid_chain_id invalid_signature cannot_sign : SignError

-- sha3, common.LeftPadBytes of big.Int.Bytes to 32 bytes, big.Int.SetBytes, common.HexToAddress,
-- types.DeriveChainId and types.RecoverPlain (hash, R, S, V).
pub record Crypto : Type 0 where
  pub keccak : Bytes → Hash
  pub pad_bytes : ℕ → Bytes
  pub set_bytes : Bytes → ℕ
  pub hex_to_address : Bytes → Address
  pub derive_chain_id : ℤ → ℤ
  pub recover_plain : Hash → ℤ → ℤ → ℤ → Run SignError Address

-- EIP155: V is 35 or 36 plus twice the chain id.
pub record IsCrypto (crypto : Crypto) : Type 0 where
  pub derive_chain_id-eip155 :
      (c v : ℕ) → v ≤ 1 → crypto.derive_chain_id (pos (v + 35 + c * 2)) ≡ pos c

-- A signing function for one account: its signatures have 65 bytes, the last of them 0 or 1, and are
-- recovered to the account.
pub record IsSigner (crypto : Crypto) (sign_hash : Hash → Option Bytes) (account : Address)
    : Type 0 where
  pub sig_length : (h : Hash) (sig : Bytes) → sign_hash h ≡ some sig → length sig ≡ 65
  pub sig_recovers :
      (h : Hash) (sig : Bytes)
      → sign_hash h ≡ some sig
      → (v : ℕ) × (get_elem? sig 64 ≡ some v)
        × (v ≤ 1)
        × (crypto.recover_plain h
              (pos (crypto.set_bytes (take 32 sig)))
              (pos (crypto.set_bytes (take 32 (drop 32 sig))))
              (pos (v + 27))
            ≡ ok account)
