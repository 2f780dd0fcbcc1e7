-- ===== src/Transaction/Ctx.antt =====
-- core/cross_transaction.go and core/cross_transaction_signing.go. The cache of a value that an atomic
-- holds is an Option; `size` is never set.
use crosshub.Prelude.{
  ℕ, ◌+◌, ◌%◌, Bool, ◌∷◌, ◌++◌, ℤ, pos, nat_abs, ◌+ℤ◌, ◌-ℤ◌, eq_ℤ, Option, none, some, Run, ok, err,
  panic, or_else, ◌>>=◌, Bytes, length, get_elem?, take, drop, not, ◌==◌, if◌then◌else◌,
}
use crosshub.Transaction.Crypto.{Hash, Address, SignError, invalid_chain_id, cannot_sign, Crypto}

-- ctxdata
pub record CtxData : Type 0 where
  pub ctx_id : Hash
  pub tx_hash : Hash
  pub block_hash : Hash
  pub value : ℤ
  pub charge : ℤ
  pub from : Bytes
  pub to : Bytes
  pub origin : ℕ
  pub purpose : ℕ
  pub payload : Bytes
  pub v : ℤ
  pub r : ℤ
  pub s : ℤ

-- EIP155CtxSigner
pub record CtxSigner : Type 0 where
  pub chain_id : ℤ
  pub chain_id_mul : ℤ

pub record CtxSigCache : Type 0 where
  pub signer : CtxSigner
  pub from : Address

pub record CrossTransaction : Type 0 where
  pub ctx : CtxData
  pub hash_cache : Option Hash
  pub sign_hash_cache : Option Hash
  pub from_cache : Option CtxSigCache

abbrev pub fresh_ctx : CtxData → CrossTransaction
fresh_ctx d = record { ctx = d; hash_cache = none; sign_hash_cache = none; from_cache = none }

unfoldable pub new_cross_transaction :
    ℤ → ℤ → Bytes → Bytes → ℕ → ℕ → Hash → Hash → Hash → Bytes → CrossTransaction
new_cross_transaction amount charge from to origin purpose id tx_hash b_hash input =
    fresh_ctx (record {
      ctx_id = id;
      tx_hash = tx_hash;
      block_hash = b_hash;
      value = amount;
      charge = charge;
      from = from;
      to = to;
      origin = origin;
      purpose = purpose;
      payload = input;
      v = pos 0;
      r = pos 0;
      s = pos 0;
    })

abbrev pub ctx_id_of : CrossTransaction → Hash
ctx_id_of tx = tx.ctx.ctx_id

abbrev pub ctx_destination : CrossTransaction → ℕ
ctx_destination tx = tx.ctx.purpose

abbrev pub ctx_block_hash : CrossTransaction → Hash
ctx_block_hash tx = tx.ctx.block_hash

abbrev pub ctx_from : CrossTransaction → Bytes
ctx_from tx = tx.ctx.from

abbrev pub ctx_chain_id : Crypto → CrossTransaction → ℤ
ctx_chain_id crypto tx = crypto.derive_chain_id tx.ctx.v

-- NewEIP155CtxSigner; a nil chain id counts as 0.
unfoldable pub new_ctx_signer : Option ℤ → CtxSigner
new_ctx_signer none = record { chain_id = pos 0; chain_id_mul = pos 0 }
new_ctx_signer (some c) = record { chain_id = c; chain_id_mul = c +ℤ c }

abbrev pub ctx_signer_equal : CtxSigner → CtxSigner → Bool
ctx_signer_equal s s2 = eq_ℤ s2.chain_id s.chain_id

-- SignatureValues: R, S and V of a signature; a length other than 65 panics. The sums on the last byte
-- are sums of bytes, and wrap.
unfoldable pub ctx_signature_values : Crypto → CtxSigner → Bytes → Run SignError (ℤ × ℤ × ℤ)
ctx_signature_values crypto signer sig = if not (length sig == 65) then panic else (do
  b ← or_else (get_elem? sig 64) panic
  let r : ℤ = pos (crypto.set_bytes (take 32 sig))
  let s : ℤ = pos (crypto.set_bytes (take 32 (drop 32 sig)))
  ok (
    r,
    s,
    if eq_ℤ signer.chain_id (pos 0)
        then pos ((b + 27) % 256)
        else pos ((b + 35) % 256) +ℤ signer.chain_id_mul,
  ))

module _ (crypto : Crypto) where
  -- common.LeftPadBytes(x.Bytes(), 32)
  abbrev pub padded : ℤ → Bytes
  padded x = crypto.pad_bytes (nat_abs x)

  -- The bytes that Hash, SignHash and the signer's Hash have in common.
  unfoldable pub ctx_preimage : CtxData → Bytes
  ctx_preimage d =
      d.ctx_id
      ++ (d.tx_hash
          ++ (d.block_hash
              ++ (padded d.value
                  ++ (padded d.charge
                      ++ (d.from ++ (d.to ++ (d.origin ∷ (d.purpose ∷ d.payload))))))))

  unfoldable pub ctx_signer_hash : CrossTransaction → Hash
  ctx_signer_hash tx = crypto.keccak (ctx_preimage tx.ctx)

  -- The signer's SimpleHash: the two parties as addresses.
  unfoldable pub ctx_simple_hash : CrossTransaction → Hash
  unfolding ctx_preimage
  ctx_simple_hash tx =
      let d = tx.ctx in
      crypto.keccak (
        ctx_preimage
          (record d { from = crypto.hex_to_address d.from; to = crypto.hex_to_address d.to }))

  -- CrossTransaction.Hash, which keeps its result.
  unfoldable pub ctx_hash : CrossTransaction → CrossTransaction × Hash
  ctx_hash tx = elim tx.hash_cache [
    | some h ↦ (tx, h)
    | none ↦ let h = crypto.keccak (ctx_preimage tx.ctx) in (record tx { hash_cache = some h }, h)
  ]

  -- CrossTransaction.SignHash, over the signature too.
  unfoldable pub ctx_sign_hash : CrossTransaction → CrossTransaction × Hash
  ctx_sign_hash tx = elim tx.sign_hash_cache [
    | some h ↦ (tx, h)
    | none ↦
        let d = tx.ctx in
        let h = crypto.keccak (ctx_preimage d ++ (padded d.v ++ (padded d.r ++ padded d.s))) in
        (record tx { sign_hash_cache = some h }, h)
  ]

  -- WithSignature: a copy of the data, with no cache.
  unfoldable pub ctx_with_signature :
      CrossTransaction → CtxSigner → Bytes → Run SignError CrossTransaction
  ctx_with_signature tx signer sig = do
    (r, s, v) ← ctx_signature_values crypto signer sig
    ok (fresh_ctx (record tx.ctx { v = v; r = r; s = s }))

  -- SignCtx and SignSimpleCtx.
  unfoldable pub sign_ctx :
      CrossTransaction → CtxSigner → (Hash → Option Bytes) → Run SignError CrossTransaction
  sign_ctx tx signer sign_hash = do
    sig ← or_else (sign_hash (ctx_signer_hash tx)) (err cannot_sign)
    ctx_with_signature tx signer sig

  unfoldable pub sign_simple_ctx :
      CrossTransaction → CtxSigner → (Hash → Option Bytes) → Run SignError CrossTransaction
  sign_simple_ctx tx signer sign_hash = do
    sig ← or_else (sign_hash (ctx_simple_hash tx)) (err cannot_sign)
    ctx_with_signature tx signer sig

  -- EIP155CtxSigner.Sender
  unfoldable pub ctx_signer_sender : CtxSigner → CrossTransaction → Run SignError Address
  ctx_signer_sender signer tx =
      if not (eq_ℤ (crypto.derive_chain_id tx.ctx.v) signer.chain_id)
      then err invalid_chain_id
      else crypto.recover_plain (ctx_signer_hash tx) tx.ctx.r tx.ctx.s
          (tx.ctx.v -ℤ signer.chain_id_mul -ℤ pos 8)

  -- The part of CtxSender behind its cache.
  unfoldable pub ctx_derive :
      CtxSigner → CrossTransaction → CrossTransaction × Run SignError Address
  ctx_derive signer tx = elim (ctx_signer_sender signer tx) [
    | ok addr ↦ (record tx { from_cache = some (record { signer = signer; from = addr }) }, ok addr)
    | err e ↦ (tx, err e)
    | panic ↦ (tx, panic)
  ]

  unfoldable pub ctx_sender :
      CtxSigner → CrossTransaction → CrossTransaction × Run SignError Address
  ctx_sender signer tx = elim tx.from_cache [
    | none ↦ ctx_derive signer tx
    | some sc ↦ if ctx_signer_equal sc.signer signer then (tx, ok sc.from) else ctx_derive signer tx
  ]
