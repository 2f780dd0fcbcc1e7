-- ===== src/Transaction/Rtx.antt =====
-- core/recept_transaction.go and core/recept_transaction_signing.go.
use crosshub.Prelude.{
  String, ℕ, ◌+◌, ◌%◌, Bool, ◌∷◌, ◌++◌, ℤ, pos, nat_abs, ◌+ℤ◌, ◌-ℤ◌, eq_ℤ, Option, none, some, Run,
  ok, err, panic, or_else, ◌>>=◌, Bytes, length, get_elem?, take, drop, not, ◌==◌, if◌then◌else◌,
}
use crosshub.Transaction.Crypto.{Hash, Address, SignError, invalid_chain_id, cannot_sign, Crypto}

-- rtxdata
pub record RtxData : Type 0 where
  pub ctx_id : Hash
  pub tx_hash : Hash
  pub from : Bytes
  pub to : Bytes
  pub taker : Bytes
  pub origin : ℕ
  pub purpose : ℕ
  pub payload : Bytes
  pub v : ℤ
  pub r : ℤ
  pub s : ℤ

-- EIP155RtxSigner
pub record RtxSigner : Type 0 where
  pub chain_id : ℤ
  pub chain_id_mul : ℤ

pub record RtxSigCache : Type 0 where
  pub signer : RtxSigner
  pub from : Address

pub record ReceptTransaction : Type 0 where
  pub rtx : RtxData
  pub hash_cache : Option Hash
  pub sign_hash_cache : Option Hash
  pub from_cache : Option RtxSigCache

abbrev pub fresh_rtx : RtxData → ReceptTransaction
fresh_rtx d = record { rtx = d; hash_cache = none; sign_hash_cache = none; from_cache = none }

unfoldable pub new_recept_transaction :
    Hash → Hash → Bytes → Bytes → Bytes → ℕ → ℕ → Bytes → ReceptTransaction
new_recept_transaction id tx_hash from to taker origin purpose input = fresh_rtx (record {
  ctx_id = id;
  tx_hash = tx_hash;
  from = from;
  to = to;
  taker = taker;
  origin = origin;
  purpose = purpose;
  payload = input;
  v = pos 0;
  r = pos 0;
  s = pos 0;
})

abbrev pub rtx_id_of : ReceptTransaction → Hash
rtx_id_of tx = tx.rtx.ctx_id

abbrev pub rtx_destination : ReceptTransaction → ℕ
rtx_destination tx = tx.rtx.purpose

abbrev pub rtx_from : ReceptTransaction → Bytes
rtx_from tx = tx.rtx.from

abbrev pub rtx_chain_id : Crypto → ReceptTransaction → ℤ
rtx_chain_id crypto tx = crypto.derive_chain_id tx.rtx.v

-- NewEIP155RtxSigner
unfoldable pub new_rtx_signer : Option ℤ → RtxSigner
new_rtx_signer none = record { chain_id = pos 0; chain_id_mul = pos 0 }
new_rtx_signer (some c) = record { chain_id = c; chain_id_mul = c +ℤ c }

abbrev pub rtx_signer_equal : RtxSigner → RtxSigner → Bool
rtx_signer_equal s s2 = eq_ℤ s2.chain_id s.chain_id

unfoldable pub rtx_signature_values : Crypto → RtxSigner → Bytes → Run SignError (ℤ × ℤ × ℤ)
rtx_signature_values crypto signer sig = if not (length sig == 65) then panic else (do
  b ← or_else (get_elem? sig 64) panic
  let r : ℤ = pos (crypto.set_bytes (take 32 sig))
  let s : ℤ = pos (crypto.set_bytes (take 32 (drop 32 sig)))
  ok (
    r,
    s,
    if eq_ℤ signer.chain_id (pos 0)
        then pos ((b + 27) % 256)
        else pos ((b + 35) % 256) +ℤ signer.chain_id_mul,
  ))

module _ (crypto : Crypto) where
  -- The bytes of the signer's Hash: all fields but Origin and the signature.
  unfoldable pub rtx_signer_preimage : RtxData → Bytes
  rtx_signer_preimage d =
      d.ctx_id ++ (d.tx_hash ++ (d.from ++ (d.to ++ (d.taker ++ (d.purpose ∷ d.payload)))))

  -- The bytes of ReceptTransaction.Hash and the first ones of SignHash, which have Origin.
  unfoldable pub rtx_preimage : RtxData → Bytes
  rtx_preimage d =
      d.ctx_id
      ++ (d.tx_hash ++ (d.from ++ (d.to ++ (d.taker ++ (d.origin ∷ (d.purpose ∷ d.payload))))))

  unfoldable pub rtx_signer_hash : ReceptTransaction → Hash
  unfolding rtx_signer_preimage
  rtx_signer_hash tx = crypto.keccak (rtx_signer_preimage tx.rtx)

  -- ReceptTransaction.Hash and SignHash, which keep their results.
  unfoldable pub rtx_hash : ReceptTransaction → ReceptTransaction × Hash
  rtx_hash tx = elim tx.hash_cache [
    | some h ↦ (tx, h)
    | none ↦ let h = crypto.keccak (rtx_preimage tx.rtx) in (record tx { hash_cache = some h }, h)
  ]

  unfoldable pub rtx_sign_hash : ReceptTransaction → ReceptTransaction × Hash
  rtx_sign_hash tx = elim tx.sign_hash_cache [
    | some h ↦ (tx, h)
    | none ↦
        let d = tx.rtx in
        let h = crypto.keccak (
          rtx_preimage d
          ++ (crypto.pad_bytes (nat_abs d.v)
              ++ (crypto.pad_bytes (nat_abs d.r) ++ crypto.pad_bytes (nat_abs d.s)))) in
        (record tx { sign_hash_cache = some h }, h)
  ]

  unfoldable pub rtx_with_signature :
      ReceptTransaction → RtxSigner → Bytes → Run SignError ReceptTransaction
  rtx_with_signature tx signer sig = do
    (r, s, v) ← rtx_signature_values crypto signer sig
    ok (fresh_rtx (record tx.rtx { v = v; r = r; s = s }))

  unfoldable pub sign_rtx :
      ReceptTransaction → RtxSigner → (Hash → Option Bytes) → Run SignError ReceptTransaction
  sign_rtx tx signer sign_hash = do
    sig ← or_else (sign_hash (rtx_signer_hash tx)) (err cannot_sign)
    rtx_with_signature tx signer sig

  unfoldable pub rtx_signer_sender : RtxSigner → ReceptTransaction → Run SignError Address
  rtx_signer_sender signer tx =
      if not (eq_ℤ (crypto.derive_chain_id tx.rtx.v) signer.chain_id)
      then err invalid_chain_id
      else crypto.recover_plain (rtx_signer_hash tx) tx.rtx.r tx.rtx.s
          (tx.rtx.v -ℤ signer.chain_id_mul -ℤ pos 8)

  unfoldable pub rtx_derive :
      RtxSigner → ReceptTransaction → ReceptTransaction × Run SignError Address
  rtx_derive signer tx = elim (rtx_signer_sender signer tx) [
    | ok addr ↦ (record tx { from_cache = some (record { signer = signer; from = addr }) }, ok addr)
    | err e ↦ (tx, err e)
    | panic ↦ (tx, panic)
  ]

  -- RtxSender
  unfoldable pub rtx_sender :
      RtxSigner → ReceptTransaction → ReceptTransaction × Run SignError Address
  rtx_sender signer tx = elim tx.from_cache [
    | none ↦ rtx_derive signer tx
    | some sc ↦ if rtx_signer_equal sc.signer signer then (tx, ok sc.from) else rtx_derive signer tx
  ]

-- Recept, the argument of the contract's makerFinish.
pub record Recept : Type 0 where
  pub tx_id : Hash
  pub tx_hash : Hash
  pub from : Bytes
  pub to : Bytes
  pub taker : Address
  pub origin : ℕ
  pub purpose : ℕ
  pub payload : Bytes

abbrev pub recept_of : Crypto → RtxData → Recept
recept_of crypto d = record {
  tx_id = d.ctx_id;
  tx_hash = d.tx_hash;
  from = d.from;
  to = d.to;
  taker = crypto.hex_to_address d.taker;
  origin = d.origin;
  purpose = d.purpose;
  payload = d.payload;
}

-- ConstructData, over the ABI's Pack.
unfoldable pub construct_recept_data :
    Crypto → (String → Recept → Option Bytes) → ReceptTransaction → Option Bytes
construct_recept_data crypto pack tx = pack "makerFinish" (recept_of crypto tx.rtx)
