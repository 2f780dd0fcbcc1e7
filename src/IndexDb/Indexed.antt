-- ===== src/IndexDb/Indexed.antt =====
-- ctx_list.go: CrossTransactionIndexed, and core's Price. A big.Float is of a type `F`.
use crosshub.Prelude.{ℕ, ◌^◌, ◌-◌, ◌≡◌, refl, ℤ, pos, eq_ℤ, Bytes, if◌then◌else◌}
use crosshub.Transaction.Crypto.{Hash}
use crosshub.Transaction.Ctx.{CrossTransaction, fresh_ctx, ctx_id_of}

-- CrossTransactionIndexed
pub record Indexed (F : Type 0) : Type 0 where
  pub pk : ℕ
  pub ctx_id : Hash
  pub tx_hash : Hash
  pub block_hash : Hash
  pub value : ℤ
  pub charge : ℤ
  pub from : Bytes
  pub to : Bytes
  pub origin : ℕ
  pub purpose : ℕ
  pub payload : Bytes
  pub price : F
  pub v : ℤ
  pub r : ℤ
  pub s : ℤ

-- CrossTransaction.Price: numerator and denominator.
unfoldable pub price_of : CrossTransaction → ℤ × ℤ
price_of tx =
    if eq_ℤ tx.ctx.value (pos 0) then (pos (2 ^ 64 - 1), pos 1) else (tx.ctx.charge, tx.ctx.value)

-- NewCrossTransactionIndexed, with big.Float's SetRat as a parameter.
unfoldable pub new_cross_transaction_indexed :
    {F : Type 0} → (ℤ × ℤ → F) → CrossTransaction → Indexed F
unfolding price_of
new_cross_transaction_indexed set_rat tx = record {
  pk = 0;
  ctx_id = ctx_id_of tx;
  tx_hash = tx.ctx.tx_hash;
  block_hash = tx.ctx.block_hash;
  value = tx.ctx.value;
  charge = tx.ctx.charge;
  from = tx.ctx.from;
  to = tx.ctx.to;
  origin = tx.ctx.origin;
  purpose = tx.ctx.purpose;
  payload = tx.ctx.payload;
  price = set_rat (price_of tx);
  v = tx.ctx.v;
  r = tx.ctx.r;
  s = tx.ctx.s;
}

-- ToCrossTransaction: the data, with empty caches.
unfoldable pub to_cross_transaction : {F : Type 0} → Indexed F → CrossTransaction
to_cross_transaction c = fresh_ctx (record {
  ctx_id = c.ctx_id;
  tx_hash = c.tx_hash;
  block_hash = c.block_hash;
  value = c.value;
  charge = c.charge;
  from = c.from;
  to = c.to;
  origin = c.origin;
  purpose = c.purpose;
  payload = c.payload;
  v = c.v;
  r = c.r;
  s = c.s;
})

-- A cross transaction that is indexed and read back under any primary key has its data and signature;
-- only its cached hashes and sender are gone.
to_cross_transaction-new_cross_transaction_indexed :
    {F : Type 0} (set_rat : ℤ × ℤ → F) (tx : CrossTransaction) (pk : ℕ)
    → to_cross_transaction (record (new_cross_transaction_indexed set_rat tx) { pk = pk })
      ≡ fresh_ctx tx.ctx
unfolding to_cross_transaction new_cross_transaction_indexed
to_cross_transaction-new_cross_transaction_indexed set_rat tx pk = refl
