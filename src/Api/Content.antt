-- ===== src/Api/Content.antt =====
-- api/query.go and api.go: QueryByPage, and CtxContentByPage with its RPC objects.
use crosshub.Prelude.{
  ℕ, ◌==◌, false, ℤ, Bytes, List, [], ◌∷◌, ◌++◌, Option, none, some, if◌then◌else◌,
}
use crosshub.Transaction.Crypto.{Hash}
use crosshub.Transaction.Ctx.{CrossTransaction, ctx_id_of}
use crosshub.IndexDb.Reads.{FieldName, IndexNode}
use crosshub.IndexDb.Query.{Storm, query_rows}

-- RPCCrossTransaction. The types of hexutil are their numbers and bytes.
pub record RpcCrossTransaction : Type 0 where
  pub ctx_id : Hash
  pub tx_hash : Hash
  pub block_hash : Hash
  pub value : ℤ
  pub charge : ℤ
  pub from : Bytes
  pub to : Bytes
  pub origin : ℕ
  pub purpose : ℕ
  pub payload : Bytes
  pub v : ℤ
  pub r : ℤ
  pub s : ℤ

-- newRPCCrossTransaction of a transaction that is not nil.
unfoldable pub rpc_of : CrossTransaction → RpcCrossTransaction
rpc_of tx = record {
  ctx_id = ctx_id_of tx;
  tx_hash = tx.ctx.tx_hash;
  block_hash = tx.ctx.block_hash;
  value = tx.ctx.value;
  charge = tx.ctx.charge;
  from = tx.ctx.from;
  to = tx.ctx.to;
  origin = tx.ctx.origin;
  purpose = tx.ctx.purpose;
  payload = tx.ctx.payload;
  v = tx.ctx.v;
  r = tx.ctx.r;
  s = tx.ctx.s;
}

unfoldable pub new_rpc_cross_transaction : Option CrossTransaction → Option RpcCrossTransaction
unfolding rpc_of
new_rpc_cross_transaction none = none
new_rpc_cross_transaction (some tx) = some (rpc_of tx)

-- Maps from a status.
abbrev pub ByStatus : Type 0 → Type 0
ByStatus A = List (ℕ × List A)

abbrev pub price_index : FieldName
price_index = "Price"

-- `m[k] = append(m[k], x)`
unfoldable pub append_at : {A : Type 0} → ℕ → A → ByStatus A → ByStatus A
append_at k x [] = (k, x ∷ []) ∷ []
append_at k x ((j, xs) ∷ m) =
    let rest = append_at k x m in if j == k then (j, xs ++ (x ∷ [])) ∷ m else (j, xs) ∷ rest

-- The RPC objects of CtxContentByPage, under their statuses. A transaction is never nil here.
unfoldable pub fill_status :
    ℕ
    → List CrossTransaction
    → ByStatus (Option RpcCrossTransaction)
    → ByStatus (Option RpcCrossTransaction)
fill_status k [] m = m
fill_status k (tx ∷ txs) m = fill_status k txs (append_at k (new_rpc_cross_transaction (some tx)) m)

unfoldable pub page_data :
    ByStatus CrossTransaction
    → ByStatus (Option RpcCrossTransaction)
    → ByStatus (Option RpcCrossTransaction)
page_data [] m = m
page_data ((k, txs) ∷ rest) m = page_data rest (fill_status k txs m)

-- The map of CtxContentByPage, whose keys are "local" and "remote".
pub record Content : Type 0 where
  pub local : ByStatus (Option RpcCrossTransaction)
  pub remote : ByStatus (Option RpcCrossTransaction)

module _ {F : Type 0} {node : IndexNode F} (storm : Storm node) where
  -- CrossQueryApi, with the databases of its IndexDBs.
  pub record CrossQueryApi : Type 0 where
    pub remote_db : node.Db
    pub local_db : node.Db

  -- NewPublicCrossQueryApi
  unfoldable pub new_public_cross_query_api : node.Db → node.Db → CrossQueryApi
  new_public_cross_query_api db idb = record { remote_db = db; local_db = idb }

  -- QueryByPage: both pages are the local ones, as in the source.
  unfoldable pub query_by_page :
      ℤ → ℤ → ℤ → ℤ → CrossQueryApi → ByStatus CrossTransaction × ByStatus CrossTransaction
  query_by_page local_size local_page remote_size remote_page s = (
    (2, query_rows storm local_size local_page (price_index ∷ []) false [] s.local_db) ∷ [],
    (5, query_rows storm local_size local_page (price_index ∷ []) false [] s.remote_db) ∷ [],
  )

  -- CtxContentByPage
  unfoldable pub ctx_content_by_page : ℤ → ℤ → ℤ → ℤ → CrossQueryApi → Content
  unfolding query_by_page
  ctx_content_by_page local_size local_page remote_size remote_page s =
      let (locals, remotes) = query_by_page local_size local_page remote_size remote_page s in
      record { local = page_data locals []; remote = page_data remotes [] }
