-- ===== src/IndexDb/Writes.antt =====
-- indexdb.go: the writing methods of IndexDB. A write transaction is a database of its own; the entries
-- of the cache are dropped while it runs, and stay dropped when it fails.
use crosshub.Prelude.{
  ℕ, ℤ, Bool, true, not, ◌==◌, List, [], ◌∷◌, length, Option, none, some, Run, ok, err, panic,
  if◌then◌else◌,
}
use crosshub.Prelude.Action.{Action, pure, fail, crash, and_then, ◌>>◌}
use crosshub.Transaction.Crypto.{Hash}
use crosshub.Transaction.Ctx.{CrossTransaction, ctx_id_of}
use crosshub.IndexDb.Indexed.{Indexed, new_cross_transaction_indexed}
use crosshub.IndexDb.Reads.{
  FieldName, ctx_id_index, hash, DbError, not_found, failed, IndexNode, ArcCache, IndexDb, put,
}

abbrev pub tx_hash_index : FieldName
tx_hash_index = "TxHash"

-- The transactions of a storm node.
pub record IndexTx {F : Type 0} (node : IndexNode F) : Type 0 where
  pub begin : node.Db → Run DbError node.Db
  pub save : Indexed F → Action node.Db DbError (Unit {0})
  pub update : Indexed F → Action node.Db DbError (Unit {0})
  pub delete : Indexed F → Action node.Db DbError (Unit {0})
  pub commit : node.Db → Run DbError node.Db

-- An error of storm as it is, or in an ErrCtxDbFailure.
pub data WriteError : Type 0 where
  plain begin_failed missing update_failed delete_failed : DbError → WriteError
  invalid_params : WriteError

module _ {F : Type 0} (set_rat : ℤ × ℤ → F) (node : IndexNode F) (tx : IndexTx node)
    (arc : ArcCache F) where
  abbrev pub State : Type 0
  State = IndexDb node arc

  -- IndexDbCache.Remove, guarded by `d.cache != nil`.
  unfoldable pub drop_key : FieldName → Hash → Option arc.Cache → Option arc.Cache
  drop_key field h none = none
  drop_key field h (some c) = some (arc.remove c (record { index = field; value = hash h }))

  abbrev pub drop_keys : FieldName → Hash → FieldName → Hash → Action State WriteError (Unit {0})
  drop_keys f1 h1 f2 h2 d = (record d { cache = drop_key f2 h2 (drop_key f1 h1 d.cache) }, ok tt)

  -- A call on the transaction.
  abbrev pub tagged :
      (DbError → WriteError)
      → State
      → node.Db × Run DbError (Unit {0})
      → State × Run WriteError (Unit {0})
  tagged w d (s, ok u) = (record d { db = s }, ok tt)
  tagged w d (s, err e) = (record d { db = s }, err (w e))
  tagged w d (s, panic) = (record d { db = s }, panic)

  -- The deferred Rollback and the Commit.
  unfoldable pub closing :
      node.Db → State × Run WriteError (Unit {0}) → State × Run WriteError (Unit {0})
  closing s (d, err e) = (record d { db = s }, err e)
  closing s (d, panic) = (record d { db = s }, panic)
  closing s (d, ok u) = elim (tx.commit d.db) [
    | ok s' ↦ (record d { db = s' }, ok tt)
    | err e ↦ (record d { db = s }, err (plain e))
    | panic ↦ (record d { db = s }, panic)
  ]

  unfoldable pub with_index_tx :
      Action State WriteError (Unit {0}) → Action State WriteError (Unit {0})
  unfolding closing
  with_index_tx body d = elim (tx.begin d.db) [
    | ok s ↦ closing d.db (body (record d { db = s }))
    | err e ↦ (d, err (begin_failed e))
    | panic ↦ (d, panic)
  ]

  -- The branches of Writes by what One found; after another error `old` is zero. The second key that
  -- is dropped is a TxHash under the field CtxId, as in the source.
  abbrev pub replaced : Bool → CrossTransaction → ℕ → Action State WriteError (Unit {0})
  replaced replaceable ctx pk d =
      if replaceable
      then and_then
          (tagged plain d
            (tx.update (record (new_cross_transaction_indexed set_rat ctx) { pk = pk }) d.db))
          (λ u. drop_keys ctx_id_index (ctx_id_of ctx) ctx_id_index ctx.ctx.tx_hash)
      else (d, ok tt)

  unfoldable pub write_one : Bool → CrossTransaction → Action State WriteError (Unit {0})
  write_one replaceable ctx d = elim (node.one d.db ctx_id_index (hash (ctx_id_of ctx))) [
    | err not_found ↦
        and_then (tagged plain d (tx.save (new_cross_transaction_indexed set_rat ctx) d.db))
          (λ u. drop_keys ctx_id_index (ctx_id_of ctx) ctx_id_index ctx.ctx.tx_hash)
    | err failed ↦ replaced replaceable ctx 0 d
    | ok old ↦ replaced replaceable ctx old.pk d
    | panic ↦ (d, panic)
  ]

  unfoldable pub write_all : List CrossTransaction → Bool → Action State WriteError (Unit {0})
  write_all [] replaceable = pure tt
  write_all (ctx ∷ rest) replaceable = write_one replaceable ctx >> write_all rest replaceable

  -- Writes
  unfoldable pub writes : List CrossTransaction → Bool → Action State WriteError (Unit {0})
  writes ctx_list replaceable = with_index_tx (write_all ctx_list replaceable)

  -- Write
  unfoldable pub write : CrossTransaction → Action State WriteError (Unit {0})
  write ctx = writes (ctx ∷ []) true >> (λ d. (
    record d {
      cache =
          put node arc (record { index = ctx_id_index; value = hash (ctx_id_of ctx) })
            (new_cross_transaction_indexed set_rat ctx) d.cache;
    },
    ok tt,
  ))

  -- A turn of Updates; the second key is the TxHash that the updater left.
  unfoldable pub update_one : Hash → (Indexed F → Indexed F) → Action State WriteError (Unit {0})
  update_one id updater d = elim (node.one d.db ctx_id_index (hash id)) [
    | ok x ↦
        and_then (tagged update_failed d (tx.update (updater x) d.db))
          (λ u. drop_keys ctx_id_index id tx_hash_index (updater x).tx_hash)
    | err e ↦ (d, err (missing e))
    | panic ↦ (d, panic)
  ]

  unfoldable pub update_all :
      List Hash → List (Indexed F → Indexed F) → Action State WriteError (Unit {0})
  update_all [] updaters = pure tt
  update_all (id ∷ ids) [] = crash
  update_all (id ∷ ids) (updater ∷ updaters) = update_one id updater >> update_all ids updaters

  -- Updates
  unfoldable pub index_updates :
      List Hash → List (Indexed F → Indexed F) → Action State WriteError (Unit {0})
  index_updates id_list updaters =
      if not (length id_list == length updaters)
      then fail invalid_params
      else with_index_tx (update_all id_list updaters)

  -- Update
  unfoldable pub index_update : Hash → (Indexed F → Indexed F) → Action State WriteError (Unit {0})
  index_update id updater = index_updates (id ∷ []) (updater ∷ [])

  -- A turn of Deletes: an id that One does not find, for any reason, is skipped.
  unfoldable pub delete_one : Hash → Action State WriteError (Unit {0})
  delete_one id d = elim (node.one d.db ctx_id_index (hash id)) [
    | ok x ↦
        and_then (drop_keys ctx_id_index id tx_hash_index x.tx_hash d)
          (λ u d1. tagged delete_failed d1 (tx.delete x d1.db))
    | err e ↦ (d, ok tt)
    | panic ↦ (d, panic)
  ]

  unfoldable pub delete_all : List Hash → Action State WriteError (Unit {0})
  delete_all [] = pure tt
  delete_all (id ∷ ids) = delete_one id >> delete_all ids

  -- Deletes
  unfoldable pub deletes : List Hash → Action State WriteError (Unit {0})
  deletes id_list = with_index_tx (delete_all id_list)
