-- ===== src/IndexDb/Reads.antt =====
-- indexdb.go: the reading methods of IndexDB, over a storm node and an ARC cache, both parameters.
use crosshub.Prelude.{
  ◌≡◌, ◌≢◌, ◌⊎◌, Bool, true, false, String, ℤ, Option, none, some, Run, ok, err, panic, map_err,
}
use crosshub.Transaction.Crypto.{Hash}
use crosshub.Transaction.Ctx.{CrossTransaction}
use crosshub.IndexDb.Indexed.{Indexed, to_cross_transaction}

-- A key that a field is searched for.
pub data FieldValue : Type 0 where
  hash : Hash → FieldValue
  text : String → FieldValue
  amount : ℤ → FieldValue

abbrev pub FieldName : Type 0
FieldName = String

abbrev pub ctx_id_index : FieldName
ctx_id_index = "CtxId"

-- indexCacheKey
pub record CacheKey : Type 0 where
  pub index : FieldName
  pub value : FieldValue

pub data DbError : Type 0 where
  not_found failed : DbError

-- ErrCtxDbFailure of get, which names the id.
pub data CtxDbFailure : Type 0 where
  get_failed : Hash → DbError → CtxDbFailure

pub record IndexNode (F : Type 0) : Type 1 where
  pub Db : Type 0
  pub one : Db → FieldName → FieldValue → Run DbError (Indexed F)

-- lru.ARCCache. A Get moves the entry, an Add may drop others or the entry itself.
pub record ArcCache (F : Type 0) : Type 1 where
  pub Cache : Type 0
  pub get : Cache → CacheKey → Cache × Option (Indexed F)
  pub add : Cache → CacheKey → Indexed F → Cache
  pub remove : Cache → CacheKey → Cache

pub record IsArcCache {F : Type 0} (arc : ArcCache F) : Type 0 where
  pub entry : arc.Cache → CacheKey → Option (Indexed F)
  pub get-entry : (c : arc.Cache) (k : CacheKey) → (arc.get c k).1 ≡ entry c k
  pub get-keeps :
      (c : arc.Cache) (k j : CacheKey) (w : Indexed F)
      → entry ((arc.get c k).0) j ≡ some w
      → entry c j ≡ some w
  pub add-entry :
      (c : arc.Cache) (k j : CacheKey) (x w : Indexed F)
      → entry (arc.add c k x) j ≡ some w
      → ((k ≡ j) × (x ≡ w)) ⊎ (entry c j ≡ some w)
  pub remove-entry :
      (c : arc.Cache) (k j : CacheKey) (w : Indexed F)
      → entry (arc.remove c k) j ≡ some w
      → (entry c j ≡ some w) × (j ≢ k)

module _ {F : Type 0} (node : IndexNode F) (arc : ArcCache F) where
  -- IndexDB. The cache is nil where newIndexDbCache failed.
  pub record IndexDb : Type 0 where
    pub db : node.Db
    pub cache : Option arc.Cache

  -- The cache's Get and Put, guarded by `d.cache != nil`.
  unfoldable pub cached : CacheKey → Option arc.Cache → Option arc.Cache × Option (Indexed F)
  cached k none = (none, none)
  cached k (some c) = (some ((arc.get c k).0), (arc.get c k).1)

  unfoldable pub put : CacheKey → Indexed F → Option arc.Cache → Option arc.Cache
  put k x none = none
  put k x (some c) = some (arc.add c k x)

  -- The part of One and get behind a miss.
  unfoldable pub fetched :
      CacheKey → IndexDb → Run DbError (Indexed F) → IndexDb × Run DbError (Indexed F)
  fetched k d (ok x) = (record d { cache = put k x d.cache }, ok x)
  fetched k d (err e) = (d, err e)
  fetched k d panic = (d, panic)

  unfoldable pub after_get :
      CacheKey → Option (Indexed F) → IndexDb → IndexDb × Run DbError (Indexed F)
  after_get k (some x) d = (d, ok x)
  after_get k none d = fetched k d (node.one d.db k.index k.value)

  unfoldable pub lookup : CacheKey → IndexDb → IndexDb × Run DbError (Indexed F)
  lookup k d = let (c, x) = cached k d.cache in after_get k x (record d { cache = c })

  -- One: nil on any error.
  abbrev pub found_or_nil : Run DbError (Indexed F) → Run DbError (Option CrossTransaction)
  found_or_nil (ok x) = ok (some (to_cross_transaction x))
  found_or_nil (err e) = ok none
  found_or_nil panic = panic

  unfoldable pub one_ctx :
      FieldName → FieldValue → IndexDb → IndexDb × Run DbError (Option CrossTransaction)
  one_ctx field key d =
      let (d', x) = lookup (record { index = field; value = key }) d in (d', found_or_nil x)

  unfoldable pub get_ctx : Hash → IndexDb → IndexDb × Run CtxDbFailure (Indexed F)
  get_ctx id d =
      let (d', x) = lookup (record { index = ctx_id_index; value = hash id }) d in
      (d', map_err (get_failed id) x)

  abbrev pub as_ctx : Run CtxDbFailure (Indexed F) → Run CtxDbFailure CrossTransaction
  as_ctx (ok x) = ok (to_cross_transaction x)
  as_ctx (err e) = err e
  as_ctx panic = panic

  -- Read
  unfoldable pub read : Hash → IndexDb → IndexDb × Run CtxDbFailure CrossTransaction
  read id d = let (d', x) = get_ctx id d in (d', as_ctx x)

  abbrev pub no_error : Run CtxDbFailure (Indexed F) → Run CtxDbFailure Bool
  no_error (ok x) = ok true
  no_error (err e) = ok false
  no_error panic = panic

  -- Has
  unfoldable pub has : Hash → IndexDb → IndexDb × Run CtxDbFailure Bool
  has id d = let (d', x) = get_ctx id d in (d', no_error x)
