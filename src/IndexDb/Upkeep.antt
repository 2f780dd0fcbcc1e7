-- ===== src/IndexDb/Upkeep.antt =====
-- The writing methods of an IndexDB leave no entry in the cache under a CtxId whose row they changed.
use crosshub.Prelude.{◌≡◌, ◌≢◌, refl, ◌∙◌, ap, ℤ, Option, none, some, Run, ok, err, panic}
use crosshub.Prelude.Action.{Action, and_then, ◌>>◌}
use crosshub.Transaction.Crypto.{Hash}
use crosshub.IndexDb.Indexed.{Indexed}
use crosshub.IndexDb.Reads.{
  hash, FieldName, ctx_id_index, CacheKey, DbError, IndexNode, ArcCache, IsArcCache, IndexDb,
}
use crosshub.IndexDb.Writes.{IndexTx, WriteError, drop_key, drop_keys, tagged}

-- What storm documents of rows with a unique CtxId and primary keys from 1 on: a row is changed only
-- by its primary key or by a row of its CtxId, and Begin and Commit change none.
pub record IsIndexTx {F : Type 0} {node : IndexNode F} (tx : IndexTx node) : Type 0 where
  pub one_id :
      (s : node.Db) (h : Hash) {y : Indexed F}
      → node.one s ctx_id_index (hash h) ≡ ok y
      → y.ctx_id ≡ h
  pub pk_unique :
      (s : node.Db) (h i : Hash) {y z : Indexed F}
      → node.one s ctx_id_index (hash h) ≡ ok y
      → node.one s ctx_id_index (hash i) ≡ ok z
      → y.pk ≡ z.pk
      → h ≡ i
  pub pk-ne-zero :
      (s : node.Db) (h : Hash) {y : Indexed F} → node.one s ctx_id_index (hash h) ≡ ok y → y.pk ≢ 0
  pub begin-one :
      (s : node.Db) {t : node.Db} (h : Hash)
      → tx.begin s ≡ ok t
      → node.one t ctx_id_index (hash h) ≡ node.one s ctx_id_index (hash h)
  pub commit-one :
      (s : node.Db) {t : node.Db} (h : Hash)
      → tx.commit s ≡ ok t
      → node.one t ctx_id_index (hash h) ≡ node.one s ctx_id_index (hash h)
  pub save-one :
      (s : node.Db) {t : node.Db} (x : Indexed F) (h : Hash)
      → x.pk ≡ 0
      → tx.save x s ≡ (t, ok tt)
      → h ≢ x.ctx_id
      → node.one t ctx_id_index (hash h) ≡ node.one s ctx_id_index (hash h)
  pub update-one :
      (s : node.Db) {t : node.Db} (x : Indexed F) (h : Hash)
      → tx.update x s ≡ (t, ok tt)
      → h ≢ x.ctx_id
      → ((y : Indexed F) → node.one s ctx_id_index (hash h) ≡ ok y → y.pk ≢ x.pk)
      → node.one t ctx_id_index (hash h) ≡ node.one s ctx_id_index (hash h)
  pub delete-one :
      (s : node.Db) {t : node.Db} (x : Indexed F) (h : Hash)
      → tx.delete x s ≡ (t, ok tt)
      → ((y : Indexed F) → node.one s ctx_id_index (hash h) ≡ ok y → y.pk ≢ x.pk)
      → node.one t ctx_id_index (hash h) ≡ node.one s ctx_id_index (hash h)

abbrev pub id_key : Hash → CacheKey
id_key h = record { index = ctx_id_index; value = hash h }

module _ {F : Type 0} (set_rat : ℤ × ℤ → F) (node : IndexNode F) (tx : IndexTx node)
    (arc : ArcCache F) (lawful : IsArcCache arc) (laws : IsIndexTx tx) where
  abbrev Db : Type 0
  Db = IndexDb node arc

  abbrev pub entries : Option arc.Cache → CacheKey → Option (Indexed F)
  entries none k = none
  entries (some c) k = lawful.entry c k

  pub drop_key-entries :
      (f : FieldName) (h : Hash) (o : Option arc.Cache) (k : CacheKey) {w : Indexed F}
      → entries (drop_key set_rat node tx arc f h o) k ≡ some w
      → (entries o k ≡ some w) × (k ≢ record { index = f; value = hash h })
  unfolding drop_key
  drop_key-entries f h none k e = absurd (cc)
  drop_key-entries f h (some c) k {w} e =
      lawful.remove-entry c (record { index = f; value = hash h }) k w e

  -- From `d` to `d'`: an entry that is left was there, and, after a success, one under a CtxId has its row
  -- unchanged.
  pub record Upheld (d d' : Db) (r : Run WriteError (Unit {0})) : Type 0 where
    pub subset :
        (k : CacheKey) (w : Indexed F) → entries d'.cache k ≡ some w → entries d.cache k ≡ some w
    pub rows :
        (h : Hash) (w : Indexed F)
        → r ≡ ok tt
        → entries d'.cache (id_key h) ≡ some w
        → node.one d'.db ctx_id_index (hash h) ≡ node.one d.db ctx_id_index (hash h)

  abbrev pub Upholds : Action Db WriteError (Unit {0}) → Type 0
  Upholds a = (d : Db) → Upheld d ((a d).0) ((a d).1)

  pub Upheld-unchanged : (d : Db) (r : Run WriteError (Unit {0})) → Upheld d d r
  Upheld-unchanged d r = record { subset = λ k w e. e; rows = λ h w s e. refl }

  -- A failure with the entries left alone, whatever the database is then.
  Upheld-failed :
      (d : Db) (s : node.Db) (r : Run WriteError (Unit {0}))
      → r ≢ ok tt
      → Upheld d (record d { db = s }) r
  Upheld-failed d s r f = record { subset = λ k w e. e; rows = λ h w e _. absurd (f e) }

  Upheld-after :
      (a : Action Db WriteError (Unit {0})) (d d1 : Db) (r : Run WriteError (Unit {0}))
      → Upholds a
      → Upheld d d1 r
      → Upheld d ((and_then (d1, r) (λ u. a)).0) ((and_then (d1, r) (λ u. a)).1)
  Upheld-after a d d1 (ok u) h k = record {
    subset = λ j w e. k.subset j w ((h d1).subset j w e);
    rows = λ i w e f. (h d1).rows i w e f ∙ k.rows i w refl ((h d1).subset (id_key i) w f);
  }
  Upheld-after a d d1 (err e) h k = k
  Upheld-after a d d1 panic h k = k

  pub Upholds->> :
      (a b : Action Db WriteError (Unit {0})) → Upholds a → Upholds b → Upholds (a >> b)
  Upholds->> a b h k d = Upheld-after b d ((a d).0) ((a d).1) k (h d)

  -- The keys of a row are dropped, where a success has changed no row of another CtxId.
  Upheld-dropped :
      (d : Db) (t : node.Db) (id : Hash) (f : FieldName) (g : Hash) (r : Run WriteError (Unit {0}))
      → ((h : Hash)
          → r ≡ ok tt
          → h ≢ id
          → node.one t ctx_id_index (hash h) ≡ node.one d.db ctx_id_index (hash h))
      → Upheld d
          (record d {
            db = t;
            cache =
                drop_key set_rat node tx arc f g
                  (drop_key set_rat node tx arc ctx_id_index id d.cache);
          })
          r
  Upheld-dropped d t id f g r kept =
      let back =
        λ (k : CacheKey) (w : Indexed F)
            (e : entries
                (drop_key set_rat node tx arc f g
                  (drop_key set_rat node tx arc ctx_id_index id d.cache))
                k
              ≡ some w).
          drop_key-entries ctx_id_index id d.cache k
            ((drop_key-entries f g (drop_key set_rat node tx arc ctx_id_index id d.cache) k e).0) in
      record {
        subset = λ k w e. (back k w e).0;
        rows = λ i w s e. kept i s (λ same. (back (id_key i) w e).1 (ap id_key same));
      }

  -- Behind a call on the transaction, as Writes and Updates do it.
  pub dropped_after :
      (wrap : DbError → WriteError) (d : Db) (id : Hash) (f : FieldName) (g : Hash)
      (r : node.Db × Run DbError (Unit {0}))
      → ((h : Hash)
          → r.1 ≡ ok tt
          → h ≢ id
          → node.one r.0 ctx_id_index (hash h) ≡ node.one d.db ctx_id_index (hash h))
      → Upheld d
          ((and_then
            (tagged set_rat node tx arc wrap d r)
            (λ u. drop_keys set_rat node tx arc ctx_id_index id f g)).0)
          ((and_then
            (tagged set_rat node tx arc wrap d r)
            (λ u. drop_keys set_rat node tx arc ctx_id_index id f g)).1)
  dropped_after wrap d id f g (t, ok u) h = Upheld-dropped d t id f g (ok tt) (λ i s. h i refl)
  dropped_after wrap d id f g (t, err e) h = Upheld-failed d t (err (wrap e)) (λ z. absurd (cc))
  dropped_after wrap d id f g (t, panic) h = Upheld-failed d t panic (λ z. absurd (cc))

  -- Before a call on the transaction, as Deletes does it.
  pub dropped_before :
      (wrap : DbError → WriteError) (d : Db) (id : Hash) (f : FieldName) (g : Hash)
      (r : node.Db × Run DbError (Unit {0}))
      → ((h : Hash)
          → r.1 ≡ ok tt
          → h ≢ id
          → node.one r.0 ctx_id_index (hash h) ≡ node.one d.db ctx_id_index (hash h))
      → Upheld d
          ((tagged set_rat node tx arc wrap
            (drop_keys set_rat node tx arc ctx_id_index id f g d).0
            r).0)
          ((tagged set_rat node tx arc wrap
            (drop_keys set_rat node tx arc ctx_id_index id f g d).0
            r).1)
  dropped_before wrap d id f g (t, ok u) h = Upheld-dropped d t id f g (ok tt) (λ i s. h i refl)
  dropped_before wrap d id f g (t, err e) h =
      Upheld-dropped d t id f g (err (wrap e)) (λ i z. absurd (cc))
  dropped_before wrap d id f g (t, panic) h = Upheld-dropped d t id f g panic (λ i z. absurd (cc))
