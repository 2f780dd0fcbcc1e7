-- ===== src/IndexDb/Coherence.antt =====
-- The cache of an IndexDB does not change what its reading methods give. What is claimed of a cache is
-- claimed of the keys that are tracked, which may be all.
use crosshub.Prelude.{
  ◌≡◌, refl, sym, ◌∙◌, ap, subst, inl, inr, Option, none, some, Run, ok, err, panic, map_err,
}
use crosshub.Transaction.Crypto.{Hash}
use crosshub.Transaction.Ctx.{CrossTransaction}
use crosshub.IndexDb.Indexed.{Indexed, to_cross_transaction}
use crosshub.IndexDb.Reads.{
  FieldValue, hash, FieldName, ctx_id_index, CacheKey, DbError, get_failed, IndexNode, ArcCache,
  IsArcCache, IndexDb, cached, put, fetched, after_get, lookup, found_or_nil, one_ctx, get_ctx,
  as_ctx, read,
}

-- What a reader sees of an outcome: the cross transaction.
abbrev pub seen : {F : Type 0} → Run DbError (Indexed F) → Run DbError CrossTransaction
seen (ok x) = ok (to_cross_transaction x)
seen (err e) = err e
seen panic = panic

module _ {F : Type 0} (node : IndexNode F) (arc : ArcCache F) (lawful : IsArcCache arc)
    (Tracked : CacheKey → Type 0) where
  -- Each entry of the cache under a tracked key is, as a cross transaction, what the database has under the same key.
  pub record Coherent (s : node.Db) (cache : Option arc.Cache) : Type 0 where
    pub agrees :
        (c : arc.Cache) (k : CacheKey) (w : Indexed F)
        → Tracked k
        → cache ≡ some c
        → lawful.entry c k ≡ some w
        → seen (node.one s k.index k.value) ≡ ok (to_cross_transaction w)

  some-injective {ℓ} : {A : Type ℓ} {x y : A} → some x ≡ some y → x ≡ y
  some-injective h = cc

  cached-Coherent :
      (k : CacheKey) (s : node.Db) (o : Option arc.Cache)
      → Coherent s o
      → Coherent s ((cached node arc k o).0)
  unfolding cached
  cached-Coherent k s none h = h
  cached-Coherent k s (some c) h = record {
    agrees = λ b j w t e f.
        h.agrees c j w t refl
          (lawful.get-keeps c k j w (ap (λ x. lawful.entry x j) (some-injective e) ∙ f));
  }

  cached-hit :
      (k : CacheKey) (s : node.Db) (o : Option arc.Cache) (w : Indexed F)
      → Coherent s o
      → Tracked k
      → (cached node arc k o).1 ≡ some w
      → seen (node.one s k.index k.value) ≡ ok (to_cross_transaction w)
  unfolding cached
  cached-hit k s none w h t e = absurd (cc)
  cached-hit k s (some c) w h t e = h.agrees c k w t refl (sym (lawful.get-entry c k) ∙ e)

  put-Coherent :
      (k : CacheKey) (x : Indexed F) (s : node.Db) (o : Option arc.Cache)
      → node.one s k.index k.value ≡ ok x
      → Coherent s o
      → Coherent s (put node arc k x o)
  unfolding put
  put-Coherent k x s none e h = h
  put-Coherent k x s (some c) e h = record {
    agrees = λ b j w t f g.
        elim (lawful.add-entry c k j x w (ap (λ y. lawful.entry y j) (some-injective f) ∙ g)) [
          | inl (kj, xw) ↦
              subst (λ i. seen (node.one s i.index i.value) ≡ ok (to_cross_transaction w)) kj
                (ap seen e ∙ ap (λ y. ok (to_cross_transaction y)) xw)
          | inr old ↦ h.agrees c j w t refl old
        ];
  }

  -- An IndexDB on `s` with a coherent cache, and an outcome that reads as the database does under a tracked
  -- key.
  record Fresh (k : CacheKey) (s : node.Db) (o : IndexDb node arc × Run DbError (Indexed F))
      : Type 0 where
    same_db : (o.0).db ≡ s
    coherent : Coherent s ((o.0).cache)
    outcome : Tracked k → seen (o.1) ≡ seen (node.one s k.index k.value)

  fetched-Fresh :
      (k : CacheKey) (d : IndexDb node arc) (r : Run DbError (Indexed F))
      → node.one d.db k.index k.value ≡ r
      → Coherent d.db d.cache
      → Fresh k d.db (fetched node arc k d r)
  unfolding fetched
  fetched-Fresh k d (ok x) e h = record {
    same_db = refl;
    coherent = put-Coherent k x d.db d.cache e h;
    outcome = λ t. ap seen (sym e);
  }
  fetched-Fresh k d (err x) e h = record {
    same_db = refl;
    coherent = h;
    outcome = λ t. ap seen (sym e);
  }
  fetched-Fresh k d panic e h = record {
    same_db = refl;
    coherent = h;
    outcome = λ t. ap seen (sym e);
  }

  after_get-Fresh :
      (k : CacheKey) (o : Option (Indexed F)) (d : IndexDb node arc)
      → ((w : Indexed F)
          → Tracked k
          → o ≡ some w
          → seen (node.one d.db k.index k.value) ≡ ok (to_cross_transaction w))
      → Coherent d.db d.cache
      → Fresh k d.db (after_get node arc k o d)
  unfolding after_get
  after_get-Fresh k (some w) d hit h = record {
    same_db = refl;
    coherent = h;
    outcome = λ t. sym (hit w t refl);
  }
  after_get-Fresh k none d hit h = fetched-Fresh k d (node.one d.db k.index k.value) refl h

  lookup-Fresh :
      (k : CacheKey) (d : IndexDb node arc)
      → Coherent d.db d.cache
      → Fresh k d.db (lookup node arc k d)
  unfolding lookup
  lookup-Fresh k d h =
      after_get-Fresh k ((cached node arc k d.cache).1)
        (record d { cache = (cached node arc k d.cache).0 }) (λ w. cached-hit k d.db d.cache w h)
        (cached-Coherent k d.db d.cache h)

  nil_of : Run DbError CrossTransaction → Run DbError (Option CrossTransaction)
  nil_of (ok x) = ok (some x)
  nil_of (err e) = ok none
  nil_of panic = panic

  nil_of-seen : (r : Run DbError (Indexed F)) → found_or_nil node arc r ≡ nil_of (seen r)
  unfolding nil_of
  nil_of-seen (ok x) = refl
  nil_of-seen (err e) = refl
  nil_of-seen panic = refl

  map_err-seen :
      (id : Hash) (r : Run DbError (Indexed F))
      → as_ctx node arc (map_err (get_failed id) r) ≡ map_err (get_failed id) (seen r)
  map_err-seen id (ok x) = refl
  map_err-seen id (err e) = refl
  map_err-seen id panic = refl

  found_or_nil-seen :
      (r q : Run DbError (Indexed F))
      → seen r ≡ seen q
      → found_or_nil node arc r ≡ found_or_nil node arc q
  found_or_nil-seen r q h = nil_of-seen r ∙ ap nil_of h ∙ sym (nil_of-seen q)

  as_ctx-seen :
      (id : Hash) (r q : Run DbError (Indexed F))
      → seen r ≡ seen q
      → as_ctx node arc (map_err (get_failed id) r) ≡ as_ctx node arc (map_err (get_failed id) q)
  as_ctx-seen id r q h =
      map_err-seen id r ∙ ap (map_err (get_failed id)) h ∙ sym (map_err-seen id q)

  -- With a coherent cache, One gives what the database has under a tracked key, and leaves the cache
  -- coherent and the database alone under every key.
  pub one_ctx-Coherent :
      (field : FieldName) (key : FieldValue) (d : IndexDb node arc)
      → Coherent d.db d.cache
      → (Tracked (record { index = field; value = key })
          → (one_ctx node arc field key d).1 ≡ found_or_nil node arc (node.one d.db field key))
        × Coherent d.db (((one_ctx node arc field key d).0).cache)
        × (((one_ctx node arc field key d).0).db ≡ d.db)
  unfolding one_ctx
  one_ctx-Coherent field key d h =
      let f = lookup-Fresh (record { index = field; value = key }) d h in
      (λ t. found_or_nil-seen _ _ (f.outcome t), f.coherent, f.same_db)

  -- The same of Read, where the key of the CtxId is tracked.
  pub read-Coherent :
      (id : Hash) (d : IndexDb node arc)
      → Coherent d.db d.cache
      → Tracked (record { index = ctx_id_index; value = hash id })
      → ((read node arc id d).1
          ≡ as_ctx node arc (map_err (get_failed id) (node.one d.db ctx_id_index (hash id))))
        × Coherent d.db (((read node arc id d).0).cache)
        × (((read node arc id d).0).db ≡ d.db)
  unfolding read get_ctx
  read-Coherent id d h t =
      let f = lookup-Fresh (record { index = ctx_id_index; value = hash id }) d h in
      (as_ctx-seen id _ _ (f.outcome t), f.coherent, f.same_db)
