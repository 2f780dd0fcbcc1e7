-- ===== src/IndexDb/History.antt =====
-- Any sequence of reads and writes keeps the cache of an IndexDB true to its rows, by their CtxIds.
use crosshub.Prelude.{
  ◌≡◌, refl, sym, ◌∙◌, ap, subst, ℤ, Bool, true, false, not, ◌==◌, List, [], ◌∷◌, length, Option,
  none, some, Run, ok, err, panic, map_err, Run-cases, if◌then◌else◌,
}
use crosshub.Prelude.Action.{Action, fail}
use crosshub.Transaction.Crypto.{Hash}
use crosshub.Transaction.Ctx.{CrossTransaction}
use crosshub.IndexDb.Indexed.{Indexed, to_cross_transaction}
use crosshub.IndexDb.Reads.{
  FieldValue, hash, FieldName, ctx_id_index, CacheKey, get_failed, IndexNode, ArcCache, IsArcCache,
  IndexDb, one_ctx, read, as_ctx,
}
use crosshub.IndexDb.Writes.{
  IndexTx, WriteError, invalid_params, closing, with_index_tx, write_all, writes, update_all,
  index_updates, delete_all, deletes,
}
use crosshub.IndexDb.Coherence.{Coherent, seen, one_ctx-Coherent, read-Coherent}
use crosshub.IndexDb.Upkeep.{IsIndexTx, id_key, entries, Upheld, Upholds}
use crosshub.IndexDb.Turns.{
  All, KeepsKeys, write_all-Upholds, update_all-Upholds, delete_all-Upholds,
}

abbrev pub IsIdKey : CacheKey → Type 0
IsIdKey k = (h : Hash) × (k ≡ id_key h)

module _ {F : Type 0} (set_rat : ℤ × ℤ → F) (node : IndexNode F) (tx : IndexTx node)
    (arc : ArcCache F) (lawful : IsArcCache arc) (laws : IsIndexTx tx) where
  abbrev Db : Type 0
  Db = IndexDb node arc

  -- A cache that is true to the rows, by their CtxIds.
  abbrev pub IsTrue : Db → Type 0
  IsTrue d = Coherent node arc lawful IsIdKey d.db d.cache

  abbrev Row : Db → Hash → Indexed F → Type 0
  Row d h w = seen (node.one d.db ctx_id_index (hash h)) ≡ ok (to_cross_transaction w)

  abbrev entry_of : Db → Hash → Option (Indexed F)
  entry_of d h = entries set_rat node tx arc lawful laws d.cache (id_key h)

  IsTrue-intro :
      (d : Db) → ((h : Hash) (w : Indexed F) → entry_of d h ≡ some w → Row d h w) → IsTrue d
  IsTrue-intro d rows = record {
    agrees = λ c k w t e f.
        let here : lawful.entry c (id_key t.0) ≡ some w = ap (lawful.entry c) (sym t.1) ∙ f in
        subst (λ i. seen (node.one d.db i.index i.value) ≡ ok (to_cross_transaction w)) (sym t.1)
          (rows t.0 w (ap (λ o. entries set_rat node tx arc lawful laws o (id_key t.0)) e ∙ here));
  }

  entry_row :
      (s : node.Db) (o : Option arc.Cache) (h : Hash) (w : Indexed F)
      → Coherent node arc lawful IsIdKey s o
      → entries set_rat node tx arc lawful laws o (id_key h) ≡ some w
      → seen (node.one s ctx_id_index (hash h)) ≡ ok (to_cross_transaction w)
  entry_row s none h w c e = absurd (cc)
  entry_row s (some b) h w c e = c.agrees b (id_key h) w (h, refl) refl e

  -- Entries that were there stay true where their rows stay.
  IsTrue-later :
      (d d' : Db)
      → IsTrue d
      → ((h : Hash) (w : Indexed F)
          → entry_of d' h ≡ some w
          → (entry_of d h ≡ some w)
            × (node.one d'.db ctx_id_index (hash h) ≡ node.one d.db ctx_id_index (hash h)))
      → IsTrue d'
  IsTrue-later d d' c kept =
      IsTrue-intro d' λ h w e.
        let (before, same) = kept h w e in ap seen same ∙ entry_row d.db d.cache h w c before

  closing-IsTrue :
      (d d1 : Db) (s : node.Db) (r : Run WriteError (Unit {0}))
      → ((h : Hash) → node.one s ctx_id_index (hash h) ≡ node.one d.db ctx_id_index (hash h))
      → Upheld set_rat node tx arc lawful laws (record d { db = s }) d1 r
      → IsTrue d
      → IsTrue ((closing set_rat node tx arc d.db (d1, r)).0)
  unfolding closing
  closing-IsTrue d d1 s (err e) begun u c =
      IsTrue-later d (record d1 { db = d.db }) c (λ h w f. (u.subset (id_key h) w f, refl))
  closing-IsTrue d d1 s panic begun u c =
      IsTrue-later d (record d1 { db = d.db }) c (λ h w f. (u.subset (id_key h) w f, refl))
  closing-IsTrue d d1 s (ok t) begun u c =
      Run-cases (tx.commit d1.db)
        (λ s' e.
          rw (e, closing)
            (IsTrue-later d (record d1 { db = s' }) c
              (λ h w f. (
                u.subset (id_key h) w f,
                laws.commit-one d1.db h e ∙ u.rows h w refl f ∙ begun h,
              ))))
        (λ x e.
          rw (e, closing)
            (IsTrue-later d (record d1 { db = d.db }) c (λ h w f. (u.subset (id_key h) w f, refl))))
        (λ e.
          rw (e, closing)
            (IsTrue-later d (record d1 { db = d.db }) c (λ h w f. (u.subset (id_key h) w f, refl))))

  with_index_tx-IsTrue :
      (body : Action Db WriteError (Unit {0})) (d : Db)
      → Upholds set_rat node tx arc lawful laws body
      → IsTrue d
      → IsTrue ((with_index_tx set_rat node tx arc body d).0)
  unfolding with_index_tx
  with_index_tx-IsTrue body d u c =
      Run-cases (tx.begin d.db)
        (λ s e.
          rw (e, with_index_tx)
            (closing-IsTrue d ((body (record d { db = s })).0) s ((body (record d { db = s })).1)
              (λ h. laws.begin-one d.db h e) (u (record d { db = s })) c))
        (λ x e. rw (e, with_index_tx) c) (λ e. rw (e, with_index_tx) c)

  checked-IsTrue :
      (bad : Bool) (body : Action Db WriteError (Unit {0})) (d : Db)
      → Upholds set_rat node tx arc lawful laws body
      → IsTrue d
      → IsTrue (((if bad then fail invalid_params else with_index_tx set_rat node tx arc body) d).0)
  checked-IsTrue true body d u c = c
  checked-IsTrue false body d u c = with_index_tx-IsTrue body d u c

  -- A call of a method: One, Read, Writes, Updates or Deletes.
  pub data Call : Type 0 where
    one_call : FieldName → FieldValue → Call
    read_call : Hash → Call
    writes_call : List CrossTransaction → Bool → Call
    updates_call : List Hash → List (Indexed F → Indexed F) → Call
    deletes_call : List Hash → Call

  -- What a call leaves.
  unfoldable pub after_call : Call → Db → Db
  after_call (one_call field key) d = (one_ctx node arc field key d).0
  after_call (read_call id) d = (read node arc id d).0
  after_call (writes_call ctx_list replaceable) d =
      (writes set_rat node tx arc ctx_list replaceable d).0
  after_call (updates_call ids updaters) d = (index_updates set_rat node tx arc ids updaters d).0
  after_call (deletes_call ids) d = (deletes set_rat node tx arc ids d).0

  unfoldable pub after_calls : List Call → Db → Db
  after_calls [] d = d
  after_calls (c ∷ cs) d = after_calls cs (after_call c d)

  -- The updaters leave the keys of their rows alone.
  abbrev pub IsGentle : Call → Type 0
  IsGentle (updates_call ids updaters) = All KeepsKeys updaters
  IsGentle _ = Unit {0}

  after_call-IsTrue : (c : Call) (d : Db) → IsGentle c → IsTrue d → IsTrue (after_call c d)
  unfolding after_call writes index_updates deletes
  after_call-IsTrue (one_call field key) d g h =
      let (_, coherent, same) = one_ctx-Coherent node arc lawful IsIdKey field key d h in
      subst (λ s. Coherent node arc lawful IsIdKey s ((one_ctx node arc field key d).0).cache)
        (sym same) coherent
  after_call-IsTrue (read_call id) d g h =
      let (_, coherent, same) = read-Coherent node arc lawful IsIdKey id d h (id, refl) in
      subst (λ s. Coherent node arc lawful IsIdKey s ((read node arc id d).0).cache) (sym same)
        coherent
  after_call-IsTrue (writes_call ctx_list replaceable) d g h =
      with_index_tx-IsTrue (write_all set_rat node tx arc ctx_list replaceable) d
        (write_all-Upholds set_rat node tx arc lawful laws ctx_list replaceable) h
  after_call-IsTrue (updates_call ids updaters) d g h =
      checked-IsTrue (not (length ids == length updaters))
        (update_all set_rat node tx arc ids updaters) d
        (update_all-Upholds set_rat node tx arc lawful laws ids updaters g) h
  after_call-IsTrue (deletes_call ids) d g h =
      with_index_tx-IsTrue (delete_all set_rat node tx arc ids) d
        (delete_all-Upholds set_rat node tx arc lawful laws ids) h

  after_calls-IsTrue :
      (cs : List Call) (d : Db) → All IsGentle cs → IsTrue d → IsTrue (after_calls cs d)
  unfolding after_calls
  after_calls-IsTrue [] d g h = h
  after_calls-IsTrue (c ∷ cs) d g h =
      after_calls-IsTrue cs (after_call c d) g.1 (after_call-IsTrue c d g.0 h)

  -- After any calls of One, Read, Writes, Updates and Deletes, whether they succeed or fail, with updaters
  -- that leave the CtxId and the primary key of a row alone, and with a cache that was true to the rows by
  -- their CtxIds before, Read gives what the database has then under the CtxId, error included.
  pub read-after_calls :
      (cs : List Call) (d : Db) (id : Hash)
      → All IsGentle cs
      → IsTrue d
      → (read node arc id (after_calls cs d)).1
        ≡ as_ctx node arc
            (map_err (get_failed id) (node.one (after_calls cs d).db ctx_id_index (hash id)))
  read-after_calls cs d id g h =
      (read-Coherent node arc lawful IsIdKey id (after_calls cs d) (after_calls-IsTrue cs d g h)
        (id, refl)).0
