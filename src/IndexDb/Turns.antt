-- ===== src/IndexDb/Turns.antt =====
-- The loops of the writing methods leave no entry under the CtxId of a row that they changed.
use crosshub.Prelude.{
  ℕ, ◌≡◌, ◌≢◌, refl, ◌∙◌, ap, ℤ, Bool, true, false, List, [], ◌∷◌, Run, ok, err, panic,
}
use crosshub.Prelude.Action.{Action}
use crosshub.Transaction.Crypto.{Hash}
use crosshub.Transaction.Ctx.{CrossTransaction, ctx_id_of}
use crosshub.IndexDb.Indexed.{Indexed, new_cross_transaction_indexed}
use crosshub.IndexDb.Reads.{
  hash, ctx_id_index, DbError, not_found, failed, IndexNode, ArcCache, IsArcCache, IndexDb,
}
use crosshub.IndexDb.Writes.{
  tx_hash_index, IndexTx, WriteError, plain, missing, update_failed, delete_failed, replaced,
  write_one, write_all, update_one, update_all, delete_one, delete_all,
}
use crosshub.IndexDb.Upkeep.{
  IsIndexTx, Upheld, Upholds, Upheld-unchanged, Upholds->>, dropped_after, dropped_before,
}

pair_eq : {S E : Type 0} (r : S × Run E (Unit {0})) → r.1 ≡ ok tt → r ≡ (r.0, ok tt)
pair_eq (s, q) e = ap (λ x. (s, x)) e

abbrev pub All {ℓ κ} : {A : Type ℓ} → (A → Type κ) → List A → Type κ
All P [] = Unit
All P (x ∷ xs) = P x × All P xs

-- An updater that leaves the keys of a row alone.
abbrev pub KeepsKeys : {F : Type 0} → (Indexed F → Indexed F) → Type 0
KeepsKeys {F} u = (x : Indexed F) → ((u x).pk ≡ x.pk) × ((u x).ctx_id ≡ x.ctx_id)

module _ {F : Type 0} (set_rat : ℤ × ℤ → F) (node : IndexNode F) (tx : IndexTx node)
    (arc : ArcCache F) (lawful : IsArcCache arc) (laws : IsIndexTx tx) where
  abbrev Db : Type 0
  Db = IndexDb node arc

  abbrev Body : Type 0
  Body = Action Db WriteError (Unit {0})

  replaced-Upheld :
      (replaceable : Bool) (ctx : CrossTransaction) (pk : ℕ) (d : Db)
      → ((h : Hash) (y : Indexed F)
          → h ≢ ctx_id_of ctx
          → node.one d.db ctx_id_index (hash h) ≡ ok y
          → y.pk ≢ pk)
      → Upheld set_rat node tx arc lawful laws d
          ((replaced set_rat node tx arc replaceable ctx pk d).0)
          ((replaced set_rat node tx arc replaceable ctx pk d).1)
  unfolding new_cross_transaction_indexed
  replaced-Upheld false ctx pk d other = Upheld-unchanged set_rat node tx arc lawful laws d (ok tt)
  replaced-Upheld true ctx pk d other =
      let x = record (new_cross_transaction_indexed set_rat ctx) { pk = pk } in
      dropped_after set_rat node tx arc lawful laws plain d (ctx_id_of ctx) ctx_id_index
        ctx.ctx.tx_hash (tx.update x d.db)
        λ h e ne. laws.update-one d.db x h (pair_eq (tx.update x d.db) e) ne (λ y. other h y ne)

  write_one-Upheld :
      (replaceable : Bool) (ctx : CrossTransaction) (d : Db) (r : Run DbError (Indexed F))
      → node.one d.db ctx_id_index (hash (ctx_id_of ctx)) ≡ r
      → Upheld set_rat node tx arc lawful laws d
          ((write_one set_rat node tx arc replaceable ctx d).0)
          ((write_one set_rat node tx arc replaceable ctx d).1)
  unfolding write_one new_cross_transaction_indexed
  write_one-Upheld replaceable ctx d (err not_found) e =
      let x = new_cross_transaction_indexed set_rat ctx in
      rw (e, write_one)
        (dropped_after set_rat node tx arc lawful laws plain d (ctx_id_of ctx) ctx_id_index
          ctx.ctx.tx_hash (tx.save x d.db)
          λ h s ne. laws.save-one d.db x h refl (pair_eq (tx.save x d.db) s) ne)
  write_one-Upheld replaceable ctx d (err failed) e =
      rw (e, write_one) (replaced-Upheld replaceable ctx 0 d (λ h y ne s. laws.pk-ne-zero d.db h s))
  write_one-Upheld replaceable ctx d (ok old) e =
      rw (e, write_one)
        (replaced-Upheld replaceable ctx old.pk d
          (λ h y ne s p. ne (laws.pk_unique d.db h (ctx_id_of ctx) s e p)))
  write_one-Upheld replaceable ctx d panic e =
      rw (e, write_one) (Upheld-unchanged set_rat node tx arc lawful laws d panic)

  pub write_all-Upholds :
      (ctx_list : List CrossTransaction) (replaceable : Bool)
      → Upholds set_rat node tx arc lawful laws (write_all set_rat node tx arc ctx_list replaceable)
  unfolding write_all
  write_all-Upholds [] replaceable = λ d. Upheld-unchanged set_rat node tx arc lawful laws d (ok tt)
  write_all-Upholds (ctx ∷ rest) replaceable =
      Upholds->> set_rat node tx arc lawful laws (write_one set_rat node tx arc replaceable ctx)
        (write_all set_rat node tx arc rest replaceable)
        (λ d. write_one-Upheld replaceable ctx d _ refl) (write_all-Upholds rest replaceable)

  update_one-Upheld :
      (id : Hash) (u : Indexed F → Indexed F) (d : Db) (r : Run DbError (Indexed F))
      → KeepsKeys u
      → node.one d.db ctx_id_index (hash id) ≡ r
      → Upheld set_rat node tx arc lawful laws d
          ((update_one set_rat node tx arc id u d).0)
          ((update_one set_rat node tx arc id u d).1)
  unfolding update_one
  update_one-Upheld id u d (ok x) keeps e =
      rw (e, update_one)
        (dropped_after set_rat node tx arc lawful laws update_failed d id tx_hash_index
          (u x).tx_hash (tx.update (u x) d.db)
          λ h s ne.
            laws.update-one d.db (u x) h (pair_eq (tx.update (u x) d.db) s)
              (λ z. ne (z ∙ (keeps x).1 ∙ laws.one_id d.db id e))
              (λ y f p. ne (laws.pk_unique d.db h id f e (p ∙ (keeps x).0))))
  update_one-Upheld id u d (err x) keeps e =
      rw (e, update_one) (Upheld-unchanged set_rat node tx arc lawful laws d (err (missing x)))
  update_one-Upheld id u d panic keeps e =
      rw (e, update_one) (Upheld-unchanged set_rat node tx arc lawful laws d panic)

  delete_one-Upheld :
      (id : Hash) (d : Db) (r : Run DbError (Indexed F))
      → node.one d.db ctx_id_index (hash id) ≡ r
      → Upheld set_rat node tx arc lawful laws d
          ((delete_one set_rat node tx arc id d).0)
          ((delete_one set_rat node tx arc id d).1)
  unfolding delete_one
  delete_one-Upheld id d (ok x) e =
      rw (e, delete_one)
        (dropped_before set_rat node tx arc lawful laws delete_failed d id tx_hash_index x.tx_hash
          (tx.delete x d.db)
          λ h s ne.
            laws.delete-one d.db x h (pair_eq (tx.delete x d.db) s)
              (λ y f p. ne (laws.pk_unique d.db h id f e p)))
  delete_one-Upheld id d (err x) e =
      rw (e, delete_one) (Upheld-unchanged set_rat node tx arc lawful laws d (ok tt))
  delete_one-Upheld id d panic e =
      rw (e, delete_one) (Upheld-unchanged set_rat node tx arc lawful laws d panic)

  pub update_all-Upholds :
      (ids : List Hash) (us : List (Indexed F → Indexed F))
      → All KeepsKeys us
      → Upholds set_rat node tx arc lawful laws (update_all set_rat node tx arc ids us)
  unfolding update_all
  update_all-Upholds [] us keeps = λ d. Upheld-unchanged set_rat node tx arc lawful laws d (ok tt)
  update_all-Upholds (id ∷ ids) [] keeps =
      λ d. Upheld-unchanged set_rat node tx arc lawful laws d panic
  update_all-Upholds (id ∷ ids) (u ∷ us) keeps =
      Upholds->> set_rat node tx arc lawful laws (update_one set_rat node tx arc id u)
        (update_all set_rat node tx arc ids us) (λ d. update_one-Upheld id u d _ keeps.0 refl)
        (update_all-Upholds ids us keeps.1)

  pub delete_all-Upholds :
      (ids : List Hash)
      → Upholds set_rat node tx arc lawful laws (delete_all set_rat node tx arc ids)
  unfolding delete_all
  delete_all-Upholds [] = λ d. Upheld-unchanged set_rat node tx arc lawful laws d (ok tt)
  delete_all-Upholds (id ∷ ids) =
      Upholds->> set_rat node tx arc lawful laws (delete_one set_rat node tx arc id)
        (delete_all set_rat node tx arc ids) (λ d. delete_one-Upheld id d _ refl)
        (delete_all-Upholds ids)
