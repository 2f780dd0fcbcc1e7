-- ===== src/IndexDb/Rollback.antt =====
-- What a writing method of IndexDB leaves behind when it fails.
use crosshub.Prelude.{
  ℤ, ◌≡◌, refl, ap, ◌∙◌, Bool, ◌==◌, List, length, Run, ok, err, panic, Run-cases, Bool-cases, inl,
  inr, arith,
}
use crosshub.Prelude.Action.{Action}
use crosshub.Transaction.Crypto.{Hash}
use crosshub.Transaction.Ctx.{CrossTransaction}
use crosshub.IndexDb.Indexed.{Indexed}
use crosshub.IndexDb.Reads.{IndexNode, ArcCache, IndexDb}
use crosshub.IndexDb.Writes.{
  IndexTx, WriteError, closing, with_index_tx, write_all, writes, update_all, index_updates,
}

module _ {F : Type 0} (set_rat : ℤ × ℤ → F) (node : IndexNode F) (tx : IndexTx node)
    (arc : ArcCache F) where
  abbrev S : Type 0
  S = IndexDb node arc

  closing_atomic :
      (s : node.Db) (r : S × Run WriteError (Unit {0}))
      → ((closing set_rat node tx arc s r).1 ≡ ok tt → ⊥)
      → ((closing set_rat node tx arc s r).0).db ≡ s
  unfolding closing
  closing_atomic s (d, ok u) h =
      Run-cases (tx.commit d.db) (λ x e. absurd (h (ground arith))) (λ x e. ground arith)
        (λ e. ground arith)
  closing_atomic s (d, err e) h = refl
  closing_atomic s (d, panic) h = refl

  with_index_tx_atomic :
      (body : Action S WriteError (Unit {0})) (d : S)
      → ((with_index_tx set_rat node tx arc body d).1 ≡ ok tt → ⊥)
      → ((with_index_tx set_rat node tx arc body d).0).db ≡ d.db
  unfolding with_index_tx
  with_index_tx_atomic body d h =
      Run-cases (tx.begin d.db)
        (λ s e.
          let ran : with_index_tx set_rat node tx arc body d
              ≡ closing set_rat node tx arc d.db (body (record d { db = s })) =
            ground arith in
          ap (λ p. (p.0).db) ran
          ∙ closing_atomic d.db (body (record d { db = s })) (λ x. h (ap (λ p. p.1) ran ∙ x)))
        (λ x e. ground arith) (λ e. ground arith)

  -- A Writes that does not succeed leaves the database as it was.
  writes_atomic :
      (ctxs : List CrossTransaction) (replaceable : Bool) (d : S)
      → ((writes set_rat node tx arc ctxs replaceable d).1 ≡ ok tt → ⊥)
      → ((writes set_rat node tx arc ctxs replaceable d).0).db ≡ d.db
  unfolding writes
  writes_atomic ctxs replaceable d h =
      with_index_tx_atomic (write_all set_rat node tx arc ctxs replaceable) d h

  -- An Updates of the index that does not succeed leaves the database as it was.
  index_updates_atomic :
      (ids : List Hash) (updaters : List (Indexed F → Indexed F)) (d : S)
      → ((index_updates set_rat node tx arc ids updaters d).1 ≡ ok tt → ⊥)
      → ((index_updates set_rat node tx arc ids updaters d).0).db ≡ d.db
  unfolding index_updates
  index_updates_atomic ids updaters d h = elim (Bool-cases (length ids == length updaters)) [
    | inl t ↦
        let ran : index_updates set_rat node tx arc ids updaters d
            ≡ with_index_tx set_rat node tx arc (update_all set_rat node tx arc ids updaters) d =
          ground arith in
        ap (λ p. (p.0).db) ran
        ∙ with_index_tx_atomic (update_all set_rat node tx arc ids updaters) d
            (λ e. h (ap (λ p. p.1) ran ∙ e))
    | inr t ↦ ground arith
  ]
