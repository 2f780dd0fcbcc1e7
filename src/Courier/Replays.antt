-- ===== src/Courier/Replays.antt =====
-- Save on transactions that the database already has: blocks that are read a second time.
use crosshub.Prelude.{
  ◌≡◌, sym, ◌∙◌, ap, subst, Option-cases, inl, inr, Bool, false, ◌&&◌, Bool-cases, List, [], ◌∷◌,
  String, str_eq, eq_iff, Option, none, some, ok, pos, arith,
}
use crosshub.Prelude.Action.{and_then-ok, retag-ok}
use crosshub.Courier.Tx.{CrossTx, TxJson, IsTxJson}
use crosshub.Courier.Store.{
  StoreError, storm, not_found, save_failed, Node, one_tx, save_new, save_branch, save_txs, save,
}
use crosshub.Courier.Laws.{Row, IsNode, one_tx_keeps, with_transaction-ok}
use crosshub.Courier.Step.{Row-same}
use crosshub.Courier.Advance.{
  advance, advance_twice, is_finishing, finishes, one_tx-found, save_known-Row, save_known_others,
}

-- Transactions that were not stored yet: processPreTxs leaves their primary key 0.
abbrev pub Unsaved : List CrossTx → Type 0
Unsaved [] = Unit {0}
Unsaved (tx ∷ txs) = (tx.pk ≡ pos 0) × Unsaved txs

module _ {D : Type 0} (json : TxJson D) (json_lawful : IsTxJson json) (node : Node D)
    (lawful : IsNode json node) where
  save_new_others :
      (new_tx old : CrossTx) (s s1 s' : node.Db)
      → new_tx.pk ≡ pos 0
      → save_new json node new_tx s ≡ (s', ok tt)
      → (j : String) → str_eq new_tx.cross_id j ≡ false
      → node.find s' j ≡ node.find s j
  unfolding save_new
  save_new_others new_tx old s s1 s' zero_key h j ne = elim (Option-cases new_tx.contract) [
    | inl e ↦ absurd (ground arith)
    | inr (k, e) ↦
        lawful.save-others s s' new_tx zero_key
          (retag-ok (λ x. save_failed (storm x)) (node.save new_tx s) (ground arith)) j ne
  ]

  save_branch_others :
      (new_tx : CrossTx) (found : CrossTx × Option StoreError) (s s1 s' : node.Db)
      → new_tx.pk ≡ pos 0
      → one_tx json node new_tx.cross_id s ≡ (s1, ok found)
      → save_branch json node new_tx found s ≡ (s', ok tt)
      → (j : String) → str_eq new_tx.cross_id j ≡ false
      → node.find s' j ≡ node.find s j
  save_branch_others new_tx (old, none) s s1 s' z e h =
      save_known_others json json_lawful node lawful new_tx old none s s1 s' e h
  save_branch_others new_tx (old, some (storm not_found)) s s1 s' z e h =
      save_new_others new_tx old s s1 s' z h
  save_branch_others new_tx (old, some x) s s1 s' z e h =
      save_known_others json json_lawful node lawful new_tx old (some x) s s1 s' e h

  save_branch-Row :
      (new_tx : CrossTx) (found : CrossTx × Option StoreError) (s s1 s' : node.Db) (j : String)
      (c : CrossTx)
      → new_tx.pk ≡ pos 0
      → Row json node s j c
      → one_tx json node new_tx.cross_id s ≡ (s1, ok found)
      → save_branch json node new_tx found s ≡ (s', ok tt)
      → Row json node s' j (advance (str_eq new_tx.cross_id j && is_finishing new_tx.contract) c)
  save_branch-Row new_tx found s s1 s' j c z r e h = elim (Bool-cases (str_eq new_tx.cross_id j)) [
    | inl t ↦
        let here = subst (λ i. Row json node s i c) (sym ((eq_iff new_tx.cross_id j).0 t)) r in
        let read = sym e ∙ one_tx-found json json_lawful node lawful new_tx.cross_id s c here in
        let is_c : found ≡ (c, none) = ground arith in
        rw t (
          save_known-Row json json_lawful node lawful new_tx s s' j c r
            (ap (λ f. save_branch json node new_tx f s) (sym is_c) ∙ h))
    | inr t ↦
        rw t
          (Row-same json node s' s j c (sym (save_branch_others new_tx found s s1 s' z e h j t)) r)
  ]

  save_txs-Row :
      (txs : List CrossTx) (s s' : node.Db) (j : String) (c : CrossTx)
      → Unsaved txs
      → Row json node s j c
      → save_txs json node txs s ≡ (s', ok tt)
      → Row json node s' j (advance (finishes j txs) c)
  unfolding save_txs
  save_txs-Row [] s s' j c z r h = subst (λ x. Row json node x j c) (ap (λ p. p.0) h) r
  save_txs-Row (new_tx ∷ rest) s s' j c (z, zs) r h =
      and_then-ok (one_tx json node new_tx.cross_id s) _ h (λ s1 found e1 h1.
        and_then-ok (save_branch json node new_tx found s1) _ h1 (λ s2 x e2 h2.
          let same_s : s ≡ s1 = one_tx_keeps json node new_tx.cross_id s s1 _ e1 in
          let b : Bool = str_eq new_tx.cross_id j && is_finishing new_tx.contract in
          let one =
            save_branch-Row new_tx found s s1 s2 j c z r e1
              (ap (save_branch json node new_tx found) same_s ∙ e2) in
          subst (Row json node s' j) (advance_twice b (finishes j rest) c)
            (save_txs-Row rest s2 s' j (advance b c) zs one h2)))

  -- A Save that succeeds, of transactions that have no primary key yet, leaves each transaction of the database
  -- as it was, but with a Completed contract exactly where a Finished contract of its ID is among those that
  -- are saved.
  pub save-advance :
      (txs : List CrossTx) (db db' : node.Db)
      → Unsaved txs
      → save json node txs db ≡ (db', ok tt)
      → (j : String) (c : CrossTx) → Row json node db j c
      → Row json node db' j (advance (finishes j txs) c)
  unfolding save
  save-advance txs db db' z h j c r =
      with_transaction-ok json node (save_txs json node txs) db db' h (λ s s' begun e ended.
        Row-same json node db' s' j _ (sym (lawful.commit-find s' db' ended j)) (
          save_txs-Row txs s s' j c z
            (Row-same json node s db j c (sym (lawful.begin-find db s begun j)) r) e))
