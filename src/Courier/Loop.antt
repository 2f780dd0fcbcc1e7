-- ===== src/Courier/Loop.antt =====
-- What the loop of Updates does to the rows.
use crosshub.Prelude.{
  sym, eq_iff, Bool-cases, inl, inr, arith, ℕ, zero, suc, ◌≡◌, refl, ◌∙◌, ap, false, List, [], ◌∷◌,
  get_elem?, subst, String, str_eq, Option, none, some, Run, ok,
}
use crosshub.Prelude.Action.{and_then, and_then-ok, retag-ok}
use crosshub.Contract.Defs.{IContract}
use crosshub.Courier.Tx.{CrossTx, TxJson, IsTxJson}
use crosshub.Courier.Store.{StoreError, Node, one_tx, update_tx, query_checked, update_rows}
use crosshub.Courier.Laws.{Row, IsNode, one_tx-Row, one_tx_keeps}
use crosshub.Courier.Step.{Settles, Rows, HasRow, update_step}

abbrev pub AllSettle :
    (CrossTx → Type 0) → (CrossTx → Type 0) → List (CrossTx → Run StoreError CrossTx) → Type 0
AllSettle Q P us =
    (n : ℕ) (u : CrossTx → Run StoreError CrossTx) → get_elem? us n ≡ some u → Settles u Q P

elem_split {ℓ} :
    {Q : Type ℓ} (x : String) (xs : List String) (n : ℕ) (y : String)
    → get_elem? (x ∷ xs) n ≡ some y
    → (x ≡ y → Q)
    → ((m : ℕ) → get_elem? xs m ≡ some y → Q)
    → Q
elem_split x xs zero y e here there = here (cc)
elem_split x xs (suc n) y e here there = there n e

module _ {D : Type 0} (json : TxJson D) (json_lawful : IsTxJson json) (node : Node D)
    (lawful : IsNode json node) where
  query_checked-ok {ℓ} :
      {A : Type ℓ} (found : CrossTx × Option StoreError) (s s' : node.Db)
      (f : CrossTx → node.Db → node.Db × Run StoreError (Unit {0}))
      → and_then (query_checked json node found s) f ≡ (s', ok tt)
      → ((c : CrossTx) → found ≡ (c, none) → f c s ≡ (s', ok tt) → A)
      → A
  query_checked-ok (c, none) s s' f h k = k c refl h
  query_checked-ok (c, some e) s s' f h k = absurd (cc)

  -- What one turn of a loop that succeeds did.
  record Turn (id : String) (u : CrossTx → Run StoreError CrossTx) (ids : List String)
      (us : List (CrossTx → Run StoreError CrossTx)) (s s' : node.Db) : Type 0 where
    before : CrossTx
    after : CrossTx
    between : node.Db
    row : Row json node s id before
    changed : u before ≡ ok after
    written : node.update after s ≡ (between, ok tt)
    rest : update_rows json node ids us between ≡ (s', ok tt)

  update_rows-Turn :
      (id : String) (u : CrossTx → Run StoreError CrossTx) (ids : List String)
      (us : List (CrossTx → Run StoreError CrossTx)) (s s' : node.Db)
      → update_rows json node (id ∷ ids) (u ∷ us) s ≡ (s', ok tt)
      → Turn id u ids us s s'
  unfolding update_rows
  update_rows-Turn id u ids us s s' h = and_then-ok (one_tx json node id s) _ h (λ s1 found e1 h1.
      query_checked-ok found s1 s' _ h1 (λ c e2 h2.
        and_then-ok (s1, u c) _ h2
          (λ s2 c' e3 h3. and_then-ok (update_tx json node c' s2) _ h3 (λ s3 x e4 h4.
            let same : s ≡ s2 = one_tx_keeps json node id s s1 _ e1 ∙ ap (λ p. p.0) e3 in
            record {
              before = c;
              after = c';
              between = s3;
              row = one_tx-Row json node id s s1 c (e1 ∙ ap (λ f. (s1, ok f)) e2);
              changed = ap (λ p. p.1) e3;
              written = ap (node.update c') same ∙ retag-ok _ _ e4;
              rest = h4;
            }))))

  -- The rows after a loop over `ids`: a row of a CrossID in it has `P`, the other documents are the
  -- same.
  pub record Looped (Q P : CrossTx → Type 0) (ids : List String) (s s' : node.Db) : Type 0 where
    pub rows : Rows json node Q s'
    pub kept : (j : String) → HasRow json node P s j → HasRow json node P s' j
    pub settled_rows : (n : ℕ) (id : String) → get_elem? ids n ≡ some id → HasRow json node P s' id
    pub others :
        (j : String)
        → ((n : ℕ) (id : String) → get_elem? ids n ≡ some id → str_eq id j ≡ false)
        → node.find s' j ≡ node.find s j

  module _ {Q P : CrossTx → Type 0} where
    pub update_rows-Looped :
        (ids : List String) (us : List (CrossTx → Run StoreError CrossTx)) (s s' : node.Db)
        → AllSettle Q P us
        → Rows json node Q s
        → update_rows json node ids us s ≡ (s', ok tt)
        → Looped Q P ids s s'
    unfolding update_rows
    update_rows-Looped [] us s s' steps rows h =
        let same : s ≡ s' = ap (λ p. p.0) h in
        subst (Looped Q P [] s) same (record {
          rows = rows;
          kept = λ j has. has;
          settled_rows = λ n id e. absurd (cc);
          others = λ j apart. refl;
        })
    update_rows-Looped (id ∷ ids) [] s s' steps rows h = absurd (cc)
    update_rows-Looped (id ∷ ids) (u ∷ us) s s' steps rows h =
        let turn = update_rows-Turn id u ids us s s' h in
        let one =
          update_step json json_lawful node lawful (steps 0 u refl) s turn.between id turn.before
            turn.after rows turn.row turn.changed turn.written in
        let rest =
          update_rows-Looped ids us turn.between s' (λ n. steps (suc n)) one.rows turn.rest in
        record {
          rows = rest.rows;
          kept = λ j has. rest.kept j (one.kept j has);
          settled_rows = λ n i e.
              elem_split id ids n i e
                (λ same. rest.kept i (subst (HasRow json node P turn.between) same one.settled_row))
                (λ m e'. rest.settled_rows m i e');
          others = λ j apart. rest.others j (λ n. apart (suc n)) ∙ one.others j (apart 0 id refl);
        }

  -- An updater that changes nothing but the contract.
  abbrev pub PutsContract : (CrossTx → Run StoreError CrossTx) → Type 0
  PutsContract u =
      (c c' : CrossTx) → u c ≡ ok c' → (k : IContract) × (c' ≡ record c { contract = some k })

  found_before :
      (id : String) (u : CrossTx → Run StoreError CrossTx) (ids : List String)
      (us : List (CrossTx → Run StoreError CrossTx)) (s s' : node.Db)
      → PutsContract u
      → (turn : Turn id u ids us s s') (j : String) → (d : D) × (node.find turn.between j ≡ ok d)
      → (d : D) × (node.find s j ≡ ok d)
  found_before id u ids us s s' puts turn j (d, found) = elim (Bool-cases (str_eq id j)) [
    | inl t ↦ (turn.row.document, ap (node.find s) (sym ((eq_iff id j).0 t)) ∙ turn.row.found)
    | inr t ↦
        let (k, e) = puts turn.before turn.after turn.changed in
        let now =
          lawful.update-find s turn.between id turn.before k turn.row
            (ap (λ x. node.update x s) (sym e) ∙ turn.written) in
        (d, sym (now j ∙ ground (arith, t)) ∙ found)
  ]

  -- A loop that succeeds found each of its transactions.
  pub update_rows_found :
      (ids : List String) (us : List (CrossTx → Run StoreError CrossTx)) (s s' : node.Db)
      → ((n : ℕ) (u : CrossTx → Run StoreError CrossTx) → get_elem? us n ≡ some u → PutsContract u)
      → update_rows json node ids us s ≡ (s', ok tt)
      → (n : ℕ) (j : String) → get_elem? ids n ≡ some j
      → (d : D) × (node.find s j ≡ ok d)
  unfolding update_rows
  update_rows_found [] us s s' puts h n j e = absurd (cc)
  update_rows_found (id ∷ ids) [] s s' puts h n j e = absurd (cc)
  update_rows_found (id ∷ ids) (u ∷ us) s s' puts h n j e =
      let turn = update_rows-Turn id u ids us s s' h in
      elem_split id ids n j e
        (λ same. (turn.row.document, ap (node.find s) (sym same) ∙ turn.row.found))
        (λ m e'.
          found_before id u ids us s s' (puts 0 u refl) turn j
            (update_rows_found ids us turn.between s' (λ i. puts (suc i)) turn.rest m j e'))
