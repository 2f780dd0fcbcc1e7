-- ===== src/Courier/Accounted.antt =====
-- No transaction that ProcessCrossTxs popped is lost.
use crosshub.Prelude.{
  ℕ, zero, suc, Bytes, ◌≡◌, sym, ◌∙◌, ap, subst, List, [], ◌∷◌, get_elem?, String, Option, none,
  some, ℤ, pos, ◌-ℤ◌, ok, Run-cases, Option-cases, Bool-cases, inl, inr, arith,
}
use crosshub.Prelude.Action.{and_then-ok}
use crosshub.Transaction.Crypto.{Hash, Crypto}
use crosshub.Transaction.Ctx.{CrossTransaction}
use crosshub.Courier.Tx.{CrossTx}
use crosshub.Courier.Relay.{
  Encoders, to_cross_hub_tx, Outside, IsOutside, Relay, sign_tx, push_back, send_signed,
  sign_and_send, relay_one, append_success, relay_all,
}

module _ (enc : Encoders) (out : Outside) (lawful : IsOutside out) (crypto : Crypto)
    (sign_hash : Hash → Option Bytes) where
  -- Where a transaction is after the loop: it has no form on the other chain, or it waits in the queue,
  -- or it is on the success list.
  pub data Accounted (q : out.Queue) (ids : List String) (tx : CrossTx) : Type 0 where
    skipped : to_cross_hub_tx enc tx ≡ ok none → Accounted q ids tx
    waiting : lawful.Holds q tx → Accounted q ids tx
    sent : (m : ℕ) → get_elem? ids m ≡ some tx.cross_id → Accounted q ids tx

  abbrev R : Type 0
  R = Relay enc out crypto sign_hash

  -- The queue only grew.
  abbrev Grows : R → R → Type 0
  Grows st st' = (j : CrossTx) → lawful.Holds st.queue j → lawful.Holds st'.queue j

  -- What a turn did: its result and the queue.
  record Turned (tx : CrossTx) (st st' : R) (r : Option String) : Type 0 where
    grows : Grows st st'
    accounted : Accounted st'.queue (append_success enc out crypto sign_hash r []) tx

  push_back-Turned :
      (tx : CrossTx) (st st' : R) (r : Option String)
      → push_back enc out crypto sign_hash tx st ≡ (st', ok r)
      → Turned tx st st' r
  unfolding push_back
  push_back-Turned tx st st' r h = elim (Option-cases tx.time_stamp) [
    | inl e ↦ absurd (ground arith)
    | inr (t, e) ↦
        let p : ℤ = pos 0 -ℤ t.seconds in
        let q : out.push tx p st.queue ≡ st'.queue = ground arith in
        record {
          grows = λ j x. subst (λ y. lawful.Holds y j) q (lawful.push_keeps st.queue tx p j x);
          accounted = waiting (subst (λ y. lawful.Holds y tx) q (lawful.push-Holds st.queue tx p));
        }
  ]

  send_signed-Turned :
      (tx : CrossTx) (signed : CrossTransaction) (st st' : R) (r : Option String)
      → send_signed enc out crypto sign_hash tx signed st ≡ (st', ok r)
      → Turned tx st st' r
  unfolding send_signed
  send_signed-Turned tx signed st st' r h = elim (Bool-cases ((out.send signed st.client).1)) [
    | inl t ↦
        let q : st.queue ≡ st'.queue = ground arith in
        let e : some tx.cross_id ≡ r = ground arith in
        record {
          grows = λ j x. subst (λ y. lawful.Holds y j) q x;
          accounted =
              sent 0 (ap (λ o. get_elem? (append_success enc out crypto sign_hash o []) 0) (sym e));
        }
    | inr t ↦
        let turn =
          push_back-Turned tx (record st { client = (out.send signed st.client).0 }) st' r
            (ground arith) in
        record { grows = turn.grows; accounted = turn.accounted }
  ]

  sign_and_send-Turned :
      (tx : CrossTx) (ctx : CrossTransaction) (st st' : R) (r : Option String)
      → sign_and_send enc out crypto sign_hash tx (some ctx) st ≡ (st', ok r)
      → Turned tx st st' r
  unfolding sign_and_send
  sign_and_send-Turned tx ctx st st' r h =
      Run-cases (sign_tx enc out crypto sign_hash ctx)
        (λ signed e. send_signed-Turned tx signed st st' r (ground arith))
        (λ x e. push_back-Turned tx st st' r (ground arith)) (λ e. absurd (ground arith))

  relay_one-Turned :
      (tx : CrossTx) (st st' : R) (r : Option String)
      → relay_one enc out crypto sign_hash tx st ≡ (st', ok r)
      → Turned tx st st' r
  unfolding relay_one sign_and_send
  relay_one-Turned tx st st' r h =
      Run-cases (to_cross_hub_tx enc tx)
        (λ o e. elim (Option-cases o) [
          | inl n ↦
              let q : st.queue ≡ st'.queue = ground arith in
              record {
                grows = λ j x. subst (λ y. lawful.Holds y j) q x;
                accounted = skipped (e ∙ ap ok n);
              }
          | inr (ctx, n) ↦ sign_and_send-Turned tx ctx st st' r (ground arith)
        ])
        (λ x e. absurd (ground arith)) (λ e. absurd (ground arith))

  Accounted_first :
      (q q' : out.Queue) (r : Option String) (ids : List String) (tx : CrossTx)
      → ((j : CrossTx) → lawful.Holds q j → lawful.Holds q' j)
      → Accounted q (append_success enc out crypto sign_hash r []) tx
      → Accounted q' (append_success enc out crypto sign_hash r ids) tx
  Accounted_first q q' r ids tx grows (skipped e) = skipped e
  Accounted_first q q' r ids tx grows (waiting h) = waiting (grows tx h)
  Accounted_first q q' none ids tx grows (sent m e) = absurd (cc)
  Accounted_first q q' (some id) ids tx grows (sent zero e) = sent 0 e
  Accounted_first q q' (some id) ids tx grows (sent (suc m) e) = absurd (cc)

  Accounted_rest :
      (q : out.Queue) (r : Option String) (ids : List String) (tx : CrossTx)
      → Accounted q ids tx
      → Accounted q (append_success enc out crypto sign_hash r ids) tx
  Accounted_rest q r ids tx (skipped e) = skipped e
  Accounted_rest q r ids tx (waiting h) = waiting h
  Accounted_rest q none ids tx (sent m e) = sent m e
  Accounted_rest q (some id) ids tx (sent m e) = sent (suc m) e

  record Looped (txs : List CrossTx) (st st' : R) (ids : List String) : Type 0 where
    all_grows : Grows st st'
    all : (n : ℕ) (tx : CrossTx) → get_elem? txs n ≡ some tx → Accounted st'.queue ids tx

  Looped_cons :
      (tx : CrossTx) (txs : List CrossTx) (st st1 st' : R) (r : Option String) (ids : List String)
      → Turned tx st st1 r
      → Looped txs st1 st' ids
      → (n : ℕ) (x : CrossTx) → get_elem? (tx ∷ txs) n ≡ some x
      → Accounted st'.queue (append_success enc out crypto sign_hash r ids) x
  Looped_cons tx txs st st1 st' r ids turn rest zero x e =
      subst (Accounted st'.queue (append_success enc out crypto sign_hash r ids)) (cc)
        (Accounted_first st1.queue st'.queue r ids tx rest.all_grows turn.accounted)
  Looped_cons tx txs st st1 st' r ids turn rest (suc n) x e =
      Accounted_rest st'.queue r ids x (rest.all n x e)

  relay_all-Looped :
      (txs : List CrossTx) (st st' : R) (ids : List String)
      → relay_all enc out crypto sign_hash txs st ≡ (st', ok ids)
      → Looped txs st st' ids
  unfolding relay_all
  relay_all-Looped [] st st' ids h =
      let q : st.queue ≡ st'.queue = ground arith in
      record { all_grows = λ j x. subst (λ y. lawful.Holds y j) q x; all = λ n tx e. absurd (cc) }
  relay_all-Looped (tx ∷ txs) st st' ids h =
      and_then-ok (relay_one enc out crypto sign_hash tx st) _ h (λ st1 r e1 h1.
        and_then-ok (relay_all enc out crypto sign_hash txs st1) _ h1 (λ st2 more e2 h2.
          let turn = relay_one-Turned tx st st1 r e1 in
          let rest = relay_all-Looped txs st1 st2 more e2 in
          let q : st2.queue ≡ st'.queue = ground arith in
          let list : append_success enc out crypto sign_hash r more ≡ ids = ground arith in
          record {
            all_grows = λ j x. subst (λ y. lawful.Holds y j) q (rest.all_grows j (turn.grows j x));
            all = λ n x e.
                subst (λ y. Accounted y ids x) q
                  (subst (λ y. Accounted st2.queue y x) list
                    (Looped_cons tx txs st st1 st2 r more turn rest n x e));
          }))

  -- When the loop of ProcessCrossTxs ends without a panic, each transaction that was popped has no form
  -- on the other chain, is back in the queue, or is on the list of those that were sent.
  pub relay_all-Accounted :
      (txs : List CrossTx) (st st' : R) (ids : List String)
      → relay_all enc out crypto sign_hash txs st ≡ (st', ok ids)
      → (n : ℕ) (tx : CrossTx) → get_elem? txs n ≡ some tx
      → Accounted st'.queue ids tx
  relay_all-Accounted txs st st' ids h n tx e = (relay_all-Looped txs st st' ids h).all n tx e
