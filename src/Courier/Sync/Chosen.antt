-- ===== src/Courier/Sync/Chosen.antt =====
-- Which transactions of a block GetPrepareCrossTxs gives.

use crosshub.Prelude.{
  ℕ, zero, suc, ◌+◌, ◌≡◌, refl, sym, ap, ◌∙◌, subst, Bool, Bytes, List, [], ◌∷◌, get_elem?, ◌⊎◌,
  inl, inr, String, Option, none, some, Run, ok, ◌>>=◌, ok-injective, ◌↔◌, >>=-ok, arith,
}
use crosshub.Courier.Sync.Filter.{
  Block, Protos, PrepareCrossTx, cons_some, prepare_all, some_txs, get_prepare_cross_txs,
}
use crosshub.Courier.Sync.Entry.{IsChosen, one, one-IsChosen, IsChosen-one}

module _ {D : Type 0} (protos : Protos D) (number : ℕ) (accept : String → Bool)
    (flags : Bytes) where
  abbrev pub Chosen : ℕ → Option Bytes → PrepareCrossTx D → Type 0
  Chosen = IsChosen protos number accept flags

  abbrev turn : ℕ → Option Bytes → Run String (Option (PrepareCrossTx D))
  turn = one protos number accept flags

  abbrev all : ℕ → List (Option Bytes) → Run String (List (PrepareCrossTx D))
  all = prepare_all protos number accept flags

  abbrev pub Found : ℕ → List (Option Bytes) → PrepareCrossTx D → Type 0
  Found start es tx =
      (i : ℕ) × (ebytes : Option Bytes) × (get_elem? es i ≡ some ebytes)
      × Chosen (start + i) ebytes tx

  Found-cons :
      (x : Option Bytes) (es : List (Option Bytes)) (start : ℕ) (tx : PrepareCrossTx D)
      → Found (suc start) es tx
      → Found start (x ∷ es) tx
  Found-cons x es start tx (i, ebytes, at, c) =
      (suc i, ebytes, at, subst (λ n. Chosen n ebytes tx) (omega arith) c)

  Found-head :
      (x : Option Bytes) (es : List (Option Bytes)) (start : ℕ) (tx : PrepareCrossTx D)
      → turn start x ≡ ok (some tx)
      → Found start (x ∷ es) tx
  Found-head x es start tx e = (
    0,
    x,
    refl,
    subst (λ n. Chosen n x tx) (omega arith)
        ((one-IsChosen protos number accept flags) start x tx e),
  )

  -- An element of the result is that of the first envelope, or an element of the rest.
  cons_some_cases :
      (o : Option (PrepareCrossTx D)) (rest : List (PrepareCrossTx D)) (j : ℕ)
      (tx : PrepareCrossTx D)
      → get_elem? (cons_some o rest) j ≡ some tx
      → (o ≡ some tx) ⊎ ((k : ℕ) × (get_elem? rest k ≡ some tx))
  cons_some_cases none rest j tx at = inr (j, at)
  cons_some_cases (some x) rest zero tx at = inl at
  cons_some_cases (some x) rest (suc j) tx at = inr (j, at)

  all-Found :
      (es : List (Option Bytes)) (start j : ℕ) (tx : PrepareCrossTx D)
      (txs : List (PrepareCrossTx D))
      → all start es ≡ ok txs
      → get_elem? txs j ≡ some tx
      → Found start es tx
  unfolding prepare_all
  all-Found [] start j tx txs h at = absurd (ground arith)
  all-Found (x ∷ es) start j tx txs h at = >>=-ok (turn start x) _ h (λ o e h1.
      >>=-ok (all (suc start) es) _ h1 (λ rest f h2.
        let here : get_elem? (cons_some o rest) j ≡ some tx =
          ap (λ l. get_elem? l j) (ok-injective h2) ∙ at in
        elim (cons_some_cases o rest j tx here) [
          | inl s ↦ Found-head x es start tx (e ∙ ap ok s)
          | inr (k, s) ↦ Found-cons x es start tx (all-Found es (suc start) k tx rest f s)
        ]))

  abbrev pub Among : PrepareCrossTx D → List (PrepareCrossTx D) → Type 0
  Among tx txs = (j : ℕ) × (get_elem? txs j ≡ some tx)

  Among-cons_some :
      (o : Option (PrepareCrossTx D)) (rest : List (PrepareCrossTx D)) (tx : PrepareCrossTx D)
      → Among tx rest
      → Among tx (cons_some o rest)
  Among-cons_some none rest tx m = m
  Among-cons_some (some x) rest tx (j, at) = (suc j, at)

  Found-all :
      (es : List (Option Bytes)) (start i : ℕ) (ebytes : Option Bytes) (tx : PrepareCrossTx D)
      (txs : List (PrepareCrossTx D))
      → all start es ≡ ok txs
      → get_elem? es i ≡ some ebytes
      → Chosen (start + i) ebytes tx
      → Among tx txs
  unfolding prepare_all
  Found-all [] start i ebytes tx txs h at c = absurd (ground arith)
  Found-all (x ∷ es) start zero ebytes tx txs h at c = >>=-ok (turn start x) _ h (λ o e h1.
      >>=-ok (all (suc start) es) _ h1 (λ rest f h2.
        let same : x ≡ ebytes = ground arith in
        let first : turn start x ≡ ok (some tx) =
          ap (turn start) same
          ∙ (IsChosen-one protos number accept flags) start ebytes tx
              (subst (λ n. Chosen n ebytes tx) (omega arith) c) in
        let head : o ≡ some tx = ok-injective (sym e ∙ first) in
        (
          0,
          ap (λ l. get_elem? l 0) (sym (ok-injective h2))
              ∙ ap (λ y. get_elem? (cons_some y rest) 0) head,
        )))
  Found-all (x ∷ es) start (suc i) ebytes tx txs h at c = >>=-ok (turn start x) _ h (λ o e h1.
      >>=-ok (all (suc start) es) _ h1 (λ rest f h2. subst (Among tx) (ok-injective h2) (
        Among-cons_some o rest tx (
          Found-all es (suc start) i ebytes tx rest f at
            (subst (λ n. Chosen n ebytes tx) (omega arith) c)))))

  some_txs-eq-ok : (l txs : List (PrepareCrossTx D)) → some_txs protos number l ≡ ok txs → l ≡ txs
  unfolding some_txs
  some_txs-eq-ok [] txs h = absurd (cc)
  some_txs-eq-ok (x ∷ l) txs h = ok-injective h

  -- Of a block whose header, metadata and data are there, GetPrepareCrossTxs gives the transactions that
  -- are chosen, and no others: those whose entry is marked as valid, is an endorser transaction and has a first
  -- event that passes the filter, with the number of the block and the fields of their header and event.
  pub get_prepare_cross_txs_iff :
      (block : Block) (metadata : List Bytes) (envelopes : List (Option Bytes))
      (txs : List (PrepareCrossTx D)) (tx : PrepareCrossTx D)
      → block.header ≡ some number
      → block.metadata ≡ some metadata
      → get_elem? metadata protos.transactions_filter ≡ some flags
      → block.envelopes ≡ some envelopes
      → get_prepare_cross_txs protos block accept ≡ ok txs
      → Among tx txs ↔ Found 0 envelopes tx
  unfolding get_prepare_cross_txs
  get_prepare_cross_txs_iff block metadata envelopes txs tx hn hm hf he h =
      let body : (all 0 envelopes >>= some_txs protos number) ≡ ok txs =
        ground (arith, hn, hm, hf, he) in
      >>=-ok (all 0 envelopes) _ body (λ l e h1.
        let given : all 0 envelopes ≡ ok txs = e ∙ ap ok (some_txs-eq-ok l txs h1) in
        (
          λ m. let (j, at) = m in all-Found envelopes 0 j tx txs given at,
          λ f. let (i, ebytes, at, c) = f in Found-all envelopes 0 i ebytes tx txs given at c,
        ))
