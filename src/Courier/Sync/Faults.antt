-- ===== src/Courier/Sync/Faults.antt =====
-- The errors of GetPrepareCrossTxs.
use Prim.Native.String.{◌++◌ as str_append}
use crosshub.Prelude.{
  ℕ, suc, ◌+◌, ◌≡◌, refl, ap, ◌∙◌, subst, Bool, false, Bytes, List, [], ◌∷◌, get_elem?, ◌⊎◌, inl,
  inr, String, Option, none, some, Run, ok, err, panic, Run-cases, Bool-cases, Option-cases, ◌==◌,
  arith,
}
use crosshub.Courier.Sync.Filter.{
  Block, ChannelHeader, Protos, PrepareCrossTx, contains, get_tx_events, get_channel_header,
  parse_envelope_payload, prepared, with_event, with_header, prepare_tx, prepare_flagged,
  prepare_all, some_txs, get_prepare_cross_txs,
}

-- Errors of the filter, where it does not accept the empty name.
module _ {D : Type 0} (protos : Protos D) (number : ℕ) (accept : String → Bool) (flags : Bytes)
    (named : accept "" ≡ false) where
  abbrev Unparsed : ℕ → List (Option Bytes) → String → Type 0
  Unparsed start es e =
      (i : ℕ) × (ebytes : Option Bytes) × (get_elem? es i ≡ some ebytes)
      × (parse_envelope_payload protos (start + i) ebytes ≡ err e)

  with_event-err :
      (chdr : Option ChannelHeader) (r : Run String (String × D)) (e : String)
      → with_event protos number accept chdr r ≡ err e
      → ⊥
  unfolding with_event prepared
  with_event-err chdr (ok event) e h = elim (Bool-cases (accept event.0)) [
    | inl a ↦ elim (Option-cases chdr) [
      | inl n ↦ ground (arith, a, n)
      | inr (c, n) ↦ ground (arith, a, n)
    ]
    | inr a ↦ ground (arith, a)
  ]
  with_event-err chdr (err x) e h = elim (Bool-cases (contains x "no chaincode event")) [
    | inl c ↦ ground (arith, c)
    | inr c ↦ ground (arith, c, named)
  ]
  with_event-err chdr panic e h = cc

  with_header-err :
      (payload : Bytes) (r : Run String ChannelHeader) (e : String)
      → with_header protos number accept payload r ≡ err e
      → ⊥
  unfolding with_header
  with_header-err payload (ok chdr) e h =
      with_event-err (some chdr) (get_tx_events protos payload) e h
  with_header-err payload (err x) e h =
      elim (Bool-cases (contains x "HeaderType_ENDORSER_TRANSACTION")) [
        | inl c ↦ ground (arith, c)
        | inr c ↦ with_event-err none (get_tx_events protos payload) e (ground (arith, c))
      ]
  with_header-err payload panic e h = cc

  prepare_flagged-err :
      (i : ℕ) (ebytes : Option Bytes) (e : String)
      → prepare_flagged protos number accept flags i ebytes ≡ err e
      → parse_envelope_payload protos i ebytes ≡ err e
  unfolding prepare_flagged prepare_tx
  prepare_flagged-err i ebytes e h = elim (Option-cases (get_elem? flags i)) [
    | inl n ↦ absurd (ground (arith, n))
    | inr (flag, n) ↦ elim (Bool-cases (flag == protos.valid)) [
      | inl v ↦
          Run-cases (parse_envelope_payload protos i ebytes)
            (λ p f.
              absurd (
                with_header-err (p.1) (get_channel_header protos (p.0)) e
                  (ground (arith, n, v, f))))
            (λ x f. f ∙ ap err (ground (arith, n, v, f))) (λ f. absurd (ground (arith, n, v, f)))
      | inr v ↦ absurd (ground (arith, n, v))
    ]
  ]

  prepare_all-err :
      (es : List (Option Bytes)) (start : ℕ) (e : String)
      → prepare_all protos number accept flags start es ≡ err e
      → Unparsed start es e
  unfolding prepare_all
  prepare_all-err [] start e h = absurd (cc)
  prepare_all-err (x ∷ es) start e h =
      Run-cases (prepare_flagged protos number accept flags start x)
        (λ o f.
          Run-cases (prepare_all protos number accept flags (suc start) es)
            (λ l g. absurd (ground (arith, f, g)))
            (λ y g.
              let (i, ebytes, at, u) =
                prepare_all-err es (suc start) e (g ∙ ap err (ground (arith, f, g))) in
              (
                suc i,
                ebytes,
                at,
                subst (λ n. parse_envelope_payload protos n ebytes ≡ err e) (omega arith) u,
              ))
            (λ g. absurd (ground (arith, f, g))))
        (λ y f.
          let same : y ≡ e = ground (arith, f) in
          (
            0,
            x,
            refl,
            subst (λ n. parse_envelope_payload protos n x ≡ err e) (omega arith)
                (prepare_flagged-err start x e (f ∙ ap err same)),
          ))
        (λ f. absurd (ground (arith, f)))

  some_txs-err :
      (l : List (PrepareCrossTx D)) (e : String)
      → some_txs protos number l ≡ err e
      → e ≡ str_append "ignore block " (protos.itoa number)
  unfolding some_txs
  some_txs-err [] e h = cc
  some_txs-err (x ∷ l) e h = absurd (cc)

  -- A filter that does not accept the empty name makes GetPrepareCrossTxs drop every error of an event and of
  -- a header: of a block whose parts are there, it fails with an error of ParseEnvelopePayload, or because
  -- the block has no transaction for the courier.
  pub get_prepare_cross_txs-err :
      (block : Block) (metadata : List Bytes) (envelopes : List (Option Bytes)) (e : String)
      → block.header ≡ some number
      → block.metadata ≡ some metadata
      → get_elem? metadata protos.transactions_filter ≡ some flags
      → block.envelopes ≡ some envelopes
      → get_prepare_cross_txs protos block accept ≡ err e
      → Unparsed 0 envelopes e ⊎ (e ≡ str_append "ignore block " (protos.itoa number))
  unfolding get_prepare_cross_txs some_txs
  get_prepare_cross_txs-err block metadata envelopes e hn hm hf he h =
      Run-cases (prepare_all protos number accept flags 0 envelopes)
        (λ l f. inr (some_txs-err l e (ground (arith, hn, hm, hf, he, f))))
        (λ x f.
          inl (prepare_all-err envelopes 0 e (f ∙ ap err (ground (arith, hn, hm, hf, he, f)))))
        (λ f. absurd (ground (arith, hn, hm, hf, he, f)))
