-- ===== src/Courier/Sync/Entry.antt =====
-- When an entry of a block becomes a transaction for the courier.

use crosshub.Prelude.{
  ℕ, ◌≡◌, refl, sym, ap, ◌∙◌, Bool, true, Bytes, get_elem?, inl, inr, String, Option, none, some,
  Run, ok, err, panic, or_else, >>=-ok, Bool-cases, ◌==◌, ==_iff, arith,
}
use crosshub.Courier.Sync.Filter.{
  ChannelHeader, Protos, PrepareCrossTx, contains, get_tx_events, get_channel_header,
  parse_envelope_payload, prepared, with_event, with_header, prepare_tx, prepare_flagged,
}

none_ne_some : {A : Type 0} (a : A) → ◌≡◌ {A = Option A} none (some a) → ⊥
none_ne_some a h = cc

some-injective : {A : Type 0} (a b : A) → some a ≡ some b → a ≡ b
some-injective a b h = cc

or_panic-eq-ok :
    {A : Type 0} (o : Option A) {a : A} → or_else {E = String} o panic ≡ ok a → o ≡ some a
or_panic-eq-ok none h = cc
or_panic-eq-ok (some x) h = cc

module _ {D : Type 0} (protos : Protos D) (number : ℕ) (accept : String → Bool)
    (flags : Bytes) where
  -- The entry is marked as valid, is of an endorser transaction, and its first event passes the filter.
  pub record IsChosen (i : ℕ) (ebytes : Option Bytes) (tx : PrepareCrossTx D) : Type 0 where
    pub header : Bytes
    pub payload : Bytes
    pub chdr : ChannelHeader
    pub is_valid : get_elem? flags i ≡ some protos.valid
    pub is_envelope : parse_envelope_payload protos i ebytes ≡ ok (header, payload)
    pub is_endorsed : get_channel_header protos header ≡ ok chdr
    pub is_event : get_tx_events protos payload ≡ ok (tx.event_name, tx.payload)
    pub is_accepted : accept tx.event_name ≡ true
    pub of_number : tx.block_number ≡ number
    pub of_header : (tx.tx_id ≡ chdr.tx_id) × (tx.time_stamp ≡ chdr.time_stamp)

  abbrev pub one : ℕ → Option Bytes → Run String (Option (PrepareCrossTx D))
  one = prepare_flagged protos number accept flags

  -- What the event and the header of a transaction that is given were.
  record IsTaken (chdr : Option ChannelHeader) (r : Run String (String × D)) (tx : PrepareCrossTx D)
      : Type 0 where
    header : ChannelHeader
    has_header : chdr ≡ some header
    is_event : r ≡ ok (tx.event_name, tx.payload)
    is_accepted : accept tx.event_name ≡ true
    of_number : tx.block_number ≡ number
    of_header : (tx.tx_id ≡ header.tx_id) × (tx.time_stamp ≡ header.time_stamp)

  with_event-IsTaken :
      (chdr : Option ChannelHeader) (r : Run String (String × D)) (tx : PrepareCrossTx D)
      → with_event protos number accept chdr r ≡ ok (some tx)
      → IsTaken chdr r tx
  unfolding with_event prepared
  with_event-IsTaken (some header) (ok event) tx h = elim (Bool-cases (accept event.0)) [
    | inl a ↦
        let name : event.0 ≡ tx.event_name = ground (arith, a) in
        let content : event.1 ≡ tx.payload = ground (arith, a) in
        record {
          header = header;
          has_header = refl;
          is_event = ground (arith, name, content);
          is_accepted = ap accept (sym name) ∙ a;
          of_number = ground (arith, a);
          of_header = (ground (arith, a), ground (arith, a));
        }
    | inr a ↦ absurd (ground (arith, a))
  ]
  with_event-IsTaken none (ok event) tx h = elim (Bool-cases (accept event.0)) [
    | inl a ↦ absurd (ground (arith, a))
    | inr a ↦ absurd (ground (arith, a))
  ]
  with_event-IsTaken chdr (err x) tx h = elim (Bool-cases (contains x "no chaincode event")) [
    | inl c ↦ absurd (ground (arith, c))
    | inr c ↦ elim (Bool-cases (accept "")) [
      | inl a ↦ absurd (ground (arith, c, a))
      | inr a ↦ absurd (ground (arith, c, a))
    ]
  ]
  with_event-IsTaken chdr panic tx h = absurd (cc)

  with_header-IsTaken :
      (payload : Bytes) (r : Run String ChannelHeader) (tx : PrepareCrossTx D)
      → with_header protos number accept payload r ≡ ok (some tx)
      → (chdr : ChannelHeader) × (r ≡ ok chdr)
        × IsTaken (some chdr) (get_tx_events protos payload) tx
  unfolding with_header
  with_header-IsTaken payload (ok chdr) tx h =
      (chdr, refl, with_event-IsTaken (some chdr) (get_tx_events protos payload) tx h)
  with_header-IsTaken payload (err x) tx h =
      elim (Bool-cases (contains x "HeaderType_ENDORSER_TRANSACTION")) [
        | inl c ↦ absurd (ground (arith, c))
        | inr c ↦
            let taken =
              with_event-IsTaken none (get_tx_events protos payload) tx (ground (arith, c)) in
            absurd (none_ne_some taken.header taken.has_header)
      ]
  with_header-IsTaken payload panic tx h = absurd (cc)

  with_header-IsChosen :
      (i : ℕ) (ebytes : Option Bytes) (header payload : Bytes) (tx : PrepareCrossTx D)
      → get_elem? flags i ≡ some protos.valid
      → parse_envelope_payload protos i ebytes ≡ ok (header, payload)
      → with_header protos number accept payload (get_channel_header protos header) ≡ ok (some tx)
      → IsChosen i ebytes tx
  with_header-IsChosen i ebytes header payload tx valid parsed h =
      let (chdr, e, taken) = with_header-IsTaken payload (get_channel_header protos header) tx h in
      record {
        header = header;
        payload = payload;
        chdr = taken.header;
        is_valid = valid;
        is_envelope = parsed;
        is_endorsed = e ∙ ap ok (some-injective chdr taken.header taken.has_header);
        is_event = taken.is_event;
        is_accepted = taken.is_accepted;
        of_number = taken.of_number;
        of_header = taken.of_header;
      }

  pub one-IsChosen :
      (i : ℕ) (ebytes : Option Bytes) (tx : PrepareCrossTx D)
      → one i ebytes ≡ ok (some tx)
      → IsChosen i ebytes tx
  unfolding prepare_flagged prepare_tx
  one-IsChosen i ebytes tx h = >>=-ok (or_else (get_elem? flags i) panic) _ h (λ flag e h1.
      elim (Bool-cases (flag == protos.valid)) [
        | inl v ↦
            >>=-ok (parse_envelope_payload protos i ebytes) _ (ground (arith, v)) (λ parsed f h2.
              with_header-IsChosen i ebytes (parsed.0) (parsed.1) tx
                (or_panic-eq-ok (get_elem? flags i) e ∙ ap some ((==_iff flag protos.valid).0 v)) f
                h2)
        | inr v ↦ absurd (ground (arith, v))
      ])

  pub IsChosen-one :
      (i : ℕ) (ebytes : Option Bytes) (tx : PrepareCrossTx D)
      → IsChosen i ebytes tx
      → one i ebytes ≡ ok (some tx)
  unfolding prepare_flagged prepare_tx with_header with_event prepared
  IsChosen-one i ebytes tx c =
      let same : (protos.valid == protos.valid) ≡ true =
        (==_iff protos.valid protos.valid).1 refl in
      ground (
        arith, c.is_valid, same, c.is_envelope, c.is_endorsed, c.is_event, c.is_accepted,
        c.of_number, c.of_header,
      )
