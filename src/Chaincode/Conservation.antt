-- ===== src/Chaincode/Conservation.antt =====
-- What a transfer does to the ledger.
use crosshub.Prelude.{
  ℕ, ◌+◌, ◌%◌, ◌^◌, ◌<◌, ◌≡◌, sym, ap, ◌≢◌, Bool, true, false, [], ◌∷◌, String, str_eq, eq_iff,
  eq_refl, str_eq_ne, Option, none, some, ok, if◌then◌else◌, arith,
}
use crosshub.Prelude.Action.{and_then-ok, retag-ok, ◌>>◌}
use crosshub.Chaincode.Stub.{
  Stub, IsStub, Strconv, IsStrconv, CcError, shim_error, bad_amount, sub64, add64, put, emit,
}
use crosshub.Chaincode.Transfer.{get_entity, checked, do_invoke}

module _ {D : Type 0} (stub : Stub D) (lawful : IsStub stub) where
  open stub use {State}
  open lawful use {committed, written}

  pub put-ok :
      (s s' : State) (k : String) (d : D)
      → put stub k d s ≡ (s', ok tt)
      → stub.put_state k d s ≡ (s', ok tt)
  put-ok s s' k d h = retag-ok shim_error (stub.put_state k d s) h

  pub emit-ok :
      (s s' : State) (k : String) (d : D)
      → emit stub k d s ≡ (s', ok tt)
      → stub.set_event k d s ≡ (s', ok tt)
  emit-ok s s' k d h = retag-ok shim_error (stub.set_event k d s) h

module _ {D : Type 0} (stub : Stub D) (lawful : IsStub stub) (conv : Strconv D) where
  open stub use {State}
  open lawful use {committed, written}

  get_entity-ok :
      (s s' : State) (k : String) (d : D)
      → get_entity stub conv k s ≡ (s', ok d)
      → (s' ≡ s) × (committed s k ≡ some d)
  get_entity-ok s s' k d h = ground (arith, lawful.get_state-ok s k (some d))

  checked-ok :
      (s s' : State) (r : ℕ × Bool) (e : CcError) (n : ℕ)
      → checked stub conv r e s ≡ (s', ok n)
      → (s' ≡ s) × (n ≡ r.0)
  checked-ok s s' (m, true) e n h = (cc, cc)
  checked-ok s s' (m, false) e n h = cc

  -- Two writes and an event, one after the other.
  two_writes :
      (s s1 s2 s' : State) (a b e : String) (v w d : D)
      → put stub a v s ≡ (s1, ok tt)
      → put stub b w s1 ≡ (s2, ok tt)
      → emit stub e d s2 ≡ (s', ok tt)
      → ((j : String)
          → written s' j
            ≡ (if str_eq b j then some w else if str_eq a j then some v else written s j))
        × (lawful.event s' ≡ some (e, d))
  two_writes s s1 s2 s' a b e v w d h1 h2 h3 = (
    λ j. cc (
      lawful.set_event-written s2 s' e d (emit-ok stub lawful s2 s' e d h3) j,
      lawful.put_state-written s1 s2 b w (put-ok stub lawful s1 s2 b w h2) j,
      lawful.put_state-written s s1 a v (put-ok stub lawful s s1 a v h1) j,
    ),
    lawful.set_event-event s2 s' e d (emit-ok stub lawful s2 s' e d h3),
  )

  -- The ledger and the event after a transfer from `a` to `b`.
  abbrev pub Transferred : State → State → String → String → D → D → ℕ → Type 0
  Transferred s s' a b da db x =
      ((j : String)
        → written s' j ≡ (
            if str_eq b j
            then some (conv.itoa (add64 (conv.atoi_bytes db).0 x))
            else if str_eq a j
            then some (conv.itoa (sub64 (conv.atoi_bytes da).0 x))
            else written s j))
      × (lawful.event s' ≡ some ("evtTransfer", conv.transfer_message a b x))

  -- A transfer that succeeds finds both entities and writes their new balances, the second one last;
  -- it writes no other key, and its event is the transfer.
  pub do_invoke_effect :
      (s s' : State) (a b amount : String)
      → do_invoke stub conv (a ∷ b ∷ amount ∷ []) s ≡ (s', ok tt)
      → (da : D) × (db : D) × (committed s a ≡ some da)
        × (committed s b ≡ some db)
        × Transferred s s' a b da db (conv.atoi amount).0
  unfolding do_invoke
  do_invoke_effect s s' a b amount h = and_then-ok _ _ h λ s1 da e1 k1.
      and_then-ok _ _ k1 λ s2 db e2 k2. and_then-ok _ _ k2 λ s3 x e3 k3.
        let v = conv.itoa (sub64 (conv.atoi_bytes da).0 x) in
        let w = conv.itoa (add64 (conv.atoi_bytes db).0 x) in
        let d = conv.transfer_message a b x in
        and_then-ok (put stub a v s3) (λ _. put stub b w >> emit stub "evtTransfer" d) k3
          λ s4 _ e4 k4.
            and_then-ok (put stub b w s4) (λ _. emit stub "evtTransfer" d) k4
              λ s5 _ e5 k5.
                let (p1, c1) = get_entity-ok s s1 a da e1 in
                let (p2, c2) = get_entity-ok s1 s2 b db e2 in
                let (p3, x3) = checked-ok s2 s3 (conv.atoi amount) bad_amount x e3 in
                let (w, ev) = two_writes s3 s4 s5 s' a b "evtTransfer" v w d e4 e5 k5 in
                (da, db, c1, cc (p1, c2), (λ j. cc (w j), cc (ev, x3)))

module _ {D : Type 0} (conv : Strconv D) where
  -- The balance that the chaincode reads from a ledger entry.
  abbrev pub balance : Option D → ℕ
  balance none = 0
  balance (some d) = (conv.atoi_bytes d).0

  pub balance-itoa :
      (exact : IsStrconv conv) (n : ℕ) → n < 2 ^ 64 → balance (some (conv.itoa n)) ≡ n
  balance-itoa exact n h = ap (λ r. r.0) (exact.atoi-itoa n h)

module _ {D : Type 0} (stub : Stub D) (lawful : IsStub stub) (conv : Strconv D)
    (exact : IsStrconv conv) where
  open stub use {State}
  open lawful use {committed, written}

  -- A transfer between two different entities that succeeds keeps the sum of their balances, as 64-bit
  -- integers, and changes no other key.
  pub do_invoke_conserves :
      (s s' : State) (a b amount : String)
      → a ≢ b
      → do_invoke stub conv (a ∷ b ∷ amount ∷ []) s ≡ (s', ok tt)
      → ((balance conv (written s' a) + balance conv (written s' b)) % 2 ^ 64
          ≡ (balance conv (committed s a) + balance conv (committed s b)) % 2 ^ 64)
        × ((j : String) → j ≢ a → j ≢ b → written s' j ≡ written s j)
  do_invoke_conserves s s' a b amount ne h =
      let (da, db, ca, cb, (w, _)) = do_invoke_effect stub lawful conv s s' a b amount h in
      let x = (conv.atoi amount).0 in
      let at_b : balance conv (written s' b) ≡ add64 (conv.atoi_bytes db).0 x =
        rw (w b, eq_refl b) (balance-itoa conv exact _ (omega arith)) in
      let at_a : balance conv (written s' a) ≡ sub64 (conv.atoi_bytes da).0 x =
        rw (w a, str_eq_ne b a (λ e. ne (sym e)), eq_refl a)
          (balance-itoa conv exact _ (omega arith)) in
      (
        rw (at_a, at_b, ca, cb) (omega (arith, exact.atoi_range amount)),
        λ j na nb. ground (arith, w j, eq_iff b j, eq_iff a j),
      )

  -- A transfer of an entity to itself that succeeds adds the amount to its balance: the second write
  -- starts from the balance that was read before the first.
  do_invoke_self :
      (s s' : State) (a amount : String)
      → do_invoke stub conv (a ∷ a ∷ amount ∷ []) s ≡ (s', ok tt)
      → balance conv (written s' a) ≡ add64 (balance conv (committed s a)) (conv.atoi amount).0
  do_invoke_self s s' a amount h =
      let (da, db, ca, cb, (w, _)) = do_invoke_effect stub lawful conv s s' a a amount h in
      rw (w a, eq_refl a, cb) (balance-itoa conv exact _ (omega arith))
