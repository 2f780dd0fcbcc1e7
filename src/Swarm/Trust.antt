-- ===== src/Swarm/Trust.antt =====
-- Which peers the messages make connected.
use crosshub.Prelude.{
  ℕ, zero, suc, ◌≡◌, refl, sym, ap, ◌∙◌, subst, Bool, true, false, Bool-cases, Option-cases, ◌==◌,
  List, [], ◌∷◌, get_elem?, ◌⊎◌, inl, inr, String, str_eq, eq_iff, some, Run, ok, err, panic, arith,
}
use crosshub.Wire.Frame.{Msg}
use crosshub.Swarm.Certs.{X509, CertError, check_certs}
use crosshub.Swarm.Peers.{AddrInfo, Host}
use crosshub.Swarm.Messages.{
  CertsMessage, Codec, Swarm, store_peer, connect_one, connect_named, fetch_cert, after_check,
  on_get_cert, handle_swarm_message,
}
use crosshub.Swarm.Chain.{IsChain, check_certs-IsChain}

module _ (x509 : X509) (codec : Codec) (host : Host Msg) where
  abbrev S : Type 0
  S = Swarm x509 codec host

  -- A message with a chain of certificates that names a peer of the network configuration.
  pub record Admits (ca_cert : x509.Certificate) (peers : List (ℕ × AddrInfo)) (msg : Msg)
      (addr : AddrInfo) : Type 0 where
    pub certs : CertsMessage
    pub decoded : codec.decode_certs msg ≡ some certs
    pub chain : IsChain x509 certs ca_cert
    pub named : addr.id ≡ certs.id
    pub known : (j n : ℕ) × (get_elem? peers j ≡ some (n, addr))

  abbrev pub Among : {A : Type 0} → A → List A → Type 0
  Among a l = (i : ℕ) × (get_elem? l i ≡ some a)

  store_head :
      (a addr : AddrInfo) (rest : List AddrInfo) (b : AddrInfo) (i : ℕ)
      → get_elem? (a ∷ rest) i ≡ some addr
      → (a ≡ addr) ⊎ Among addr (b ∷ rest)
  store_head a addr rest b zero e = inl (ground arith)
  store_head a addr rest b (suc i) e = inr (suc i, e)

  store_tail :
      (a addr : AddrInfo) (rest l : List AddrInfo) (b : AddrInfo) (i : ℕ)
      → get_elem? (b ∷ l) i ≡ some addr
      → (Among addr l → (a ≡ addr) ⊎ Among addr rest)
      → (a ≡ addr) ⊎ Among addr (b ∷ rest)
  store_tail a addr rest l b zero e tail = inr (0, e)
  store_tail a addr rest l b (suc i) e tail = elim (tail (i, e)) [
    | inl same ↦ inl same
    | inr (j, at) ↦ inr (suc j, at)
  ]

  pub store_peer-Among :
      (a addr : AddrInfo) (l : List AddrInfo)
      → Among addr (store_peer a l)
      → (a ≡ addr) ⊎ Among addr l
  unfolding store_peer
  store_peer-Among a addr [] (zero, e) = inl (ground arith)
  store_peer-Among a addr [] (suc i, e) = absurd (cc)
  store_peer-Among a addr (b ∷ rest) (i, e) = elim (Bool-cases (str_eq b.id a.id)) [
    | inl t ↦ store_head a addr rest b i (ground (arith, t))
    | inr t ↦
        store_tail a addr rest (store_peer a rest) b i (ground (arith, t))
          (store_peer-Among a addr rest)
  ]

  connect_one-Among :
      (b : Bool) (a addr : AddrInfo) (l : List AddrInfo)
      → Among addr (connect_one x509 codec host b a l)
      → ((b ≡ true) × (a ≡ addr)) ⊎ Among addr l
  connect_one-Among true a addr l m = elim (store_peer-Among a addr l m) [
    | inl same ↦ inl (refl, same)
    | inr before ↦ inr before
  ]
  connect_one-Among false a addr l m = inr m

  abbrev pub Known : List (ℕ × AddrInfo) → AddrInfo → Type 0
  Known peers addr = (j n : ℕ) × (get_elem? peers j ≡ some (n, addr))

  connect_named-Among :
      (name : String) (peers : List (ℕ × AddrInfo)) (connected : List AddrInfo) (addr : AddrInfo)
      → Among addr (connect_named x509 codec host name peers connected)
      → Among addr connected ⊎ ((addr.id ≡ name) × Known peers addr)
  connect_named-Among name [] connected addr m = inl m
  connect_named-Among name ((n, a) ∷ rest) connected addr m =
      elim (connect_one-Among (str_eq a.id name) a addr
        (connect_named x509 codec host name rest connected) m) [
          | inl (b, same) ↦ inr (
            ap (λ x. x.id) (sym same) ∙ (eq_iff a.id name).0 b,
            (0, n, ap (λ x. some (n, x)) same),
          )
          | inr more ↦ elim (connect_named-Among name rest connected addr more) [
            | inl before ↦ inl before
            | inr (named, (j, k, at)) ↦ inr (named, (suc j, k, at))
          ]
        ]

  -- What a message leaves alone, and where a connected peer comes from.
  pub record Admission (msg : Msg) (sw sw' : S) : Type 0 where
    pub same_peers : sw'.peers ≡ sw.peers
    pub same_ca : sw'.ca_cert ≡ sw.ca_cert
    pub admitted :
        (addr : AddrInfo)
        → Among addr sw'.connected_peers
        → Among addr sw.connected_peers ⊎ Admits sw.ca_cert sw.peers msg addr

  unchanged :
      (msg : Msg) (sw sw' : S)
      → sw'.peers ≡ sw.peers
      → sw'.ca_cert ≡ sw.ca_cert
      → sw'.connected_peers ≡ sw.connected_peers
      → Admission msg sw sw'
  unchanged msg sw sw' p c k = record {
    same_peers = p;
    same_ca = c;
    admitted = λ addr m. inl (subst (Among addr) k m);
  }

  fetch_cert_same :
      (s : host.Stream) (sw : S)
      → (((fetch_cert x509 codec host s sw).0).peers ≡ sw.peers)
        × (((fetch_cert x509 codec host s sw).0).ca_cert ≡ sw.ca_cert)
        × (((fetch_cert x509 codec host s sw).0).connected_peers ≡ sw.connected_peers)
  unfolding fetch_cert
  fetch_cert_same s sw = elim (Option-cases (codec.certs_msg 2 sw.self_certs)) [
    | inl n ↦ (ground (arith, n), ground (arith, n), ground (arith, n))
    | inr (m, n) ↦ (ground (arith, n), ground (arith, n), ground (arith, n))
  ]

  after_check-Admission :
      (s : host.Stream) (msg : Msg) (certs : CertsMessage) (r : Run CertError (Unit {0})) (sw : S)
      → codec.decode_certs msg ≡ some certs
      → check_certs x509 certs.node_cert certs.agency_cert sw.ca_cert ≡ r
      → Admission msg sw ((after_check x509 codec host s certs r sw).0)
  unfolding after_check
  after_check-Admission s msg certs (ok u) sw d c =
      let sw1 : S = record sw {
        connected_peers = connect_named x509 codec host certs.id sw.peers sw.connected_peers;
      } in
      let (p, a, k) = fetch_cert_same s sw1 in
      record {
        same_peers = p;
        same_ca = a;
        admitted = λ addr m.
            elim (connect_named-Among certs.id sw.peers sw.connected_peers addr
              (subst (Among addr) k m)) [
                | inl before ↦ inl before
                | inr (named, known) ↦ inr (record {
                  certs = certs;
                  decoded = d;
                  chain = check_certs-IsChain x509 certs sw.ca_cert c;
                  named = named;
                  known = known;
                })
              ];
      }
  after_check-Admission s msg certs (err e) sw d c = unchanged msg sw sw refl refl refl
  after_check-Admission s msg certs panic sw d c = unchanged msg sw sw refl refl refl

  pub handle_swarm_message-Admission :
      (s : host.Stream) (msg : Msg) (sw : S)
      → Admission msg sw ((handle_swarm_message x509 codec host s msg sw).0)
  unfolding handle_swarm_message on_get_cert
  handle_swarm_message-Admission s msg sw = elim (Bool-cases (msg.code == 1)) [
    | inl b ↦ elim (Option-cases (codec.decode_certs msg)) [
      | inl n ↦
          unchanged msg sw _ (ground (arith, b, n)) (ground (arith, b, n)) (ground (arith, b, n))
      | inr (certs, n) ↦
          let same : after_check x509 codec host s certs
                (check_certs x509 certs.node_cert certs.agency_cert sw.ca_cert) sw
              ≡ handle_swarm_message x509 codec host s msg sw =
            ground (arith, b, n) in
          subst (λ r. Admission msg sw (r.0)) same (after_check-Admission s msg certs _ sw n refl)
    ]
    | inr b ↦ elim (Bool-cases (msg.code == 3)) [
      | inl c ↦
          unchanged msg sw _ (ground (arith, b, c)) (ground (arith, b, c)) (ground (arith, b, c))
      | inr c ↦ elim (Bool-cases (msg.code == 4)) [
        | inl d ↦
            unchanged msg sw _ (ground (arith, b, c, d)) (ground (arith, b, c, d))
              (ground (arith, b, c, d))
        | inr d ↦
            unchanged msg sw _ (ground (arith, b, c, d)) (ground (arith, b, c, d))
              (ground (arith, b, c, d))
      ]
    ]
  ]

  -- The messages of the peers, one after the other.
  abbrev handle_all : List (host.Stream × Msg) → S → S
  handle_all [] sw = sw
  handle_all ((s, msg) ∷ rest) sw =
      handle_all rest ((handle_swarm_message x509 codec host s msg sw).0)

  -- After any messages, a connected peer was connected before, or one of the messages named it, a peer of the
  -- network configuration, and brought certificates that can be read, are in their time, and are signed, the
  -- agency's by the authority and the node's by the agency.
  handle_all-Admits :
      (messages : List (host.Stream × Msg)) (sw : S) (addr : AddrInfo)
      → Among addr (handle_all messages sw).connected_peers
      → Among addr sw.connected_peers
        ⊎ ((k : ℕ) × (s : host.Stream) × (msg : Msg) × (get_elem? messages k ≡ some (s, msg))
            × Admits sw.ca_cert sw.peers msg addr)
  handle_all-Admits [] sw addr m = inl m
  handle_all-Admits ((s, msg) ∷ rest) sw addr m =
      let step = handle_swarm_message-Admission s msg sw in
      elim (handle_all-Admits rest ((handle_swarm_message x509 codec host s msg sw).0) addr m) [
        | inl here ↦ elim (step.admitted addr here) [
          | inl before ↦ inl before
          | inr now ↦ inr (0, s, msg, refl, now)
        ]
        | inr (k, s', msg', at, a) ↦ inr (
          suc k,
          s',
          msg',
          at,
          subst (λ c. Admits c sw.peers msg' addr) step.same_ca
              (subst
                (λ p.
                  Admits (((handle_swarm_message x509 codec host s msg sw).0).ca_cert) p msg' addr)
                step.same_peers a),
        )
      ]
