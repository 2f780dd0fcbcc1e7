-- ===== src/Swarm/Presented.antt =====
-- Which peers a running swarm counts as connected.
use crosshub.Prelude.{
  ℕ, suc, ◌≡◌, refl, ◌∙◌, subst, Bool, true, false, Bool-cases, Option-cases, ◌==◌, List, [], ◌∷◌,
  get_elem?, ◌⊎◌, inl, inr, some, Run, ok, err, panic, if◌then◌else◌, arith,
}
use crosshub.Wire.Frame.{Msg}
use crosshub.Swarm.Certs.{X509, CertError, disconnect_failed, send_failed, check_certs}
use crosshub.Swarm.Peers.{AddrInfo, Host, NetError, P2p, async_send, send_sync, disconnect}
use crosshub.Swarm.Messages.{
  CertsMessage, Codec, Swarm, store_peer, get_cert_msg, peer_of, after_answer_check, after_answer,
  try_peer, handle_swarm_message,
}
use crosshub.Swarm.Chain.{IsChain, check_certs-IsChain}
use crosshub.Swarm.Service.{
  Outside, attempt, swarm_broadcast, sent_by, answered_by, swarm_async_send, swarm_send, SwarmStep,
  received, attempted, announced, called_async_send, called_send, Reach, here, next,
}
use crosshub.Swarm.Trust.{Among, store_peer-Among, handle_swarm_message-Admission}

peer_of-known :
    (id : ℕ) (peers : List (ℕ × AddrInfo)) {addr : AddrInfo}
    → peer_of id peers ≡ some addr
    → (j n : ℕ) × (get_elem? peers j ≡ some (n, addr))
unfolding peer_of
peer_of-known id [] e = absurd (cc)
peer_of-known id ((n, a) ∷ rest) e = elim (Bool-cases (id == n)) [
  | inl b ↦ (0, n, ground (arith, b))
  | inr b ↦ let (j, k, at) = peer_of-known id rest (ground (arith, b)) in (suc j, k, at)
]

module _ (x509 : X509) (codec : Codec) (host : Host Msg) (out : Outside host) where
  abbrev S : Type 0
  S = Swarm x509 codec host

  -- How certificates came in for a peer in a step: in a message that can be decoded and names the peer's ID, or
  -- in the peer's own answer, on the network that Connect left.
  pub data Brought (certs : CertsMessage) (addr : AddrInfo) (sw : S) : S → Type 0 where
    by_message :
        (s : host.Stream) (msg : Msg)
        → codec.decode_certs msg ≡ some certs
        → addr.id ≡ certs.id
        → Brought certs addr sw ((handle_swarm_message x509 codec host s msg sw).0)
    by_answer :
        (id : ℕ) (dialled : AddrInfo) (asked answer : Msg)
        → peer_of id sw.peers ≡ some addr
        → (send_sync host addr asked
            (record sw.p2p { network = (out.connect dialled sw.p2p.network).0 })).1
          ≡ ok answer
        → certs ≡ codec.left_in_certs answer
        → Brought certs addr sw ((attempt x509 codec host out (id, dialled) sw).0)

  -- A peer of the network configuration, and a chain of certificates that came in for it in a step of a run.
  pub record Presented (start end : S) (ca_cert : x509.Certificate) (peers : List (ℕ × AddrInfo))
      (addr : AddrInfo) : Type 0 where
    pub certs : CertsMessage
    pub chain : IsChain x509 certs ca_cert
    pub known : (j n : ℕ) × (get_elem? peers j ≡ some (n, addr))
    pub before : S
    pub after : S
    pub came : Reach x509 codec host out start before
    pub brought : Brought certs addr before after
    pub went : Reach x509 codec host out after end

  -- The same of one step.
  record Fresh (sw sw' : S) (addr : AddrInfo) : Type 0 where
    certs : CertsMessage
    chain : IsChain x509 certs sw.ca_cert
    known : (j n : ℕ) × (get_elem? sw.peers j ≡ some (n, addr))
    brought : Brought certs addr sw sw'

  -- What a step leaves alone, and where a connected peer comes from.
  record Grown (W : AddrInfo → Type 0) (sw sw' : S) : Type 0 where
    same_peers : sw'.peers ≡ sw.peers
    same_ca : sw'.ca_cert ≡ sw.ca_cert
    grown :
        (addr : AddrInfo)
        → Among x509 codec host addr sw'.connected_peers
        → Among x509 codec host addr sw.connected_peers ⊎ W addr

  Grown-same :
      {W : AddrInfo → Type 0} (sw sw' : S)
      → sw'.peers ≡ sw.peers
      → sw'.ca_cert ≡ sw.ca_cert
      → sw'.connected_peers ≡ sw.connected_peers
      → Grown W sw sw'
  Grown-same sw sw' p c k = record {
    same_peers = p;
    same_ca = c;
    grown = λ addr m. inl (subst (Among x509 codec host addr) k m);
  }

  received-Grown :
      (s : host.Stream) (msg : Msg) (sw : S)
      → let sw' = (handle_swarm_message x509 codec host s msg sw).0 in Grown (Fresh sw sw') sw sw'
  received-Grown s msg sw =
      let a = handle_swarm_message-Admission x509 codec host s msg sw in
      record {
        same_peers = a.same_peers;
        same_ca = a.same_ca;
        grown = λ addr m. elim (a.admitted addr m) [
          | inl before ↦ inl before
          | inr now ↦ inr (record {
            certs = now.certs;
            chain = now.chain;
            known = now.known;
            brought = by_message s msg now.decoded now.named;
          })
        ];
      }

  -- A swarm with another network does the same.
  Grown-p2p :
      {W : AddrInfo → Type 0} (sw sw' : S) (p : P2p host)
      → Grown W (record sw { p2p = p }) sw'
      → Grown W sw sw'
  Grown-p2p sw sw' p g = record { same_peers = g.same_peers; same_ca = g.same_ca; grown = g.grown }

  -- What makes an answer good for a peer.
  abbrev Answered : (AddrInfo → Type 0) → AddrInfo → S → Run NetError Msg → Type 0
  Answered W addr sw r =
      (msg : Msg)
      → r ≡ ok msg
      → check_certs x509 (codec.left_in_certs msg).node_cert (codec.left_in_certs msg).agency_cert
          sw.ca_cert
        ≡ ok tt
      → W addr

  closed-Grown :
      {W : AddrInfo → Type 0} (addr : AddrInfo) (sw : S) (p : P2p host) (e : CertError)
      (closed : Bool)
      → W addr
      → let r : S × Run CertError (Unit {0}) =
          if closed
          then (record sw { p2p = p; connected_peers = store_peer addr sw.connected_peers }, ok tt)
          else (record sw { p2p = p }, err e) in
        Grown W sw (r.0)
  closed-Grown addr sw p e false a = Grown-same sw _ refl refl refl
  closed-Grown {W} addr sw p e true a = record {
    same_peers = refl;
    same_ca = refl;
    grown = λ a' m. elim (store_peer-Among x509 codec host addr a' sw.connected_peers m) [
      | inl same ↦ inr (subst W same a)
      | inr before ↦ inl before
    ];
  }

  after_answer_check-Grown :
      {W : AddrInfo → Type 0} (addr : AddrInfo) (sw : S) (r : Run CertError (Unit {0}))
      → (r ≡ ok tt → W addr)
      → Grown W sw ((after_answer_check x509 codec host addr sw r).0)
  unfolding after_answer_check
  after_answer_check-Grown addr sw (ok u) w =
      closed-Grown addr sw ((disconnect host addr sw.p2p).0) disconnect_failed
        ((disconnect host addr sw.p2p).1) (w refl)
  after_answer_check-Grown addr sw (err x) w = Grown-same sw sw refl refl refl
  after_answer_check-Grown addr sw panic w = Grown-same sw sw refl refl refl

  after_answer-Grown :
      {W : AddrInfo → Type 0} (addr : AddrInfo) (sw : S) (r : Run NetError Msg)
      → Answered W addr sw r
      → Grown W sw ((after_answer x509 codec host addr sw r).0)
  unfolding after_answer
  after_answer-Grown addr sw (ok msg) w = after_answer_check-Grown addr sw _ (w msg refl)
  after_answer-Grown addr sw (err e) w = Grown-same sw sw refl refl refl
  after_answer-Grown addr sw panic w = Grown-same sw sw refl refl refl

  try_peer-Grown :
      {W : AddrInfo → Type 0} (id : ℕ) (sw : S)
      → ((addr : AddrInfo) (asked : Msg)
          → peer_of id sw.peers ≡ some addr
          → Answered W addr sw ((send_sync host addr asked sw.p2p).1))
      → Grown W sw ((try_peer x509 codec host id sw).0)
  unfolding try_peer
  try_peer-Grown id sw w = elim (Option-cases (peer_of id sw.peers)) [
    | inl e ↦ rw (e, try_peer) (Grown-same sw sw refl refl refl)
    | inr (addr, e) ↦ elim (Option-cases (codec.certs_msg get_cert_msg sw.self_certs)) [
      | inl f ↦ rw (e, try_peer) (rw f (Grown-same sw sw refl refl refl))
      | inr (msg, f) ↦
          rw (e, try_peer)
            (rw f (
              Grown-p2p sw _ ((send_sync host addr msg sw.p2p).0) (
                after_answer-Grown addr (record sw { p2p = (send_sync host addr msg sw.p2p).0 })
                  ((send_sync host addr msg sw.p2p).1) (w addr msg e))))
    ]
  ]

  dialled-Grown :
      {W : AddrInfo → Type 0} (id : ℕ) (sw sw1 : S) (e : CertError) (connected : Bool)
      → Grown W sw sw1
      → Grown W sw ((try_peer x509 codec host id sw1).0)
      → let r : S × Run CertError (Unit {0}) =
          if connected then try_peer x509 codec host id sw1 else (sw1, err e) in
        Grown W sw (r.0)
  dialled-Grown id sw sw1 e true g h = h
  dialled-Grown id sw sw1 e false g h = g

  attempt-Grown_by :
      {W : AddrInfo → Type 0} (id : ℕ) (addr : AddrInfo) (sw : S)
      → let p : P2p host = record sw.p2p { network = (out.connect addr sw.p2p.network).0 } in
        ((a : AddrInfo) (asked : Msg)
          → peer_of id sw.peers ≡ some a
          → Answered W a (record sw { p2p = p }) ((send_sync host a asked p).1))
        → Grown W sw ((attempt x509 codec host out (id, addr) sw).0)
  unfolding attempt
  attempt-Grown_by id addr sw w =
      let p : P2p host = record sw.p2p { network = (out.connect addr sw.p2p.network).0 } in
      dialled-Grown id sw (record sw { p2p = p }) send_failed ((out.connect addr sw.p2p.network).1)
        (Grown-same sw _ refl refl refl)
        (Grown-p2p sw _ p (try_peer-Grown id (record sw { p2p = p }) w))

  attempt-Grown :
      (peer : ℕ × AddrInfo) (sw : S)
      → let sw' = (attempt x509 codec host out peer sw).0 in Grown (Fresh sw sw') sw sw'
  attempt-Grown (id, addr) sw = attempt-Grown_by id addr sw λ a asked e msg answered checked.
      record {
        certs = codec.left_in_certs msg;
        chain = check_certs-IsChain x509 (codec.left_in_certs msg) sw.ca_cert checked;
        known = peer_of-known id sw.peers e;
        brought = by_answer id addr asked msg e answered refl;
      }

  sent_by-Grown :
      {W : AddrInfo → Type 0} (sw : S) (r : P2p host × Run NetError (Unit {0}))
      → Grown W sw ((sent_by x509 codec host out sw r).0)
  sent_by-Grown sw (p, ok u) = Grown-same sw _ refl refl refl
  sent_by-Grown sw (p, err e) = Grown-same sw _ refl refl refl
  sent_by-Grown sw (p, panic) = Grown-same sw _ refl refl refl

  answered_by-Grown :
      {W : AddrInfo → Type 0} (sw : S) (r : P2p host × Run NetError Msg)
      → Grown W sw ((answered_by x509 codec host out sw r).0)
  answered_by-Grown sw (p, ok msg) = Grown-same sw _ refl refl refl
  answered_by-Grown sw (p, err e) = Grown-same sw _ refl refl refl
  answered_by-Grown sw (p, panic) = Grown-same sw _ refl refl refl

  SwarmStep-Grown :
      {sw sw' : S} → SwarmStep x509 codec host out sw sw' → Grown (Fresh sw sw') sw sw'
  unfolding swarm_broadcast swarm_async_send swarm_send
  SwarmStep-Grown {sw} (received s msg) = received-Grown s msg sw
  SwarmStep-Grown {sw} (attempted peer) = attempt-Grown peer sw
  SwarmStep-Grown {sw} (announced ev msg e) = Grown-same sw _ refl refl refl
  SwarmStep-Grown {sw} (called_async_send id msg) = elim (Option-cases (peer_of id sw.peers)) [
    | inl e ↦ rw (e, swarm_async_send) (Grown-same sw sw refl refl refl)
    | inr (addr, e) ↦ rw (e, swarm_async_send) (sent_by-Grown sw (async_send host addr msg sw.p2p))
  ]
  SwarmStep-Grown {sw} (called_send id msg) = elim (Option-cases (peer_of id sw.peers)) [
    | inl e ↦ rw (e, swarm_send) (Grown-same sw sw refl refl refl)
    | inr (addr, e) ↦ rw (e, swarm_send) (answered_by-Grown sw (send_sync host addr msg sw.p2p))
  ]

  Reach-Grown :
      {s t : S} → Reach x509 codec host out s t → Grown (Presented s t s.ca_cert s.peers) s t
  Reach-Grown {s} here = Grown-same s s refl refl refl
  Reach-Grown {s} {t = u} (next {t = t} r st) =
      let g = Reach-Grown r in
      let h = SwarmStep-Grown st in
      record {
        same_peers = h.same_peers ∙ g.same_peers;
        same_ca = h.same_ca ∙ g.same_ca;
        grown = λ addr m. elim (h.grown addr m) [
          | inl before ↦ elim (g.grown addr before) [
            | inl first ↦ inl first
            | inr p ↦ inr (record {
              certs = p.certs;
              chain = p.chain;
              known = p.known;
              before = p.before;
              after = p.after;
              came = p.came;
              brought = p.brought;
              went = next p.went st;
            })
          ]
          | inr now ↦ inr (record {
            certs = now.certs;
            chain = subst (IsChain x509 now.certs) g.same_ca now.chain;
            known =
                subst (λ l. (j n : ℕ) × (get_elem? l j ≡ some (n, addr))) g.same_peers now.known;
            before = t;
            after = u;
            came = r;
            brought = now.brought;
            went = here;
          })
        ];
      }

  -- Whatever messages come, attempts are made, events are broadcast and methods are called, a peer that counts
  -- as connected did so at first, or it is of the network configuration and in a step of the run certificates
  -- came in for it, in a message that names its ID or in its answer, that can be read, are in their time, and
  -- are signed, the agency's by the authority and the node's by the agency.
  pub Reach-Presented :
      {sw sw' : S} (addr : AddrInfo)
      → Reach x509 codec host out sw sw'
      → Among x509 codec host addr sw'.connected_peers
      → Among x509 codec host addr sw.connected_peers ⊎ Presented sw sw' sw.ca_cert sw.peers addr
  Reach-Presented addr r m = (Reach-Grown r).grown addr m
