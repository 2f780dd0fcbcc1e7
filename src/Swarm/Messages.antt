-- ===== src/Swarm/Messages.antt =====
-- swarm/handle.go and swarm.go: handleMessage, verifyCert, and the peers that count as connected.
use crosshub.Prelude.{
  ℕ, Bool, true, false, ◌==◌, Bytes, List, [], ◌∷◌, String, str_eq, Option, none, some, Run, ok,
  err, panic, if◌then◌else◌,
}
use crosshub.Prelude.Action.{Action}
use crosshub.Transaction.Ctx.{CrossTransaction}
use crosshub.Transaction.Rtx.{ReceptTransaction}
use crosshub.Wire.Frame.{Msg}
use crosshub.Swarm.Certs.{X509, CertError, bad_message, wrong_id, check_certs}
use crosshub.Swarm.Certs
use crosshub.Swarm.Peers.{AddrInfo, NetError, Host, P2p, send_sync, disconnect}

pub record CertsMessage : Type 0 where
  pub id : String
  pub agency_cert : Option Bytes
  pub node_cert : Option Bytes

-- What is sent on messageCh.
pub data Received : Type 0 where
  ctx_received : CrossTransaction → Received
  rtx_received : ReceptTransaction → Received

-- RLP on these types: Decode of certificates, what Decode leaves in a transaction, also after an error,
-- and NewMsg of certificates.
pub record Codec : Type 0 where
  pub decode_certs : Msg → Option CertsMessage
  pub left_in_certs : Msg → CertsMessage
  pub left_in_ctx : Msg → CrossTransaction
  pub left_in_rtx : Msg → ReceptTransaction
  pub certs_msg : ℕ → CertsMessage → Option Msg

-- protocol.go
abbrev pub get_cert_msg : ℕ
get_cert_msg = 1

abbrev pub cert_msg : ℕ
cert_msg = 2

abbrev pub ctx_sign_msg : ℕ
ctx_sign_msg = 3

abbrev pub rtx_sign_msg : ℕ
rtx_sign_msg = 4

-- checkID
unfoldable pub peer_of : ℕ → List (ℕ × AddrInfo) → Option AddrInfo
peer_of id [] = none
peer_of id ((n, addr) ∷ rest) =
    let others = peer_of id rest in if id == n then some addr else others

-- `connectedPeers.Store(addr.ID, addr)`: the map has one peer for an ID.
unfoldable pub store_peer : AddrInfo → List AddrInfo → List AddrInfo
store_peer addr [] = addr ∷ []
store_peer addr (a ∷ rest) =
    let others = store_peer addr rest in if str_eq a.id addr.id then addr ∷ rest else a ∷ others

module _ (x509 : X509) (codec : Codec) (host : Host Msg) where
  -- Swarm with the parts of its repo that are read; `peers` and `connected_peers` are maps.
  pub record Swarm : Type 0 where
    pub p2p : P2p host
    pub peers : List (ℕ × AddrInfo)
    pub connected_peers : List AddrInfo
    pub messages : List Received
    pub self_certs : CertsMessage
    pub ca_cert : x509.Certificate

  -- `swarm.connectedPeers.Store(addr.ID,addr)` for each peer of that name.
  abbrev pub connect_one : Bool → AddrInfo → List AddrInfo → List AddrInfo
  connect_one true addr connected = store_peer addr connected
  connect_one false addr connected = connected

  abbrev pub connect_named : String → List (ℕ × AddrInfo) → List AddrInfo → List AddrInfo
  connect_named name [] connected = connected
  connect_named name ((n, addr) ∷ rest) connected =
      connect_one (str_eq addr.id name) addr (connect_named name rest connected)

  -- handleFetchCertMessage: NewMsg, and the message written on the stream it came from.
  unfoldable pub fetch_cert : host.Stream → Action Swarm CertError (Unit {0})
  fetch_cert s sw = elim (codec.certs_msg cert_msg sw.self_certs) [
    | none ↦ (sw, err bad_message)
    | some msg ↦
        let (n, sent) = host.send s msg sw.p2p.network in
        (
          record sw { p2p = record sw.p2p { network = n } },
          if sent then ok tt else err Certs.send_failed,
        )
  ]

  -- The case GetCertMsg, behind Decode.
  unfoldable pub after_check :
      host.Stream → CertsMessage → Run CertError (Unit {0}) → Action Swarm CertError (Unit {0})
  after_check s certs (ok u) sw =
      fetch_cert s
        (record sw { connected_peers = connect_named certs.id sw.peers sw.connected_peers })
  after_check s certs (err e) sw = (sw, err e)
  after_check s certs panic sw = (sw, panic)

  unfoldable pub on_get_cert : host.Stream → Option CertsMessage → Action Swarm CertError (Unit {0})
  on_get_cert s none sw = (sw, err bad_message)
  on_get_cert s (some certs) sw =
      after_check s certs (check_certs x509 certs.node_cert certs.agency_cert sw.ca_cert) sw

  -- handleMessage; its error is logged. A transaction is sent on whoever the peer is, and an error of Decode
  -- is dropped.
  unfoldable pub handle_swarm_message : host.Stream → Msg → Action Swarm CertError (Unit {0})
  handle_swarm_message s msg sw =
      if msg.code == get_cert_msg
      then on_get_cert s (codec.decode_certs msg) sw
      else if msg.code == ctx_sign_msg
      then (record sw { messages = ctx_received (codec.left_in_ctx msg) ∷ sw.messages }, ok tt)
      else if msg.code == rtx_sign_msg
      then (record sw { messages = rtx_received (codec.left_in_rtx msg) ∷ sw.messages }, ok tt)
      else (sw, ok tt)

  -- The end of verifyCert, and the Store of Start behind it.
  unfoldable pub after_answer_check :
      AddrInfo → Swarm → Run CertError (Unit {0}) → Swarm × Run CertError (Unit {0})
  after_answer_check addr sw (ok u) =
      let (p, closed) = disconnect host addr sw.p2p in
      if closed
      then (record sw { p2p = p; connected_peers = store_peer addr sw.connected_peers }, ok tt)
      else (record sw { p2p = p }, err Certs.disconnect_failed)
  after_answer_check addr sw (err e) = (sw, err e)
  after_answer_check addr sw panic = (sw, panic)

  -- The answer to GetCertMsg; an error of its Decode is dropped.
  unfoldable pub after_answer :
      AddrInfo → Swarm → Run NetError Msg → Swarm × Run CertError (Unit {0})
  after_answer addr sw (ok msg) =
      let certs = codec.left_in_certs msg in
      after_answer_check addr sw (check_certs x509 certs.node_cert certs.agency_cert sw.ca_cert)
  after_answer addr sw (err e) = (sw, err Certs.send_failed)
  after_answer addr sw panic = (sw, panic)

  -- An attempt of Start for a peer, from verifyCert on.
  unfoldable pub try_peer : ℕ → Action Swarm CertError (Unit {0})
  try_peer id sw = elim (peer_of id sw.peers) [
    | none ↦ (sw, err wrong_id)
    | some addr ↦ elim (codec.certs_msg get_cert_msg sw.self_certs) [
      | none ↦ (sw, err bad_message)
      | some msg ↦
          let (p, answer) = send_sync host addr msg sw.p2p in
          after_answer addr (record sw { p2p = p }) answer
    ]
  ]
