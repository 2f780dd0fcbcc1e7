-- ===== src/Swarm/Service.antt =====
-- swarm/swarm.go and hubnet/p2p.go: what a running swarm does: its attempts to connect, the events that it
-- broadcasts, and its methods.
use crosshub.Prelude.{
  ℕ, ◌==◌, ◌≡◌, Bool, true, false, List, [], ◌∷◌, String, str_eq, Option, none, some, Run, ok, err,
  panic, if◌then◌else◌,
}
use crosshub.Prelude.Action.{Action}
use crosshub.Transaction.Ctx.{CrossTransaction}
use crosshub.Transaction.Rtx.{ReceptTransaction}
use crosshub.Wire.Frame.{Msg}
use crosshub.Swarm.Certs.{X509, CertError, wrong_id, send_failed}
use crosshub.Swarm.Peers.{AddrInfo, NetError, Host, P2p, async_send, send_sync, broadcast}
use crosshub.Swarm.Messages.{
  Codec, Swarm, ctx_sign_msg, rtx_sign_msg, peer_of, try_peer, handle_swarm_message,
}

-- An event of eventCh.
pub data SwarmEvent : Type 0 where
  ctx_event : CrossTransaction → SwarmEvent
  rtx_event : ReceptTransaction → SwarmEvent

-- NewMsg of transactions, and the host's Connect with the addresses put into its peer store.
pub record Outside (host : Host Msg) : Type 0 where
  pub ctx_msg : ℕ → CrossTransaction → Option Msg
  pub rtx_msg : ℕ → ReceptTransaction → Option Msg
  pub connect : AddrInfo → host.Network → host.Network × Bool

-- The IDs of the connected peers: `connectedPeers.Load`.
unfoldable pub is_connected : String → List AddrInfo → Bool
is_connected id [] = false
is_connected id (a ∷ rest) =
    let others = is_connected id rest in if str_eq a.id id then true else others

-- The peers that Start starts to connect to.
unfoldable pub to_dial : List AddrInfo → List (ℕ × AddrInfo) → List (ℕ × AddrInfo)
to_dial connected [] = []
to_dial connected ((id, addr) ∷ rest) =
    let others = to_dial connected rest in
    if is_connected addr.id connected then others else (id, addr) ∷ others

-- OtherPeers: `delete(m, id)` on a copy.
unfoldable pub other_peers : ℕ → List (ℕ × AddrInfo) → List (ℕ × AddrInfo)
other_peers id [] = []
other_peers id ((n, addr) ∷ rest) =
    let others = other_peers id rest in if n == id then others else (n, addr) ∷ others

module _ (x509 : X509) (codec : Codec) (host : Host Msg) (out : Outside host) where
  abbrev pub S : Type 0
  S = Swarm x509 codec host

  -- An attempt of Start's retry: Connect, verifyCert and the Store behind it.
  unfoldable pub attempt : ℕ × AddrInfo → Action S CertError (Unit {0})
  attempt (id, addr) sw =
      let (n, connected) = out.connect addr sw.p2p.network in
      let sw1 : S = record sw { p2p = record sw.p2p { network = n } } in
      if connected then try_peer x509 codec host id sw1 else (sw1, err send_failed)

  -- NewMsg for an event.
  unfoldable pub event_msg : SwarmEvent → Option Msg
  event_msg (ctx_event ctx) = out.ctx_msg ctx_sign_msg ctx
  event_msg (rtx_event rtx) = out.rtx_msg rtx_sign_msg rtx

  -- Broadcast: to the connected peers.
  unfoldable pub swarm_broadcast : Msg → S → S
  swarm_broadcast msg sw = record sw { p2p = broadcast host sw.connected_peers msg sw.p2p }

  abbrev pub sent_by : S → P2p host × Run NetError (Unit {0}) → S × Run CertError (Unit {0})
  sent_by sw (p, ok u) = (record sw { p2p = p }, ok tt)
  sent_by sw (p, err e) = (record sw { p2p = p }, err send_failed)
  sent_by sw (p, panic) = (record sw { p2p = p }, panic)

  -- AsyncSend
  unfoldable pub swarm_async_send : ℕ → Msg → Action S CertError (Unit {0})
  swarm_async_send id msg sw = elim (peer_of id sw.peers) [
    | none ↦ (sw, err wrong_id)
    | some addr ↦ sent_by sw (async_send host addr msg sw.p2p)
  ]

  abbrev pub answered_by : S → P2p host × Run NetError Msg → S × Run CertError Msg
  answered_by sw (p, ok msg) = (record sw { p2p = p }, ok msg)
  answered_by sw (p, err e) = (record sw { p2p = p }, err send_failed)
  answered_by sw (p, panic) = (record sw { p2p = p }, panic)

  -- Send
  unfoldable pub swarm_send : ℕ → Msg → Action S CertError Msg
  swarm_send id msg sw = elim (peer_of id sw.peers) [
    | none ↦ (sw, err wrong_id)
    | some addr ↦ answered_by sw (send_sync host addr msg sw.p2p)
  ]

  -- A step of a running swarm: a message that came on a stream, an attempt for a peer of the configuration,
  -- the broadcast of an event that can be encoded, or a call of a method.
  pub data SwarmStep (sw : S) : S → Type 0 where
    received :
        (s : host.Stream) (msg : Msg)
        → SwarmStep sw ((handle_swarm_message x509 codec host s msg sw).0)
    attempted : (peer : ℕ × AddrInfo) → SwarmStep sw ((attempt peer sw).0)
    announced :
        (ev : SwarmEvent) (msg : Msg)
        → event_msg ev ≡ some msg
        → SwarmStep sw (swarm_broadcast msg sw)
    called_async_send : (id : ℕ) (msg : Msg) → SwarmStep sw ((swarm_async_send id msg sw).0)
    called_send : (id : ℕ) (msg : Msg) → SwarmStep sw ((swarm_send id msg sw).0)

  pub data Reach (sw : S) : S → Type 0 where
    here : Reach sw sw
    next : {t u : S} → Reach sw t → SwarmStep t u → Reach sw u
