-- ===== src/Swarm/Peers.antt =====
-- hubnet/stream_manager.go and p2p.go: streams to the peers, and sending on them.
use crosshub.Prelude.{
  Bool, List, [], ◌∷◌, String, str_eq, Option, none, some, Run, ok, err, panic, if◌then◌else◌,
}
use crosshub.Prelude.Action.{Action}

-- peer.AddrInfo; a peer's ID is its text.
pub record AddrInfo : Type 0 where
  pub id : String
  pub addrs : List String

pub data NetError : Type 0 where
  new_stream_failed send_failed timed_out : NetError

-- The libp2p host: NewStream, a message written on a stream within the deadline, one read from it within
-- the deadline, and ClosePeer.
pub record Host (M : Type 0) : Type 1 where
  pub Network : Type 0
  pub Stream : Type 0
  pub new_stream : String → Network → Network × Option Stream
  pub send : Stream → M → Network → Network × Bool
  pub wait_msg : Stream → Network → Network × Option M
  pub close_peer : String → Network → Network × Bool

module _ {M : Type 0} (host : Host M) where
  -- The host's state with the map of streamMgr.
  pub record P2p : Type 0 where
    pub network : host.Network
    pub streams : List (String × host.Stream)

  unfoldable pub find_stream : String → List (String × host.Stream) → Option host.Stream
  find_stream pid [] = none
  find_stream pid ((id, s) ∷ rest) =
      let others = find_stream pid rest in if str_eq pid id then some s else others

  unfoldable pub remove_stream : String → List (String × host.Stream) → List (String × host.Stream)
  remove_stream pid [] = []
  remove_stream pid ((id, s) ∷ rest) =
      let others = remove_stream pid rest in if str_eq pid id then others else (id, s) ∷ others

  -- The part of get behind a miss.
  unfoldable pub opened :
      String → P2p → host.Network × Option host.Stream → P2p × Run NetError host.Stream
  opened pid p (n, none) = (record p { network = n }, err new_stream_failed)
  opened pid p (n, some s) = (record p { network = n; streams = (pid, s) ∷ p.streams }, ok s)

  -- streamMgr.get
  unfoldable pub get_stream : String → Action P2p NetError host.Stream
  get_stream pid p = elim (find_stream pid p.streams) [
    | some s ↦ (p, ok s)
    | none ↦ opened pid p (host.new_stream pid p.network)
  ]

  -- After the write: the stream is removed when it failed.
  unfoldable pub after_send : String → P2p → host.Network × Bool → P2p × Run NetError (Unit {0})
  after_send pid p (n, sent) =
      if sent
      then (record p { network = n }, ok tt)
      else (record p { network = n; streams = remove_stream pid p.streams }, err send_failed)

  unfoldable pub send_on :
      String → M → P2p × Run NetError host.Stream → P2p × Run NetError (Unit {0})
  send_on pid msg (p, ok s) = after_send pid p (host.send s msg p.network)
  send_on pid msg (p, err e) = (p, err e)
  send_on pid msg (p, panic) = (p, panic)

  -- AsyncSend
  unfoldable pub async_send : AddrInfo → M → Action P2p NetError (Unit {0})
  async_send addr msg p = send_on addr.id msg (get_stream addr.id p)

  unfoldable pub answered : P2p → host.Network × Option M → P2p × Run NetError M
  answered p (n, none) = (record p { network = n }, err timed_out)
  answered p (n, some msg) = (record p { network = n }, ok msg)

  unfoldable pub wait_on : Option host.Stream → P2p × Run NetError (Unit {0}) → P2p × Run NetError M
  wait_on none (p, r) = (p, err new_stream_failed)
  wait_on (some s) (p, ok u) = answered p (host.wait_msg s p.network)
  wait_on (some s) (p, err e) = (p, err e)
  wait_on (some s) (p, panic) = (p, panic)

  abbrev pub stream_of : Run NetError host.Stream → Option host.Stream
  stream_of (ok s) = some s
  stream_of (err e) = none
  stream_of panic = none

  -- Send: the answer is read from the stream that the message was written on.
  unfoldable pub send_sync : AddrInfo → M → Action P2p NetError M
  send_sync addr msg p =
      let (p1, s) = get_stream addr.id p in wait_on (stream_of s) (send_on addr.id msg (p1, s))

  -- Broadcast: an error is logged, and the next peer is sent to.
  unfoldable pub broadcast : List AddrInfo → M → P2p → P2p
  broadcast [] msg p = p
  broadcast (addr ∷ rest) msg p = broadcast rest msg ((async_send addr msg p).0)

  -- Disconnect
  unfoldable pub disconnect : AddrInfo → P2p → P2p × Bool
  disconnect addr p =
      let (n, closed) = host.close_peer addr.id p.network in
      (record p { network = n; streams = remove_stream addr.id p.streams }, closed)
