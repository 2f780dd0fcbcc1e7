-- ===== src/Repo/Addresses.antt =====
-- repo/network.go: the addresses of the nodes, over libp2p's multiaddresses, which are a parameter.
use crosshub.Prelude.{
  ◌≡◌, ◌≢◌, Bool, Bytes, List, [], ◌∷◌, Option, Run, ok, err, panic, ◌>>=◌, or_else,
}
use crosshub.Prelude.{ℕ}
use crosshub.Swarm.Peers.{AddrInfo}
use crosshub.Repo.Order.{lt_bytes}

-- ma.NewMultiaddr; the peer ID that peer.SplitAddr gives, which is empty where there is none; ID.String;
-- and peer.AddrInfosFromP2pAddrs.
pub record Multiaddrs : Type 1 where
  pub Multiaddr : Type 0
  pub new_multiaddr : Bytes → Option Multiaddr
  pub split_id : Multiaddr → Bytes
  pub id_string : Bytes → Bytes
  pub addr_infos : List Multiaddr → Option (List AddrInfo)

-- The text of an ID is base58 of its bytes.
pub record IsMultiaddrs (m : Multiaddrs) : Type 0 where
  pub id_string_injective : (a b : Bytes) → m.id_string a ≡ m.id_string b → a ≡ b
  pub id_string-ne-nil : (a : Bytes) → a ≢ [] → m.id_string a ≢ []

pub data ConfigError : Type 0 where
  read_failed wrong_nodes_number no_private_key bad_key bad_multiaddr not_matched : ConfigError
  lack_of_local_address no_pid_in_bootstrap different_peer_ids : ConfigError
  wrong_network_addr : ConfigError → ConfigError

-- NetworkNode
pub record NetworkNode : Type 0 where
  pub id : ℕ
  pub addr : Bytes
  pub addrs : List Bytes

-- `Addrs[0]`
abbrev pub first_addr : List Bytes → Run ConfigError Bytes
first_addr [] = panic
first_addr (a ∷ rest) = ok a

module _ (m : Multiaddrs) where
  -- A parse of a multiaddress whose error is returned.
  abbrev pub parse_addr : Bytes → Run ConfigError m.Multiaddr
  parse_addr a = or_else (m.new_multiaddr a) (err bad_multiaddr)

  -- The ID in an address that Less panics without.
  abbrev pub id_or_panic : Bytes → Run ConfigError Bytes
  id_or_panic [] = panic
  id_or_panic (c ∷ cs) = ok (c ∷ cs)

  -- Less on two nodes.
  unfoldable pub less : NetworkNode → NetworkNode → Run ConfigError Bool
  less x y = do
    a ← first_addr x.addrs
    b ← first_addr y.addrs
    ma ← or_else (m.new_multiaddr a) panic
    mb ← or_else (m.new_multiaddr b) panic
    i ← id_or_panic (m.split_id ma)
    j ← id_or_panic (m.split_id mb)
    ok (lt_bytes i j)

  -- MultiaddrToPeerID: where there is no ID, the error that is returned is nil.
  abbrev pub string_of_id : Bytes → Bytes
  string_of_id [] = []
  string_of_id (c ∷ cs) = m.id_string (c ∷ cs)

  unfoldable pub multiaddr_to_peer_id : Bytes → Run ConfigError Bytes
  multiaddr_to_peer_id a = do ma ← parse_addr a; ok (string_of_id (m.split_id ma))

  abbrev pub parse_addrs : List Bytes → Run ConfigError (List m.Multiaddr)
  parse_addrs [] = ok []
  parse_addrs (a ∷ rest) = do ma ← parse_addr a; mas ← parse_addrs rest; ok (ma ∷ mas)

  -- AddrsToPeerInfo
  unfoldable pub addrs_to_peer_info : List Bytes → Run ConfigError (List AddrInfo)
  addrs_to_peer_info addrs = do
    maddrs ← parse_addrs addrs
    or_else (m.addr_infos maddrs) (err bad_multiaddr)

  -- GetPidFromPrivFile, with what reads the file, cert.ParsePrivateKey, and the ID of a key's public half.
  unfoldable pub get_pid_from_priv_file :
      {K : Type 0} → Option Bytes → (Bytes → Option K) → (K → Option Bytes) → Run ConfigError Bytes
  get_pid_from_priv_file file parse_private_key id_from_key = do
    contents ← or_else file (err no_private_key)
    key ← or_else (parse_private_key contents) (err bad_key)
    pid ← or_else (id_from_key key) (err bad_key)
    ok (m.id_string pid)
