-- ===== src/Swarm/Boot.antt =====
-- swarm/swarm.go and hubnet/config.go: New, from a node that was loaded, and the run of its swarm.
use crosshub.Prelude.{
  ◌≡◌, ap, sym, subst, [], ◌∷◌, Bytes, String, Option, some, inl, inr, Run, ok, err, ◌>>=◌, >>=-ok,
  ok-injective, or_else,
}
use crosshub.Wire.Frame.{Msg}
use crosshub.Swarm.Certs.{X509}
use crosshub.Swarm.Peers.{AddrInfo, Host}
use crosshub.Swarm.Messages.{Codec, Swarm}
use crosshub.Swarm.Service.{Outside, Reach}
use crosshub.Swarm.Trust.{Among}
use crosshub.Swarm.Presented.{Presented, Reach-Presented}
use crosshub.Repo.Addresses.{Multiaddrs}
use crosshub.Repo.Files.{KeyTools, Repo}

pub data NewError : Type 0 where
  empty_local_address no_libp2p : NewError

module _ (x509 : X509) (tools : KeyTools) (m : Multiaddrs) (codec : Codec) (host : Host Msg)
    (new_host : tools.Libp2pKey → Bytes → Option host.Network) (text_of : Bytes → String) where
  -- checkConfig, and libp2p.New with the key and the address.
  unfoldable pub new_p2p : tools.Libp2pKey → Bytes → Run NewError host.Network
  new_p2p key [] = err empty_local_address
  new_p2p key (c ∷ cs) = or_else (new_host key (c ∷ cs)) (err no_libp2p)

  -- New
  unfoldable pub new_swarm : Repo x509 tools m → Run NewError (Swarm x509 codec host)
  new_swarm repo = do
    network ← new_p2p repo.key.libp2p_priv_key repo.network_config.local_addr
    ok (record {
      p2p = record { network = network; streams = [] };
      peers = repo.network_config.other_nodes;
      connected_peers = [];
      messages = [];
      self_certs = record {
        id = text_of repo.network_config.peer_id;
        agency_cert = some repo.certs.agency_cert_data;
        node_cert = some repo.certs.node_cert_data;
      };
      ca_cert = repo.certs.ca_cert;
    })

  -- In the swarm of a node, however it runs, a peer counts as connected only if it is one of the node's other
  -- nodes and in a step of the run certificates came in for it, in a message that names its ID or in its own
  -- answer, that can be read, are in their time, and are signed, the agency's by the node's authority and
  -- the peer's by the agency.
  pub new_swarm-Presented :
      (out : Outside host) (repo : Repo x509 tools m) {sw sw' : Swarm x509 codec host}
      (addr : AddrInfo)
      → new_swarm repo ≡ ok sw
      → Reach x509 codec host out sw sw'
      → Among x509 codec host addr sw'.connected_peers
      → Presented x509 codec host out sw sw' repo.certs.ca_cert repo.network_config.other_nodes addr
  unfolding new_swarm
  new_swarm-Presented out repo {sw} {sw'} addr h r w =
      >>=-ok (new_p2p repo.key.libp2p_priv_key repo.network_config.local_addr) _ h λ n e h1.
        let started = ok-injective h1 in
        elim (Reach-Presented x509 codec host out addr r w) [
          | inl before ↦
              let nobody : Among x509 codec host addr [] =
                subst (λ s. Among x509 codec host addr s)
                  (sym (ap (λ s. s.connected_peers) started)) before in
              absurd (cc (nobody.1))
          | inr now ↦
              subst
                (λ c. Presented x509 codec host out sw sw' c repo.network_config.other_nodes addr)
                (sym (ap (λ s. s.ca_cert) started))
                (subst (λ p. Presented x509 codec host out sw sw' sw.ca_cert p addr)
                  (sym (ap (λ s. s.peers) started)) now)
        ]
