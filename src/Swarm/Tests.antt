-- ===== src/Swarm/Tests.antt =====
-- A hub that is named by a message with certificates.
use crosshub.Prelude.{ℕ, ◌≡◌, refl, true, [], ◌∷◌, get_elem?, none, some, ok, ◌==◌, ◌+◌}
use crosshub.Transaction.Tests.{order, reply}
use crosshub.Wire.Frame.{Msg}
use crosshub.Swarm.Certs.{X509, parse_cert, verify_sign, verify_chain, check_certs}
use crosshub.Swarm.Peers.{AddrInfo, Host}
use crosshub.Swarm.Messages.{
  CertsMessage, Codec, Swarm, store_peer, fetch_cert, after_check, on_get_cert,
  handle_swarm_message,
}
use crosshub.Swarm.Service.{
  Outside, ctx_event, event_msg, swarm_broadcast, received, announced, Reach, here, next,
}
use crosshub.Swarm.Trust.{Among}
use crosshub.Swarm.Presented.{Presented}
use crosshub.Swarm.Boot.{new_p2p, new_swarm, new_swarm-Presented}
use crosshub.Repo.Files.{Repo}
use crosshub.Repo.Tests.{text_addrs}
use crosshub.Repo.AgainTests.{tools}

-- A certificate is a number, and signed by the one above it.
abbrev numbers : X509
numbers = record {
  Certificate = ℕ;
  decode_pem = λ b. some b;
  parse_certificate = λ b. get_elem? b 0;
  check_signature_from = λ a b. (a + 1) == b;
  not_before = λ c. 10;
  not_after = λ c. 30;
  now = 20;
}

abbrev two_certs : CertsMessage
two_certs = record { id = "p"; agency_cert = some (2 ∷ []); node_cert = some (1 ∷ []) }

abbrev codec : Codec
codec = record {
  decode_certs = λ m. some two_certs;
  left_in_certs = λ m. two_certs;
  left_in_ctx = λ m. order;
  left_in_rtx = λ m. reply;
  certs_msg = λ c m. some (record { code = c; size = 0; bytes = [] });
}

abbrev host : Host Msg
host = record {
  Network = ℕ;
  Stream = ℕ;
  new_stream = λ id n. (n, some 0);
  send = λ s m n. (n + 1, true);
  wait_msg = λ s n. (n, none);
  close_peer = λ id n. (n, true);
}

abbrev p_info : AddrInfo
p_info = record { id = "p"; addrs = [] }

abbrev node : Repo numbers tools text_addrs
node = record {
  config = 7 ∷ [];
  network_config = record {
    id = 2;
    n = 2;
    peer_id = b'B' ∷ [];
    local_addr = b'/' ∷ [];
    nodes = [];
    other_nodes = (1, p_info) ∷ [];
  };
  key = record { pid = []; address = 5 ∷ []; priv_key = 7 ∷ []; libp2p_priv_key = 7 ∷ [] };
  certs = record {
    node_cert_data = 1 ∷ [];
    agency_cert_data = 2 ∷ [];
    ca_cert_data = 3 ∷ [];
    node_cert = 1;
    agency_cert = 2;
    ca_cert = 3;
  };
}

abbrev alone : Swarm numbers codec host
alone = record {
  p2p = record { network = 0; streams = [] };
  peers = (1, p_info) ∷ [];
  connected_peers = [];
  messages = [];
  self_certs = record { id = "b"; agency_cert = some (2 ∷ []); node_cert = some (1 ∷ []) };
  ca_cert = 3;
}

abbrev outside : Outside host
outside = record {
  ctx_msg = λ c ctx. some (record { code = c; size = 0; bytes = [] });
  rtx_msg = λ c rtx. some (record { code = c; size = 0; bytes = [] });
  connect = λ addr n. (n, true);
}

-- A swarm that starts, gets the certificates of a peer, and broadcasts an event to it.
new_run : new_swarm numbers tools text_addrs codec host (λ k a. some 0) (λ b. "b") node ≡ ok alone
unfolding new_swarm new_p2p
new_run = refl

abbrev hello : Msg
hello = record { code = 1; size = 0; bytes = [] }

abbrev greeted : Swarm numbers codec host
greeted = (handle_swarm_message numbers codec host 0 hello alone).0

abbrev announced_to : Swarm numbers codec host
announced_to =
    swarm_broadcast numbers codec host outside (record { code = 3; size = 0; bytes = [] }) greeted

announced-Reach : Reach numbers codec host outside alone announced_to
unfolding event_msg
announced-Reach =
    next (next here (received 0 hello))
      (announced (ctx_event order) (record { code = 3; size = 0; bytes = [] }) refl)

announced_run : Among numbers codec host p_info announced_to.connected_peers
unfolding handle_swarm_message on_get_cert after_check fetch_cert check_certs verify_chain
    verify_sign parse_cert swarm_broadcast store_peer
announced_run = (0, refl)

new_swarm-Presented_example :
    Presented numbers codec host outside alone announced_to node.certs.ca_cert
      node.network_config.other_nodes p_info
new_swarm-Presented_example =
    new_swarm-Presented numbers tools text_addrs codec host (λ k a. some 0) (λ b. "b") outside node
      p_info new_run announced-Reach announced_run
