-- ===== src/Repo/Tests.antt =====
-- Network configurations of three nodes.
use mathlib.Core.List.Perm
use crosshub.Prelude.{
  ℕ, suc, ◌+◌, ◌≡◌, refl, not, ltb, leb, ◌==◌, ◌&&◌, Bytes, eq_bytes, List, [], ◌∷◌, ◌++◌, drop,
  length, Option, none, some, ok, err, panic, inl, inr, if◌then◌else◌, arith,
}
use crosshub.Swarm.Peers.{AddrInfo}
use crosshub.Swarm.Messages.{peer_of}
use crosshub.Repo.Order.{lt_bytes}
use crosshub.Repo.Addresses.{
  Multiaddrs, IsMultiaddrs, NetworkNode, not_matched, addrs_to_peer_info, less,
  multiaddr_to_peer_id,
}
use crosshub.Repo.Network.{
  NetworkConfig, p2p_part, has_prefix, last_index, default_addrs, insert_node, sort_nodes,
  number_nodes, local_of, other_nodes_of, load_network_config,
}
use crosshub.Repo.Sorted.{times, id_of}
use crosshub.Repo.Members.{Among}
use crosshub.Repo.Others.{is_some}
use crosshub.Repo.Agreement.{numbers_agree, load_network_config-peer_of}
use crosshub.Repo.Local.{load_network_config-local_addr}

unfoldable pub id_in_text : Bytes → Bytes
unfolding last_index has_prefix eq_bytes
id_in_text s = elim (last_index s p2p_part) [ none ↦ [] | some i ↦ drop (i + 5) s ]

unfoldable pub multiaddr_of_text : Bytes → Option Bytes
multiaddr_of_text [] = none
multiaddr_of_text (c ∷ cs) = if c == 47 then some (c ∷ cs) else none

abbrev pub text_addrs : Multiaddrs
text_addrs = record {
  Multiaddr = Bytes;
  new_multiaddr = multiaddr_of_text;
  split_id = id_in_text;
  id_string = λ a. 81 ∷ a;
  addr_infos = λ addrs. some (record { id = "node"; addrs = [] } ∷ []);
}

text_addrs-IsMultiaddrs : IsMultiaddrs text_addrs
text_addrs-IsMultiaddrs = record {
  id_string_injective = λ a b h. cc;
  id_string-ne-nil = λ a given h. cc;
}

-- "/a/p2p/" with a peer ID of one letter.
abbrev pub address : ℕ → Bytes
address c = 47 ∷ 97 ∷ 47 ∷ 112 ∷ 50 ∷ 112 ∷ 47 ∷ c ∷ []

abbrev pub nodes_a : List (List Bytes)
nodes_a = (address b'B' ∷ []) ∷ (address b'A' ∷ []) ∷ (address b'C' ∷ []) ∷ []

abbrev nodes_b : List (List Bytes)
nodes_b = (address b'A' ∷ []) ∷ (address b'B' ∷ []) ∷ (address b'C' ∷ []) ∷ []

abbrev pub numbered : ℕ → ℕ → NetworkNode
numbered n c = record { id = n; addr = address c; addrs = address c ∷ [] }

abbrev pub info : AddrInfo
info = record { id = "node"; addrs = [] }

abbrev pub config_of_b : NetworkConfig
config_of_b = record {
  id = 2;
  n = 3;
  peer_id = b'Q' ∷ b'B' ∷ [];
  local_addr = 47 ∷ 97 ∷ [];
  nodes = numbered 1 b'A' ∷ numbered 2 b'B' ∷ numbered 3 b'C' ∷ [];
  other_nodes = (1, info) ∷ (3, info) ∷ [];
}

abbrev config_of_c : NetworkConfig
config_of_c = record {
  id = 3;
  n = 3;
  peer_id = b'Q' ∷ b'C' ∷ [];
  local_addr = 47 ∷ 97 ∷ [];
  nodes = numbered 1 b'A' ∷ numbered 2 b'B' ∷ numbered 3 b'C' ∷ [];
  other_nodes = (1, info) ∷ (2, info) ∷ [];
}

load_b_run : load_network_config text_addrs (ok nodes_a) (ok (b'Q' ∷ b'B' ∷ [])) ≡ ok config_of_b
unfolding load_network_config default_addrs sort_nodes insert_node less multiaddr_of_text id_in_text
    lt_bytes number_nodes multiaddr_to_peer_id local_of other_nodes_of addrs_to_peer_info
load_b_run = refl

load_c_run : load_network_config text_addrs (ok nodes_b) (ok (b'Q' ∷ b'C' ∷ [])) ≡ ok config_of_c
unfolding load_network_config default_addrs sort_nodes insert_node less multiaddr_of_text id_in_text
    lt_bytes number_nodes multiaddr_to_peer_id local_of other_nodes_of addrs_to_peer_info
load_c_run = refl

numbers_agree_example :
    (i : AddrInfo) × (addrs_to_peer_info text_addrs (address b'B' ∷ []) ≡ ok (i ∷ []))
    × (peer_of 2 config_of_c.other_nodes ≡ some i)
unfolding times id_of crosshub.Repo.Sorted.id_in multiaddr_of_text id_in_text
numbers_agree_example =
    numbers_agree text_addrs text_addrs-IsMultiaddrs nodes_a nodes_b (b'B' ∷ []) (b'C' ∷ [])
      (address b'B') []
      (Perm.swap (address b'A' ∷ []) (address b'B' ∷ []) ((address b'C' ∷ []) ∷ []))
      (λ h. absurd (cc)) (λ h. absurd (cc)) (λ h. ground arith) load_b_run load_c_run
      (inr (inl refl)) refl refl

load_network_config-peer_of_example :
    is_some (peer_of 2 config_of_b.other_nodes)
    ≡ (ltb 0 2 && leb 2 (length nodes_a) && not (2 == 2))
load_network_config-peer_of_example =
    load_network_config-peer_of text_addrs text_addrs-IsMultiaddrs nodes_a (b'B' ∷ []) 2
      (λ h. absurd (cc)) load_b_run

load_network_config-local_addr_example :
    (addr : Bytes) × (addrs : List Bytes) × (rest : Bytes) × Among (addr ∷ addrs) nodes_a
    × (id_of text_addrs (addr ∷ addrs) ≡ b'B' ∷ [])
    × (addr ≡ config_of_b.local_addr ++ (p2p_part ++ rest))
    × (last_index (drop (suc (length config_of_b.local_addr)) addr) p2p_part ≡ none)
load_network_config-local_addr_example =
    load_network_config-local_addr text_addrs text_addrs-IsMultiaddrs (b'B' ∷ []) (λ h. absurd (cc))
      nodes_a load_b_run

-- A hub whose key is none of the file's.
load_stranger_run :
    load_network_config text_addrs (ok nodes_a) (ok (b'Q' ∷ b'X' ∷ [])) ≡ err not_matched
unfolding load_network_config default_addrs sort_nodes insert_node less multiaddr_of_text id_in_text
    lt_bytes number_nodes multiaddr_to_peer_id
load_stranger_run = refl

-- A node without addresses, and an address without a peer ID beside another, end in a panic.
load_empty_run : load_network_config text_addrs (ok ([] ∷ nodes_a)) (ok (b'Q' ∷ b'B' ∷ [])) ≡ panic
unfolding load_network_config default_addrs
load_empty_run = refl

load_no_id_run :
    load_network_config text_addrs (ok (((47 ∷ 97 ∷ []) ∷ []) ∷ nodes_a)) (ok (b'Q' ∷ b'B' ∷ []))
    ≡ panic
unfolding load_network_config default_addrs sort_nodes insert_node less multiaddr_of_text id_in_text
load_no_id_run = refl
