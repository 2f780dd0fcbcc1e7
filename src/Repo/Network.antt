-- ===== src/Repo/Network.antt =====
-- repo/network.go: loadNetworkConfig. A node's number is its place among the sorted peer IDs.
use crosshub.Prelude.{
  ℕ, suc, ◌==◌, not, Bool, Bytes, eq_bytes, List, [], ◌∷◌, length, map, take, Option, none, some,
  Run, ok, err, ◌>>=◌, map_err, or_else, if◌then◌else◌,
}
use crosshub.Swarm.Peers.{AddrInfo}
use crosshub.Repo.Addresses.{
  Multiaddrs, ConfigError, wrong_nodes_number, not_matched, lack_of_local_address,
  no_pid_in_bootstrap, different_peer_ids, wrong_network_addr, NetworkNode, first_addr, less,
  multiaddr_to_peer_id, addrs_to_peer_info,
}

-- NetworkConfig. A number that is not set is 0, and OtherNodes is a map.
pub record NetworkConfig : Type 0 where
  pub id : ℕ
  pub n : ℕ
  pub peer_id : Bytes
  pub local_addr : Bytes
  pub nodes : List NetworkNode
  pub other_nodes : List (ℕ × AddrInfo)

-- "/p2p/"
abbrev pub p2p_part : Bytes
p2p_part = 47 ∷ 112 ∷ 50 ∷ 112 ∷ 47 ∷ []

unfoldable pub has_prefix : Bytes → Bytes → Bool
has_prefix p s = eq_bytes p (take (length p) s)

-- strings.LastIndex
unfoldable pub last_index : Bytes → Bytes → Option ℕ
last_index [] p = if has_prefix p [] then some 0 else none
last_index (c ∷ cs) p = elim (last_index cs p) [
  | some i ↦ some (suc i)
  | none ↦ if has_prefix p (c ∷ cs) then some 0 else none
]

abbrev pub new_node : List Bytes → NetworkNode
new_node addrs = record { id = 0; addr = []; addrs = addrs }

-- The first address is a node's default address.
abbrev pub default_addr : NetworkNode → Bytes → Run ConfigError NetworkNode
default_addr x (c ∷ cs) = ok x
default_addr x [] = do a ← first_addr x.addrs; ok (record x { addr = a })

unfoldable pub default_addrs : List NetworkNode → Run ConfigError (List NetworkNode)
default_addrs [] = ok []
default_addrs (x ∷ xs) = do y ← default_addr x x.addr; ys ← default_addrs xs; ok (y ∷ ys)

module _ (m : Multiaddrs) where
  -- sort.Sort, by the insertion sort that it is below 12 nodes; above that, nodes of the same ID may stand in
  -- another order.
  unfoldable pub insert_node : NetworkNode → List NetworkNode → Run ConfigError (List NetworkNode)
  insert_node x [] = ok (x ∷ [])
  insert_node x (y ∷ ys) =
      let rest = insert_node x ys in
      less m x y >>= (λ b. if b then ok (x ∷ y ∷ ys) else rest >>= (λ zs. ok (y ∷ zs)))

  unfoldable pub sort_nodes :
      List NetworkNode → List NetworkNode → Run ConfigError (List NetworkNode)
  sort_nodes [] done = ok done
  sort_nodes (x ∷ xs) done = do more ← insert_node x done; sort_nodes xs more

  -- The loop that numbers the nodes and looks for the node's own peer ID; `i` nodes are done.
  unfoldable pub number_nodes :
      Bytes → ℕ → List NetworkNode → Option ℕ → Run ConfigError (List NetworkNode × Option ℕ)
  number_nodes own i [] found = ok ([], found)
  number_nodes own i (x ∷ xs) found = do
    a ← first_addr x.addrs
    pid ← multiaddr_to_peer_id m a
    rest ← number_nodes own (suc i) xs (if eq_bytes pid own then some (suc i) else found)
    ok (record x { id = suc i } ∷ rest.0, rest.1)

  -- The loop that sets LocalAddr.
  unfoldable pub local_of : ℕ → List NetworkNode → Bytes → Bytes
  local_of id [] addr = addr
  local_of id (x ∷ xs) addr = local_of id xs (if x.id == id then x.addr else addr)

  abbrev pub only_info : List AddrInfo → Run ConfigError AddrInfo
  only_info [] = err different_peer_ids
  only_info (info ∷ []) = ok info
  only_info (info ∷ j ∷ more) = err different_peer_ids

  -- The loop that fills OtherNodes.
  unfoldable pub other_nodes_of : ℕ → List NetworkNode → Run ConfigError (List (ℕ × AddrInfo))
  other_nodes_of id [] = ok []
  other_nodes_of id (x ∷ xs) =
      let rest = other_nodes_of id xs in
      if x.id == id
      then rest
      else (map_err wrong_network_addr (addrs_to_peer_info m x.addrs) >>= λ infos.
          only_info infos >>= λ info. rest >>= λ others. ok ((x.id, info) ∷ others))

  abbrev pub cut_local : Bytes → Run ConfigError Bytes
  cut_local [] = err lack_of_local_address
  cut_local (c ∷ cs) = do
    idx ← or_else (last_index (c ∷ cs) p2p_part) (err no_pid_in_bootstrap)
    ok (take idx (c ∷ cs))

  -- N as it is read: the file has no N, so it is the number of the nodes.
  abbrev pub nodes_number : ℕ → List NetworkNode → ℕ
  nodes_number n nodes = if n == 0 then length nodes else n

  -- loadNetworkConfig, from the Addrs of the file and the outcome of GetPidFromPrivFile.
  unfoldable pub load_network_config :
      Run ConfigError (List (List Bytes)) → Run ConfigError Bytes → Run ConfigError NetworkConfig
  load_network_config file pid = do
    addrs ← file
    let nodes = map new_node addrs
    let n = nodes_number 0 nodes
    u ← (if not (length nodes == n) then err wrong_nodes_number else ok (tt {0}))
    nodes1 ← default_addrs nodes
    own ← pid
    nodes2 ← sort_nodes nodes1 []
    numbered ← number_nodes own 0 nodes2 none
    id ← or_else numbered.1 (err not_matched)
    local ← cut_local (local_of id numbered.0 [])
    others ← other_nodes_of id numbered.0
    ok (record {
      id = id;
      n = n;
      peer_id = own;
      local_addr = local;
      nodes = numbered.0;
      other_nodes = others;
    })
