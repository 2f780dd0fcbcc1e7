-- ===== src/Repo/AgainTests.antt =====
-- A node whose files are those of the network of three, without a file of its key.
use crosshub.Prelude.{
  ◌≡◌, ◌≢◌, refl, sym, ap, ◌∙◌, Bytes, eq_bytes, [], ◌∷◌, String, str_eq, eq_iff, Option, none,
  some, ok, true, false, Bool, if◌then◌else◌, arith,
}
use crosshub.Swarm.Certs.{X509, parse_cert}
use crosshub.Repo.Files.{
  FileSystem, KeyTools, Repo, load, load_parts, parts_of, load_certs, load_cert, load_network_files,
  load_priv_key, key_of, store_key, key_written, parse_private_key,
}
use crosshub.Repo.Again.{IsFileSystem, load-again}
use crosshub.Repo.Order.{lt_bytes}
use crosshub.Repo.Addresses.{less, multiaddr_to_peer_id, addrs_to_peer_info, get_pid_from_priv_file}
use crosshub.Repo.Network.{
  has_prefix, last_index, default_addrs, insert_node, sort_nodes, number_nodes, local_of,
  other_nodes_of, load_network_config,
}
use crosshub.Repo.Tests.{text_addrs, multiaddr_of_text, id_in_text, nodes_a, config_of_b}

abbrev File : Type 0
File = String → Option Bytes

is_there : Option Bytes → Bool
is_there none = false
is_there (some b) = true

put_file : String → Bytes → File → File
put_file n b d k = if str_eq n k then some b else d k

abbrev files : FileSystem
files = record {
  Disk = File;
  read_file = λ n d. d n;
  exist = λ n d. is_there (d n);
  write_file = λ n b d. some (put_file n b d);
}

put_file_self : (n : String) (b : Bytes) (d : File) → put_file n b d n ≡ some b
unfolding put_file
put_file_self n b d = ground (arith, eq_iff n n)

put_file_other : (n k : String) (b : Bytes) (d : File) → k ≢ n → put_file n b d k ≡ d k
unfolding put_file
put_file_other n k b d ne = ground (arith, eq_iff n k, ne)

some-injective : {A : Type 0} {x y : A} → some x ≡ some y → x ≡ y
some-injective h = cc

files-IsFileSystem : IsFileSystem files
unfolding is_there
files-IsFileSystem = record {
  exist-write = λ n b d h.
      ap (λ (q : File). is_there (q n)) (sym (some-injective h))
      ∙ ap is_there (put_file_self n b d);
  read-write =
      λ n k b d h ne. ap (λ (q : File). q k) (sym (some-injective h)) ∙ put_file_other n k b d ne;
}

abbrev x509 : X509
x509 = record {
  Certificate = Bytes;
  decode_pem = λ b. some b;
  parse_certificate = λ b. some b;
  check_signature_from = λ a b. true;
  not_before = λ c. 10;
  not_after = λ c. 30;
  now = 20;
}

abbrev pub tools : KeyTools
tools = record {
  Private = Bytes;
  Libp2pKey = Bytes;
  Config = Bytes;
  parse_ec = λ b. some b;
  id_from_key = λ k. some (b'B' ∷ []);
  libp2p_key = λ k. some k;
  address = λ k. 5 ∷ [];
  pretty = λ k. some (6 ∷ []);
  pid_field = λ b. [];
  decode_config = λ b. some b;
  decode_network = λ b. some nodes_a;
}

abbrev first_files : File
first_files k = if str_eq "key.json" k then none else some (7 ∷ [])

abbrev node : Repo x509 tools text_addrs
node = record {
  config = 7 ∷ [];
  network_config = config_of_b;
  key = record { pid = []; address = 5 ∷ []; priv_key = 7 ∷ []; libp2p_priv_key = 7 ∷ [] };
  certs = record {
    node_cert_data = 7 ∷ [];
    agency_cert_data = 7 ∷ [];
    ca_cert_data = 7 ∷ [];
    node_cert = 7 ∷ [];
    agency_cert = 7 ∷ [];
    ca_cert = 7 ∷ [];
  };
}

load_run :
    load x509 tools text_addrs files first_files
    ≡ (put_file "key.json" (6 ∷ []) first_files, ok node)
unfolding load load_parts parts_of load_network_files load_network_config default_addrs
    get_pid_from_priv_file parse_private_key sort_nodes insert_node less multiaddr_of_text
    id_in_text lt_bytes number_nodes multiaddr_to_peer_id local_of other_nodes_of eq_bytes
    addrs_to_peer_info key_of load_cert load_certs load_priv_key store_key key_written has_prefix
    last_index parse_cert is_there
load_run = refl

load-again_example :
    (load x509 tools text_addrs files (put_file "key.json" (6 ∷ []) first_files)
      ≡ (put_file "key.json" (6 ∷ []) first_files, ok node))
    × ((k : String) → k ≢ "key.json" → put_file "key.json" (6 ∷ []) first_files k ≡ first_files k)
load-again_example = load-again x509 tools text_addrs files files-IsFileSystem first_files load_run
