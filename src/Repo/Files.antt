-- ===== src/Repo/Files.antt =====
-- repo/repo.go, cert.go and key.go: Load, which reads the files below the root of a node, and writes the
-- one of its key where there is none.
use crosshub.Prelude.{
  Bool, Bytes, List, String, ◌>>=◌, Option, none, some, Run, ok, err, panic, map_err, or_else,
  if◌then◌else◌,
}
use crosshub.Prelude.Action.{Action, and_then, pure, retag}
use crosshub.Swarm.Certs.{X509, CertError, empty_data, empty_block, bad_private_key, parse_cert}
use crosshub.Repo.Addresses.{Multiaddrs, ConfigError, read_failed, get_pid_from_priv_file}
use crosshub.Repo.Network.{NetworkConfig, load_network_config}

-- The files below the root: ioutil.ReadFile and WriteFile, and whether a file is there.
pub record FileSystem : Type 1 where
  pub Disk : Type 0
  pub read_file : String → Disk → Option Bytes
  pub exist : String → Disk → Bool
  pub write_file : String → Bytes → Disk → Option Disk

-- What is called on a private key: x509.ParseECPrivateKey, the peer ID and libp2p's form of it, PubkeyToAddress,
-- the text of NewWithPrivateKey's Pretty, and gjson's "pid"; and the decoders of the two TOML files.
pub record KeyTools : Type 1 where
  pub Private : Type 0
  pub Libp2pKey : Type 0
  pub Config : Type 0
  pub parse_ec : Bytes → Option Private
  pub id_from_key : Private → Option Bytes
  pub libp2p_key : Private → Option Libp2pKey
  pub address : Private → Bytes
  pub pretty : Private → Option Bytes
  pub pid_field : Bytes → Bytes
  pub decode_config : Bytes → Option Config
  pub decode_network : Bytes → Option (List (List Bytes))

pub data RepoError : Type 0 where
  no_config : RepoError
  load_network : ConfigError → RepoError
  no_cert : RepoError
  bad_cert load_node_cert load_agency_cert load_ca_cert : RepoError → RepoError
  parse_failed : CertError → RepoError
  no_key key_not_converted not_pretty not_written : RepoError
  load_private_key : RepoError → RepoError

abbrev pub key_name : String
key_name = "key.json"

module _ (x509 : X509) (tools : KeyTools) (m : Multiaddrs) where
  -- Certs
  pub record Certs : Type 0 where
    pub node_cert_data : Bytes
    pub agency_cert_data : Bytes
    pub ca_cert_data : Bytes
    pub node_cert : x509.Certificate
    pub agency_cert : x509.Certificate
    pub ca_cert : x509.Certificate

  -- Key
  pub record Key : Type 0 where
    pub pid : Bytes
    pub address : Bytes
    pub priv_key : tools.Private
    pub libp2p_priv_key : tools.Libp2pKey

  -- Repo
  pub record Repo : Type 0 where
    pub config : tools.Config
    pub network_config : NetworkConfig
    pub key : Key
    pub certs : Certs

  -- cert.ParsePrivateKey
  unfoldable pub parse_private_key : Option Bytes → Run CertError tools.Private
  parse_private_key input = do
    bytes ← or_else input (err empty_data)
    block ← or_else (x509.decode_pem bytes) (err empty_block)
    or_else (tools.parse_ec block) (err bad_private_key)

  -- loadCert, from what ReadFile gave.
  unfoldable pub load_cert : Option Bytes → Run RepoError (x509.Certificate × Bytes)
  load_cert file = do
    contents ← or_else file (err no_cert)
    cert ← map_err parse_failed (parse_cert x509 (some contents))
    ok (cert, contents)

  -- loadCerts
  unfoldable pub load_certs : Option Bytes → Option Bytes → Option Bytes → Run RepoError Certs
  load_certs node_file agency_file ca_file = do
    node ← map_err load_node_cert (load_cert node_file)
    agency ← map_err load_agency_cert (load_cert agency_file)
    ca ← map_err load_ca_cert (load_cert ca_file)
    ok (record {
      node_cert_data = node.1;
      agency_cert_data = agency.1;
      ca_cert_data = ca.1;
      node_cert = node.0;
      agency_cert = agency.0;
      ca_cert = ca.0;
    })

  abbrev pub ok_of : Run CertError tools.Private → Option tools.Private
  ok_of (ok k) = some k
  ok_of (err e) = none
  ok_of panic = none

  -- The network configuration, from the two files that it is read from.
  unfoldable pub load_network_files : Option Bytes → Option Bytes → Run ConfigError NetworkConfig
  load_network_files network_file priv_file =
      load_network_config m
        (or_else network_file (err read_failed) >>= λ bytes.
          or_else (tools.decode_network bytes) (err read_failed))
        (get_pid_from_priv_file m priv_file (λ bytes. ok_of (parse_private_key (some bytes)))
          tools.id_from_key)

  -- The key of loadPrivKey, before the file of the key is looked for.
  unfoldable pub key_of : Option Bytes → Run RepoError Key
  key_of priv_file = do
    contents ← or_else priv_file (err no_key)
    priv ← map_err parse_failed (parse_private_key (some contents))
    libp2p ← or_else (tools.libp2p_key priv) (err key_not_converted)
    ok (record {
      pid = tools.pid_field contents;
      address = tools.address priv;
      priv_key = priv;
      libp2p_priv_key = libp2p;
    })

  -- What Load reads before the key, from the files.
  abbrev pub Parts : Type 0
  Parts = tools.Config × NetworkConfig × Certs

  unfoldable pub parts_of :
      Option Bytes
      → Option Bytes
      → Option Bytes
      → Option Bytes
      → Option Bytes
      → Option Bytes
      → Run RepoError Parts
  parts_of config_file network_file priv_file node_file agency_file ca_file = do
    bytes ← or_else config_file (err no_config)
    config ← or_else (tools.decode_config bytes) (err no_config)
    network ← map_err load_network (load_network_files network_file priv_file)
    certs ← load_certs node_file agency_file ca_file
    ok (config, network, certs)

  module _ (fs : FileSystem) where
    -- The file of the key is written where there is none.
    unfoldable pub key_written : Option fs.Disk → fs.Disk → fs.Disk × Run RepoError (Unit {0})
    key_written none d = (d, err not_written)
    key_written (some d') d = (d', ok tt)

    unfoldable pub store_key : tools.Private → Action fs.Disk RepoError (Unit {0})
    store_key priv d =
        if fs.exist key_name d
        then (d, ok tt)
        else and_then (d, or_else (tools.pretty priv) (err not_pretty))
            (λ text d1. key_written (fs.write_file key_name text d1) d1)

    -- loadPrivKey
    unfoldable pub load_priv_key : Action fs.Disk RepoError Key
    load_priv_key d =
        and_then (d, key_of (fs.read_file "certs/node.priv" d))
          (λ key d1. and_then (store_key key.priv_key d1) (λ u. pure key))

    unfoldable pub load_parts : fs.Disk → Run RepoError Parts
    load_parts d =
        parts_of (fs.read_file "crosshub.toml" d) (fs.read_file "network.toml" d)
          (fs.read_file "certs/node.priv" d) (fs.read_file "certs/node.cert" d)
          (fs.read_file "certs/agency.cert" d) (fs.read_file "certs/ca.cert" d)

    -- Load
    unfoldable pub load : Action fs.Disk RepoError Repo
    load d =
        and_then (d, load_parts d)
          (λ parts d1. and_then (retag load_private_key (load_priv_key d1)) (λ key.
            pure
              (record { config = parts.0; network_config = parts.1; key = key; certs = parts.2 })))
