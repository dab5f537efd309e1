-- ===== src/Examples/Started.antt =====
-- The start of a node (main.rs) from its configuration.
use peer_to_peer_decentraliz.Base.{
  ℕ, ◌≡◌, refl, none, some, true, Option, List, [], ◌∷◌, ◌++◌, ℕ_discrete, Result, ok, err, get,
  insert, get-insert, codes, arith, value, drop, ltb, if◌then◌else◌,
}
use peer_to_peer_decentraliz.Packet.{Bytes, Ipv4Addr, Ipv4Addr-discrete}
use peer_to_peer_decentraliz.Config.{Library, ConfigToml, from_file, masked, is_log_level}
use peer_to_peer_decentraliz.Transport.Endpoint.{Endpoints, iroh_new}
use peer_to_peer_decentraliz.Tun.{Configurations}
use peer_to_peer_decentraliz.Tun
use peer_to_peer_decentraliz.Node.{Node, start, key_set}
use peer_to_peer_decentraliz.Logger.{Tracing, Subscriber, init_logger}
use peer_to_peer_decentraliz.Main.{main, config_path}
use peer_to_peer_decentraliz.Main.Ready.{IsReady, main-IsReady}
use peer_to_peer_decentraliz.Examples.Mesh.{nat_keys, remote}

abbrev address_of : ℕ → Ipv4Addr
address_of i = record { a = 10; b = 67; c = 1; d = i }

-- What the configuration says.
abbrev settings : ConfigToml
settings = record {
  secret_key_path = codes "tmp/secret1.key";
  node_ipv4 = codes "10.67.1.1";
  tun_name = some (codes "tun1");
  listen_port = some 0;
  mtu = none;
  log_level = some (codes "debug");
  log_path = none;
  peers = record { pub_key = 72 ∷ []; ipv4 = codes "10.67.1.2" } ∷ [];
}

-- The configuration "1" and the key that it names.
abbrev zeros : Bytes
zeros =
    0 ∷ 0 ∷ 0 ∷ 0 ∷ 0 ∷ 0 ∷ 0 ∷ 0 ∷ 0 ∷ 0 ∷ 0 ∷ 0 ∷ 0 ∷ 0 ∷ 0 ∷ 0 ∷ 0 ∷ 0 ∷ 0 ∷ 0 ∷ 0 ∷ 0 ∷ 0 ∷ 0
    ∷ 0 ∷ 0 ∷ 0 ∷ 0 ∷ 0 ∷ 0 ∷ 0 ∷ []

abbrev files : List (Bytes × Bytes)
files = (codes "1", codes "document") ∷ (codes "tmp/secret1.key", 71 ∷ zeros) ∷ []

unfoldable Bytes-discrete : Discrete Bytes
unfolding ℕ_discrete
Bytes-discrete = hlevel ℕ_discrete

abbrev or_missing : Option Bytes → Result Bytes (Unit {0})
or_missing none = err tt
or_missing (some d) = ok d

abbrev first_byte : Bytes → ℕ
first_byte [] = 0
first_byte (x ∷ xs) = x

-- An address is read from its last octet, the tenth byte on, if this is one.
abbrev read_address : Bytes → Result Ipv4Addr (Unit {0})
read_address text = let v = value (drop 8 text) in if ltb v 256 then ok (address_of v) else err tt

-- Public keys are numbers here, and a connection is named by its remote key.
abbrev library : Library (List (Bytes × Bytes)) ℕ ℕ (Unit {0}) (Unit {0})
library = record {
  read = λ f p. or_missing (get Bytes-discrete p f);
  write = λ f p d. (insert Bytes-discrete p d f, ok tt);
  is_not_found = λ e. true;
  from_slice = λ bytes. ok settings;
  ipv4_from_str = read_address;
  public_key_from_str = λ text. ok (first_byte text);
  to_bytes = λ key. key ∷ zeros;
  from_bytes = first_byte;
  read-write = λ f p d h. rw (get-insert Bytes-discrete p p d f) (ground arith);
  read-write_other = λ f p q d n. rw (get-insert Bytes-discrete q p d f) (ground arith);
  length-to_bytes = λ s. refl;
  from_bytes-to_bytes = λ s. refl;
}

-- An endpoint that is the secret key with its port's text, and a device that lists its settings.
abbrev endpoints : Endpoints ℕ ℕ ℕ Bytes Bytes (Unit {0}) (Unit {0})
endpoints = record {
  builder = [];
  secret_key = λ s b. s ∷ b;
  alpns = λ names b. b;
  transport_config = λ make initial_mtu b. b;
  bind_addr = λ text b. ok b;
  clear_address_lookup = λ b. b;
  pkarr_publisher = λ b. b;
  pkarr_resolver = λ b. b;
  bind = λ b. ok b;
  id = first_byte;
}

abbrev devices : Configurations Bytes
devices = record {
  default = [];
  mtu = λ m d. m ∷ d;
  address = λ ip d. ip.d ∷ d;
  netmask = λ ip d. ip.d ∷ d;
  tun_name = λ name d. name ++ d;
  up = λ d. d;
}

abbrev ready_device : Bytes
ready_device = codes "tun1" ++ (0 ∷ 1 ∷ 1100 ∷ [])

-- A filter and a file are their texts, and there is no RUST_LOG.
abbrev tracing : Tracing Bytes Bytes
tracing = record {
  filter_from_env = none;
  new_filter = λ text. text;
  daily = λ directory file_name. directory ++ file_name;
}

ready_logger : Subscriber Bytes Bytes
unfolding init_logger
ready_logger = init_logger tracing none (codes "debug")

ready_filter : ready_logger.env_filter ≡ codes "error,mesh_network=debug"
unfolding ready_logger
ready_filter = refl

ready_node : Node ℕ ℕ
ready_node = start nat_keys remote 71 (address_of 1) ((address_of 2, 72) ∷ [])

main-IsReady_example :
    IsReady nat_keys remote library endpoints devices tracing settings ready_logger ready_node
      ready_device
unfolding get insert Bytes-discrete ℕ_discrete from_file masked is_log_level Ipv4Addr-discrete
    ready_logger ready_node start main iroh_new key_set config_path Tun.new
main-IsReady_example =
    main-IsReady nat_keys remote library endpoints devices tracing (codes "node" ∷ codes "1" ∷ [])
      files 0 (codes "document") settings ready_logger ready_node ready_device refl refl refl
