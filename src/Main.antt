-- ===== src/Main.antt =====
-- main.rs: the node from its configuration, and what it takes to get as far as its three tasks.
-- What it prints and logs is left out.
pub mod Ready
use peer_to_peer_decentraliz.Base.{List, [], ◌∷◌, Result, ok, err, codes}
use peer_to_peer_decentraliz.Packet.{Bytes}
use peer_to_peer_decentraliz.Logger.{Tracing, Subscriber, init_logger}
use peer_to_peer_decentraliz.Config.{Config, ConfigError, Library, from_file}
use peer_to_peer_decentraliz.Transport.{KeyOrder, Iroh}
use peer_to_peer_decentraliz.Transport.Endpoint.{InitError, Endpoints, iroh_new}
use peer_to_peer_decentraliz.Tun.{Configurations}
use peer_to_peer_decentraliz.Tun
use peer_to_peer_decentraliz.Node.{Node, final_mtu, key_set, start_with}

-- How far `main` comes, with the logger that it has set up: the configuration or the endpoint
-- fails, or the node runs beside its device.
pub data Started (K C D L ConfigFault EndpointFault : Type 0) : Type 0 where
  config_failed : ConfigFault → Started K C D L ConfigFault EndpointFault
  iroh_failed : (logger : L) → EndpointFault → Started K C D L ConfigFault EndpointFault
  runs : (logger : L) → Node K C → D → Started K C D L ConfigFault EndpointFault

-- `std::env::args().nth(1)`, or the default.
unfoldable pub config_path : List Bytes → Bytes
config_path (program ∷ path ∷ _) = path
config_path _ = codes "config.toml"

module _
    {F S K C D I Filter Appender Builder Endpoint IoError ParseError InvalidSocketAddr
      BindError : Type 0}
    (keys : KeyOrder K) (remote_id : C → K) (files : Library F S K IoError ParseError)
    (endpoints : Endpoints S K I Builder Endpoint InvalidSocketAddr BindError)
    (devices : Configurations D) (tracing : Tracing Filter Appender) where
  abbrev pub Outcome : Type 0
  Outcome =
      Started K C D (Subscriber Filter Appender) (ConfigError IoError ParseError)
        (InitError InvalidSocketAddr BindError)

  -- `main` behind the configuration.
  unfoldable pub with_config : Config S K → Outcome
  unfolding iroh_new start_with init_logger
  with_config cfg =
      let logger = init_logger tracing cfg.log_path cfg.log_level in
      elim (iroh_new keys remote_id endpoints cfg.secret_key (key_set keys remote_id cfg.peers [])
        cfg.listen_port) [
          | err e ↦ iroh_failed logger e
          | ok iroh ↦
              runs logger (start_with keys remote_id iroh cfg.node_ipv4 cfg.peers)
                (Tun.new devices cfg.tun_name final_mtu cfg.node_ipv4 cfg.netmask)
        ]

  -- `main`, with the files that it leaves; `fresh` is the key that it would generate.
  unfoldable pub main : List Bytes → F → S → F × Outcome
  unfolding with_config
  main args f fresh =
      let (g, loaded) = from_file files f (config_path args) fresh in
      (g, elim loaded [ err e ↦ config_failed e | ok cfg ↦ with_config cfg ])
