-- ===== src/Main/Ready.antt =====
-- What holds of a node that `main` gets to run.
use peer_to_peer_decentraliz.Base.{
  ◌≡◌, refl, true, Option, ap, subst, ◌∙◌, List, [], get, ok, Result-cases, inl, inr,
}
use peer_to_peer_decentraliz.Packet.{Bytes, Ipv4Addr, Ipv4Addr-discrete}
use peer_to_peer_decentraliz.Vpn
use peer_to_peer_decentraliz.Config.{
  ConfigToml, Config, Library, subnet, netmask, masked, is_log_level, from_file,
}
use peer_to_peer_decentraliz.Config.Checks.{last_key, IsChecked, from_file-IsChecked}
use peer_to_peer_decentraliz.Logger.{Tracing, Subscriber, init_logger}
use peer_to_peer_decentraliz.Transport.{KeyOrder}
use peer_to_peer_decentraliz.Transport.Endpoint.{Endpoints, iroh_new, iroh_new-new}
use peer_to_peer_decentraliz.Tun.{Configurations}
use peer_to_peer_decentraliz.Tun
use peer_to_peer_decentraliz.Node.{Node, key_set, start_with, start}
use peer_to_peer_decentraliz.Node.Invariant.{IsSynced}
use peer_to_peer_decentraliz.Node.Schedules.{start-IsSynced}
use peer_to_peer_decentraliz.Main.{runs, config_path, Outcome, with_config, main}

module _
    {F S K C D I Filter Appender Builder Endpoint IoError ParseError InvalidSocketAddr
      BindError : Type 0}
    (keys : KeyOrder K) (remote_id : C → K) (files : Library F S K IoError ParseError)
    (endpoints : Endpoints S K I Builder Endpoint InvalidSocketAddr BindError)
    (devices : Configurations D) (tracing : Tracing Filter Appender) where
  -- A node and its device, against the configuration file that they come from.
  pub record IsReady (toml : ConfigToml) (l : Subscriber Filter Appender) (n : Node K C) (d : D)
      : Type 0 where
    pub in_subnet : masked n.core.ipv4_addr ≡ subnet
    pub own_address : files.ipv4_from_str toml.node_ipv4 ≡ ok n.core.ipv4_addr
    pub routes :
        (ip : Ipv4Addr) → get Ipv4Addr-discrete ip n.core.route_table ≡ last_key files toml.peers ip
    -- the logger has a known level
    pub logged :
        (dir : Option Bytes) × (level : Bytes) × (is_log_level level ≡ true)
        × (l ≡ init_logger tracing dir level)
    pub synced : IsSynced keys remote_id n
    -- the device has the router's address and takes packets of the router's limit
    pub device :
        (name : Bytes) × (d ≡ Tun.new devices name n.core.max_packet_size n.core.ipv4_addr netmask)

  started-IsReady :
      (toml : ConfigToml) (cfg : Config S K) (id : K)
      → IsChecked files toml cfg
      → IsReady toml
          (init_logger tracing cfg.log_path cfg.log_level)
          (start keys remote_id id cfg.node_ipv4 cfg.peers)
          (Tun.new devices cfg.tun_name
            (start keys remote_id id cfg.node_ipv4 cfg.peers).core.max_packet_size
            cfg.node_ipv4
            cfg.netmask)
  unfolding start start_with Vpn.new
  started-IsReady toml cfg id (inside, found, known, peers, _, mask) = record {
    in_subnet = inside;
    own_address = found;
    routes = peers;
    logged = (cfg.log_path, cfg.log_level, known, refl);
    synced = start-IsSynced keys remote_id id cfg.node_ipv4 cfg.peers;
    device = (cfg.tun_name, ap (Tun.new devices cfg.tun_name _ cfg.node_ipv4) mask);
  }

  runs-injective :
      (l k : Subscriber Filter Appender) (n m : Node K C) (d e : D)
      → Path (Outcome keys remote_id files endpoints devices tracing) (runs l n d) (runs k m e)
      → (l ≡ k) × (n ≡ m) × (d ≡ e)
  runs-injective l k n m d e h = (cc, cc, cc)

  with_config-IsReady :
      (toml : ConfigToml) (cfg : Config S K) (l : Subscriber Filter Appender) (n : Node K C) (d : D)
      → IsChecked files toml cfg
      → with_config keys remote_id files endpoints devices tracing cfg ≡ runs l n d
      → IsReady toml l n d
  unfolding with_config start start_with Vpn.new
  with_config-IsReady toml cfg l n d h =
      elim (Result-cases (
        iroh_new keys remote_id endpoints cfg.secret_key (key_set keys remote_id cfg.peers [])
          cfg.listen_port)) [
            | inr (x, e) ↦ rw (e, with_config) λ o. cc
            | inl (iroh, e) ↦
                rw (e, with_config)
                  λ o.
                    let (id, made) = iroh_new-new keys remote_id endpoints _ _ _ iroh e in
                    let (same_logger, same_node, same_device) = runs-injective _ l _ n _ d o in
                    subst (λ x. IsReady toml l x d)
                      (ap (λ i. start_with keys remote_id i cfg.node_ipv4 cfg.peers) made
                        ∙ same_node)
                      (subst
                        (λ x. IsReady toml x (start keys remote_id id cfg.node_ipv4 cfg.peers) d)
                        same_logger
                        (subst
                          (IsReady toml (init_logger tracing cfg.log_path cfg.log_level)
                            (start keys remote_id id cfg.node_ipv4 cfg.peers))
                          same_device (started-IsReady toml cfg id h)))
          ]

  -- Whatever node `main` gets to run has an address of the subnet, the one of its configuration; its
  -- router sends each address to the key of the last entry that names it; its router and its manager
  -- are in step, so that no schedule of its tasks panics or parts them; and its device has the
  -- router's address, the fixed netmask and the router's packet limit for its MTU. Its logger is
  -- set up for a known level.
  pub main-IsReady :
      (args : List Bytes) (f : F) (fresh : S) (bytes : Bytes) (toml : ConfigToml)
      (l : Subscriber Filter Appender) (n : Node K C) (d : D)
      → files.read f (config_path args) ≡ ok bytes
      → files.from_slice bytes ≡ ok toml
      → (main keys remote_id files endpoints devices tracing args f fresh).1 ≡ runs l n d
      → IsReady toml l n d
  unfolding main
  main-IsReady args f fresh bytes toml l n d r s =
      elim (Result-cases (from_file files f (config_path args) fresh).1) [
        | inr (x, e) ↦ rw (e, main) λ o. cc
        | inl (cfg, e) ↦
            rw (e, main)
              λ o.
                with_config-IsReady toml cfg l n d
                  (from_file-IsChecked files f (config_path args) bytes toml fresh cfg r s e) o
      ]
