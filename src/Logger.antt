-- ===== src/Logger.antt =====
-- main.rs: `init_logger`, over the interface `Tracing` of the tracing libraries. The guard of the
-- file's writer, which `main` keeps to its end, is left out.
use peer_to_peer_decentraliz.Base.{Bool, true, false, Option, none, some, ◌++◌, codes}
use peer_to_peer_decentraliz.Packet.{Bytes}

pub record Tracing (Filter Appender : Type 0) : Type 0 where
  -- `EnvFilter::try_from_default_env`, `none` where it fails
  pub filter_from_env : Option Filter
  -- `EnvFilter::new`
  pub new_filter : Bytes → Filter
  -- `rolling::daily`
  pub daily : (directory file_name : Bytes) → Appender

pub record ConsoleLayer : Type 0 where
  pub with_ansi : Bool
  pub with_target : Bool

pub record FileLayer (Appender : Type 0) : Type 0 where
  pub writer : Appender
  pub with_ansi : Bool

-- What the registry is set up with.
pub record Subscriber (Filter Appender : Type 0) : Type 0 where
  pub env_filter : Filter
  pub console_layer : ConsoleLayer
  pub file_layer : Option (FileLayer Appender)

unfoldable pub init_logger :
    {Filter Appender : Type 0}
    → Tracing Filter Appender
    → (log_dir : Option Bytes) (app_level : Bytes) → Subscriber Filter Appender
init_logger tracing log_dir app_level =
    let filter_settings = codes "error,mesh_network=" ++ app_level in
    record {
      env_filter = elim tracing.filter_from_env [
        | some found ↦ found
        | none ↦ tracing.new_filter filter_settings
      ];
      console_layer = record { with_ansi = true; with_target = true };
      file_layer = elim log_dir [
        | some path ↦
            some (record { writer = tracing.daily path (codes "iroh-node.log"); with_ansi = false })
        | none ↦ none
      ];
    }
