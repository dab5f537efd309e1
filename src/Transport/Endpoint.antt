-- ===== src/Transport/Endpoint.antt =====
-- iroh.rs: `Iroh::new`, which opens the endpoint. The endpoint's builder belongs to the iroh
-- library, an interface here.
use peer_to_peer_decentraliz.Base.{
  ℕ, ◌≡◌, List, [], ◌∷◌, ◌++◌, Result, ok, err, Result-cases, inl, inr, codes, decimal,
}
use peer_to_peer_decentraliz.Packet.{Bytes}
use peer_to_peer_decentraliz.CustomTransport.{CustomController, build}
use peer_to_peer_decentraliz.Transport.{KeyOrder, Iroh, new}

pub data InitError (InvalidSocketAddr BindError : Type 0) : Type 0 where
  bind_addr_error : InvalidSocketAddr → InitError InvalidSocketAddr BindError
  build_error : BindError → InitError InvalidSocketAddr BindError

-- The calls on the builder, and the endpoint's key. `I` is the `Instant` of the controller.
pub record Endpoints (S K I Builder Endpoint InvalidSocketAddr BindError : Type 0) : Type 0 where
  pub builder : Builder
  pub secret_key : S → Builder → Builder
  pub alpns : List Bytes → Builder → Builder
  pub transport_config : (I → ℕ → CustomController) → (initial_mtu : ℕ) → Builder → Builder
  pub bind_addr : Bytes → Builder → Result Builder InvalidSocketAddr
  pub clear_address_lookup : Builder → Builder
  pub pkarr_publisher : Builder → Builder
  pub pkarr_resolver : Builder → Builder
  pub bind : Builder → Result Endpoint BindError
  pub id : Endpoint → K

abbrev pub alpn : Bytes
alpn = codes "iroh_vpn"

module _ {S K C I Builder Endpoint InvalidSocketAddr BindError : Type 0} (keys : KeyOrder K)
    (remote_id : C → K) (lib : Endpoints S K I Builder Endpoint InvalidSocketAddr BindError) where
  unfoldable pub open_endpoint : S → ℕ → Result Endpoint (InitError InvalidSocketAddr BindError)
  open_endpoint secret_key listen_port =
      let configured =
        lib.transport_config build 1200
          (lib.alpns (alpn ∷ []) (lib.secret_key secret_key lib.builder)) in
      elim (lib.bind_addr (codes "0.0.0.0:" ++ decimal listen_port) configured) [
        | err e ↦ err (bind_addr_error e)
        | ok bound ↦
            elim (lib.bind
              (lib.pkarr_resolver (lib.pkarr_publisher (lib.clear_address_lookup bound)))) [
                | err e ↦ err (build_error e)
                | ok endpoint ↦ ok endpoint
              ]
      ]

  -- `Iroh::new`; the manager's id is its endpoint's.
  unfoldable pub iroh_new :
      S → List K → ℕ → Result (Iroh K C) (InitError InvalidSocketAddr BindError)
  unfolding open_endpoint
  iroh_new secret_key peers listen_port = elim (open_endpoint secret_key listen_port) [
    | err e ↦ err e
    | ok endpoint ↦ ok (new keys remote_id (lib.id endpoint) peers)
  ]

  pub iroh_new-new :
      (s : S) (peers : List K) (port : ℕ) (st : Iroh K C)
      → iroh_new s peers port ≡ ok st
      → (id : K) × (new keys remote_id id peers ≡ st)
  unfolding iroh_new
  iroh_new-new s peers port st = elim (Result-cases (open_endpoint s port)) [
    | inr (x, e) ↦ rw (e, iroh_new) λ h. cc
    | inl (endpoint, e) ↦ rw (e, iroh_new) λ h. (lib.id endpoint, cc)
  ]
