-- ===== src/Network.antt =====
-- Several hosts, each a node with its device (main.rs, tun.rs), and the datagrams between their
-- sessions (iroh.rs). What the manager puts on a channel, the session that was spawned with it sends.
-- The transport may lose, repeat and reorder datagrams; that a session reads only what the node of
-- its peer has sent is what the iroh library's authenticated connections give.
pub mod Sessions
pub mod Accounts
pub mod Genuine
pub mod Runs
pub mod Pairs
pub mod Delivery
use mathlib.Core.List.{Memᴰ}
use peer_to_peer_decentraliz.Base.{
  ℕ, true, Option, none, some, err, ◌≡◌, List, [], ◌∷◌, ◌++◌, Checked, returns, panics, ◌>>=◌, ite,
  ok,
}
use peer_to_peer_decentraliz.Packet.{Bytes, Ipv4Addr}
use peer_to_peer_decentraliz.Packet.Header.{IsBytes}
use peer_to_peer_decentraliz.Transport.{KeyOrder, CoreAction, Effect, try_send}
use peer_to_peer_decentraliz.Transport
use peer_to_peer_decentraliz.Transport.Handlers.{init, handle_core_event, handle_conn_event}
use peer_to_peer_decentraliz.Transport.Tasks.{
  TaskEffect, send_datagram, on_peer_connected, from_channel,
}
use peer_to_peer_decentraliz.Transport.Accounts.{follow, no_session}
use peer_to_peer_decentraliz.Host.{Host, Round, inner, reader_reads, round, beside}
use peer_to_peer_decentraliz.Node.{
  Node, host_packet, tun_packet, session_packet, manager_action, manager_event, start, key_set,
}

-- A packet that a session of one node has sent to another node.
pub record Letter (K : Type 0) : Type 0 where
  pub from : K
  pub to : K
  pub content : Bytes

pub record Network (K C : Type 0) : Type 0 where
  pub hosts : K → Host K C
  -- for each channel of a manager the peer of the session that reads it, while its sender lives
  pub sessions : K → ℕ → Option K
  pub wire : List (Letter K)

module _ {K C : Type 0} (keys : KeyOrder K) (remote_id : C → K) where
  abbrev pub place : {A : Type 0} → K → A → (K → A) → K → A
  place k h hosts j = ite (keys.eq k j) h (hosts j)

  -- The effects of the manager when it takes what stands first on its channel.
  abbrev pub ordered : Node K C → List (CoreAction K) → List (Effect K C)
  ordered n [] = []
  ordered n (action ∷ rest) = (handle_core_event keys remote_id n.iroh action).1

  -- What the manager does in a round.
  abbrev pub performed : Node K C → Round K C → List (Effect K C)
  performed n (inner manager_action) = ordered n n.out.to_iroh
  performed n (inner (manager_event event)) = elim (handle_conn_event keys remote_id n.iroh event) [
    | ok r ↦ r.1
    | err _ ↦ []
  ]
  performed n _ = []

  -- What a session does with a packet that its channel gives.
  abbrev session_sends : K → Bytes → List (TaskEffect K K)
  session_sends peer p =
      on_peer_connected (λ j. j) (λ (_ : Unit {0}). true) peer (from_channel (some (p, ok tt)) ∷ [])

  abbrev pub datagrams : K → K → List (TaskEffect K K) → List (Letter K)
  datagrams k peer [] = []
  datagrams k peer (send_datagram p ∷ es) =
      record { from = k; to = peer; content = p } ∷ datagrams k peer es
  datagrams k peer (_ ∷ es) = datagrams k peer es

  -- The session that reads the channel, if there is one, sends the packet to its peer.
  abbrev pub handed : K → Option K → Bytes → List (Letter K)
  handed k none p = []
  handed k (some peer) p = datagrams k peer (session_sends peer p)

  -- The packets that the manager puts on channels come to the sessions that read these.
  abbrev pub letters : K → (ℕ → Option K) → List (Effect K C) → List (Letter K)
  letters k sessions [] = []
  letters k sessions (try_send channel p ∷ es) =
      handed k (sessions channel) p ++ letters k sessions es
  letters k sessions (e ∷ es) = letters k (follow keys remote_id sessions (e ∷ [])) es

  -- The host of the node `k` makes a round.
  unfoldable pub move : Network K C → K → Round K C → Checked (Network K C)
  unfolding on_peer_connected
  move w k r = round keys remote_id (w.hosts k) r >>= λ h.
      let effects = performed (w.hosts k).node r in
      returns (record {
        hosts = place k h w.hosts;
        sessions = place k (follow keys remote_id (w.sessions k) effects) w.sessions;
        wire = letters k (w.sessions k) effects ++ w.wire;
      })

  -- The sessions that the manager has spawned at its start.
  abbrev pub first_sessions : K → List (Ipv4Addr × K) → ℕ → Option K
  first_sessions k table =
      follow keys remote_id (no_session keys remote_id)
        (init keys remote_id (Transport.new keys remote_id k (key_set keys remote_id table []))).1

  unfoldable pub opened : (K → Ipv4Addr) → (K → List (Ipv4Addr × K)) → Network K C
  opened ip table = record {
    hosts = λ k. beside keys remote_id (start keys remote_id k (ip k) (table k));
    sessions = λ k. first_sessions k (table k);
    wire = [];
  }

  module _ (Given : K → Bytes → Type 0) where
    -- The device of `k` gives packets of its own, and the sessions what was sent to them. A packet
    -- passes between the node and the device by the rounds of the device's workers alone.
    abbrev pub Allowed : Network K C → K → Round K C → Type 0
    Allowed w k (reader_reads (ok p)) = IsBytes p × Given k p
    Allowed w k (inner (session_packet p j)) =
        IsBytes p × Memᴰ (record { from = j; to = k; content = p }) w.wire
    Allowed w k (inner (host_packet p)) = ⊥
    Allowed w k (inner tun_packet) = ⊥
    Allowed w k _ = Unit {0}

    -- The networks that rounds lead to, from nodes that have just started.
    pub data Reaches (ip : K → Ipv4Addr) (table : K → List (Ipv4Addr × K))
        : Network K C → Type 0 where
      begins : Reaches ip table (opened ip table)
      moves :
          {w next : Network K C}
          → Reaches ip table w
          → (k : K) (r : Round K C) → Allowed w k r
          → move w k r ≡ returns next
          → Reaches ip table next
