-- ===== src/Node/Schedules.antt =====
-- A node from its start, under every schedule of its tasks.
use mathlib.Core.Path.{fun_ext}
use peer_to_peer_decentraliz.Base.{
  ◌≡◌, refl, sym, ap, subst, ◌∙◌, ◌||◌, is_yes, is_some, List, [], ◌∷◌, get, insert, get-insert,
  Option-cases, inl, inr, arith, All, Returns, Returns-bind, Returns-mono,
}
use peer_to_peer_decentraliz.Packet.{Ipv4Addr}
use peer_to_peer_decentraliz.Vpn.{PeerState, fresh_peer, new_peers}
use peer_to_peer_decentraliz.Vpn
use peer_to_peer_decentraliz.Vpn.Invariant.{new-IsValid, new_peers-fresh}
use peer_to_peer_decentraliz.Vpn.Refinement.{view}
use peer_to_peer_decentraliz.Vpn.Whitelist.{listed, known-new}
use peer_to_peer_decentraliz.Transport.{
  KeyOrder, ConnectionState, connecting, waiting_incoming_connection, Iroh, set_state,
  start_connecting, new_table, IrohEvent, CoreAction,
}
use peer_to_peer_decentraliz.Transport
use peer_to_peer_decentraliz.Transport.Handlers.{init, init_peer, init_peers}
use peer_to_peer_decentraliz.Transport.Announcements.{hear, linked}
use peer_to_peer_decentraliz.Transport.Reports.{none_up, init-IsSilent}
use peer_to_peer_decentraliz.Transport.Pairs.{contains}
use peer_to_peer_decentraliz.Node.{Node, Turn, start, turn, play, final_mtu, insert_key, key_set}
use peer_to_peer_decentraliz.Node.Views.{ups, IsSend, Concerned}
use peer_to_peer_decentraliz.Node.Peers.{present}
use peer_to_peer_decentraliz.Node.Invariant.{IsTurn, IsSynced, turn-IsSynced}

module _ {K C : Type 0} (keys : KeyOrder K) (remote_id : C → K) where
  present-new_table :
      (ks : List K) (table : List (K × ConnectionState C)) (k : K)
      → is_some (get keys.eq k (new_table keys remote_id ks table))
        ≡ (contains keys remote_id ks k || is_some (get keys.eq k table))
  unfolding new_table
  present-new_table [] table k = refl
  present-new_table (j ∷ ks) table k = ground (
    arith,
    get-insert keys.eq k j ConnectionState.disconnected table,
    present-new_table ks (insert keys.eq j ConnectionState.disconnected table) k,
  )

  present-init_peer :
      (st : Iroh K C) (j k : K)
      → present keys remote_id (init_peer keys remote_id st j).0 k
        ≡ (is_yes (keys.eq j k) || present keys remote_id st k)
  unfolding init_peer
  present-init_peer st j k = ground (
    arith,
    get-insert keys.eq k j waiting_incoming_connection st.state_table,
    get-insert keys.eq k j (connecting st.tasks) st.state_table,
  )

  present-init_peers :
      (ks : List K) (st : Iroh K C) (k : K)
      → present keys remote_id (init_peers keys remote_id ks st).0 k
        ≡ (contains keys remote_id ks k || present keys remote_id st k)
  unfolding init_peers
  present-init_peers [] st k = refl
  present-init_peers (j ∷ ks) st k =
      ground
        (arith, present-init_peer st j k, present-init_peers ks (init_peer keys remote_id st j).0 k)

  present-init :
      (id : K) (ks : List K)
      → present keys remote_id (init keys remote_id (Transport.new keys remote_id id ks)).0
        ≡ contains keys remote_id ks
  unfolding init Transport.new get
  present-init id ks = fun_ext λ k. ground (
    arith,
    present-init_peers ks (Transport.new keys remote_id id ks) k,
    present-new_table ks [] k,
  )

  contains-insert_key :
      (ks : List K) (j k : K)
      → contains keys remote_id (insert_key keys remote_id j ks) k
        ≡ (is_yes (keys.eq j k) || contains keys remote_id ks k)
  unfolding insert_key
  contains-insert_key [] j k = refl
  contains-insert_key (i ∷ ks) j k = ground (arith, contains-insert_key ks j k)

  contains-key_set :
      (table : List (Ipv4Addr × K)) (set : List K) (k : K)
      → contains keys remote_id (key_set keys remote_id table set) k
        ≡ (listed keys.eq table k || contains keys remote_id set k)
  unfolding key_set
  contains-key_set [] set k = refl
  contains-key_set ((ip, j) ∷ table) set k = ground (
    arith,
    contains-key_set table (insert_key keys remote_id j set) k,
    contains-insert_key set j k,
  )

  pub contains-listed :
      (table : List (Ipv4Addr × K)) (k : K)
      → contains keys remote_id (key_set keys remote_id table []) k ≡ listed keys.eq table k
  contains-listed table k = ground (arith, contains-key_set table [] k)

  ups-new :
      (ip : Ipv4Addr) (table : List (Ipv4Addr × K))
      → ups (view keys.eq (Vpn.new keys.eq ip table final_mtu)) ≡ none_up keys remote_id
  unfolding Vpn.new get
  ups-new ip table = fun_ext λ k. elim (Option-cases (get keys.eq k (new_peers keys.eq table []))) [
    | inl e ↦ ground arith
    | inr (p, e) ↦ ground (arith, new_peers-fresh keys.eq table [] (λ j q x. cc) k p e)
  ]

  pub start-IsSynced :
      (id : K) (ip : Ipv4Addr) (table : List (Ipv4Addr × K))
      → IsSynced keys remote_id (start keys remote_id id ip table)
  unfolding start
  start-IsSynced id ip table =
      let ks = key_set keys remote_id table [] in
      let (quiet, nothing) = init-IsSilent keys remote_id id ks in
      record {
        valid = new-IsValid keys.eq ip table final_mtu;
        peers_agree =
            known-new keys.eq ip table final_mtu
            ∙ sym (present-init id ks ∙ fun_ext (λ k. contains-listed table k));
        links_agree = ap (hear keys.eq _) nothing ∙ ups-new ip table ∙ sym quiet;
        concerned = subst (All (Concerned _)) (sym nothing) tt;
        sends = tt;
      }

  pub play-IsSynced :
      (n : Node K C) (ts : List (Turn K C))
      → All IsTurn ts
      → IsSynced keys remote_id n
      → Returns (IsSynced keys remote_id) (play keys remote_id n ts)
  unfolding play
  play-IsSynced n [] b s = s
  play-IsSynced n (t ∷ ts) b s =
      Returns-bind _ _ (turn keys remote_id n t) _ (turn-IsSynced keys remote_id n t b.0 s)
        λ next s'. play-IsSynced next ts b.1 s'

  -- Under every schedule of a started node no task panics, the manager is never asked to connect or
  -- to disconnect anybody, and the router knows exactly the links that the manager holds, once it
  -- has taken the events that are under way to it.
  pub play-start :
      (id : K) (ip : Ipv4Addr) (table : List (Ipv4Addr × K)) (ts : List (Turn K C))
      → All IsTurn ts
      → Returns
          (λ n.
            All IsSend n.out.to_iroh
            × (hear keys.eq (ups (view keys.eq n.core)) n.to_coord ≡ linked keys remote_id n.iroh))
          (play keys remote_id (start keys remote_id id ip table) ts)
  play-start id ip table ts b =
      Returns-mono _ _ (play keys remote_id (start keys remote_id id ip table) ts)
        (λ n s. (s.sends, s.links_agree))
        (play-IsSynced (start keys remote_id id ip table) ts b (start-IsSynced id ip table))
