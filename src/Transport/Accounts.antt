-- ===== src/Transport/Accounts.antt =====
-- The sessions that live, against the connections that the manager's table holds.
use peer_to_peer_decentraliz.Base.{
  ℕ, suc, ◌≤◌, ◌≡◌, refl, ite, ◌==◌, if◌then◌else◌, Option, none, some, List, [], ◌∷◌, ◌++◌,
  get-insert, Bool-cases, Option-cases, inl, inr, arith,
}
use peer_to_peer_decentraliz.Transport.{
  KeyOrder, ConnectionState, connected, connecting, waiting_incoming_connection, disconnected,
  Effect, send_to_coord, spawn_connect, spawn_session, spawn_accept, abort, close, try_send,
  drop_sender, Iroh, Handled, dropped, state_of, set_state, start_connecting, init_new_connection,
  init_ready_connection,
}

module _ {K C : Type 0} (keys : KeyOrder K) (remote_id : C → K) where
  -- For each channel the peer of the session that reads it, while its sender lives.
  abbrev pub Live : Type 0
  Live = ℕ → Option K

  abbrev set : ℕ → Option K → Live → Live
  set channel who live n = if channel == n then who else live n

  -- A spawned session is one for its connection's peer, until the sender of its channel goes.
  abbrev pub follow : Live → List (Effect K C) → Live
  follow live [] = live
  follow live (spawn_session task channel conn ∷ es) =
      follow (set channel (some (remote_id conn)) live) es
  follow live (drop_sender channel ∷ es) = follow (set channel none live) es
  follow live (_ ∷ es) = follow live es

  abbrev pub no_session : Live
  no_session channel = none

  -- The channel that the table holds for a peer.
  abbrev pub channel_in : Option (ConnectionState C) → Option ℕ
  channel_in (some (connected task conn channel)) = some channel
  channel_in _ = none

  abbrev pub channel_of : Iroh K C → K → Option ℕ
  channel_of st k = channel_in (state_of keys remote_id st k)

  pub record IsAccounted (live : Live) (st : Iroh K C) : Type 0 where
    pub held : (k : K) (n : ℕ) → live n ≡ some k → channel_of st k ≡ some n
    pub lives : (k : K) (n : ℕ) → channel_of st k ≡ some n → live n ≡ some k
    pub fresh : (n : ℕ) → st.channels ≤ n → live n ≡ none

  abbrev pub Accounts : Live → Handled K C → Type 0
  Accounts live r = IsAccounted (follow live r.1) r.0

  pub follow-append :
      (xs ys : List (Effect K C)) (live : Live)
      → follow live (xs ++ ys) ≡ follow (follow live xs) ys
  follow-append [] ys live = refl
  follow-append (spawn_session t c conn ∷ xs) ys live =
      follow-append xs ys (set c (some (remote_id conn)) live)
  follow-append (drop_sender c ∷ xs) ys live = follow-append xs ys (set c none live)
  follow-append (send_to_coord e ∷ xs) ys live = follow-append xs ys live
  follow-append (spawn_connect t k ∷ xs) ys live = follow-append xs ys live
  follow-append (spawn_accept t ∷ xs) ys live = follow-append xs ys live
  follow-append (abort t ∷ xs) ys live = follow-append xs ys live
  follow-append (close c r ∷ xs) ys live = follow-append xs ys live
  follow-append (try_send c p ∷ xs) ys live = follow-append xs ys live

  abbrev release : Option ℕ → Live → Live
  release none live = live
  release (some channel) live = set channel none live

  follow-dropped :
      (s : Option (ConnectionState C)) (live : Live)
      → follow live (dropped s) ≡ release (channel_in s) live
  follow-dropped none live = refl
  follow-dropped (some (connected t conn n)) live = refl
  follow-dropped (some (connecting t)) live = refl
  follow-dropped (some waiting_incoming_connection) live = refl
  follow-dropped (some disconnected) live = refl

  channel_of-set_state :
      (st : Iroh K C) (k j : K) (s : ConnectionState C)
      → channel_of (set_state keys remote_id st k s).0 j
        ≡ ite (keys.eq k j) (channel_in (some s)) (channel_of st j)
  unfolding set_state
  channel_of-set_state st k j s = ground (arith, get-insert keys.eq j k s st.state_table)

  -- An entry without a session in the place of any entry.
  idle-Accounts :
      (live : Live) (st : Iroh K C) (k : K) (s : ConnectionState C)
      → IsAccounted live st
      → channel_in (some s) ≡ none
      → IsAccounted (release (channel_of st k) live) (set_state keys remote_id st k s).0
  unfolding set_state
  idle-Accounts live st k s h quiet = elim (Option-cases (channel_of st k)) [
    | inl e ↦ rw e (record {
      held = λ j n l. ground (arith, channel_of-set_state st k j s, h.held j n, h.held k n);
      lives = λ j n l. ground (arith, channel_of-set_state st k j s, h.lives j n);
      fresh = λ n l. h.fresh n l;
    })
    | inr (old, e) ↦ rw e (record {
      held = λ j n l. ground (arith, channel_of-set_state st k j s, h.held j n);
      lives = λ j n l. ground (arith, channel_of-set_state st k j s, h.lives j n, h.lives k old);
      fresh = λ n l. ground (arith, h.fresh n);
    })
  ]

  pub init_ready_connection-Accounts :
      (live : Live) (st : Iroh K C) (conn : C)
      → IsAccounted live st
      → Accounts live (init_ready_connection keys remote_id st conn)
  unfolding init_ready_connection set_state
  init_ready_connection-Accounts live st conn h =
      let k = remote_id conn in
      let more : Iroh K C = record st { tasks = suc st.tasks; channels = suc st.channels } in
      let s = connected st.tasks conn st.channels in
      let unused = h.fresh st.channels (omega arith) in
      rw (follow-dropped (state_of keys remote_id st k) (set st.channels (some k) live))
        (elim (Option-cases (channel_of st k)) [
          | inl e ↦ rw e (record {
            held = λ j n l. ground (arith, channel_of-set_state more k j s, h.held j n, h.held k n);
            lives = λ j n l. ground (arith, channel_of-set_state more k j s, h.lives j n, unused);
            fresh = λ n l. ground (arith, h.fresh n);
          })
          | inr (old, e) ↦ rw e (record {
            held = λ j n l. ground (arith, channel_of-set_state more k j s, h.held j n, h.held k n);
            lives = λ j n l.
                ground (arith, channel_of-set_state more k j s, h.lives j n, h.lives k old, unused);
            fresh = λ n l. ground (arith, h.fresh n);
          })
        ])

  pub start_connecting-Accounts :
      (live : Live) (st : Iroh K C) (k : K)
      → IsAccounted live st
      → Accounts live (start_connecting keys remote_id st k)
  unfolding start_connecting set_state
  start_connecting-Accounts live st k h =
      let more : Iroh K C = record st { tasks = suc st.tasks } in
      let wide : IsAccounted live more = record {
        held = h.held;
        lives = h.lives;
        fresh = h.fresh;
      } in
      rw (follow-dropped (state_of keys remote_id st k) live)
        (idle-Accounts live more k (connecting st.tasks) wide refl)

  pub set_state-Accounts :
      (live : Live) (st : Iroh K C) (k : K) (s : ConnectionState C)
      → IsAccounted live st
      → channel_in (some s) ≡ none
      → Accounts live (set_state keys remote_id st k s)
  unfolding set_state
  set_state-Accounts live st k s h quiet =
      rw (follow-dropped (state_of keys remote_id st k) live) (idle-Accounts live st k s h quiet)

  pub init_new_connection-Accounts :
      (live : Live) (st : Iroh K C) (k : K)
      → IsAccounted live st
      → Accounts live (init_new_connection keys remote_id st k)
  unfolding init_new_connection
  init_new_connection-Accounts live st k h = elim (Bool-cases (keys.lt st.id k)) [
    | inl l ↦ rw l (set_state-Accounts live st k waiting_incoming_connection h refl)
    | inr l ↦ rw l (start_connecting-Accounts live st k h)
  ]
