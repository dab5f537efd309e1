-- ===== src/Transport/Pairs.antt =====
-- Two nodes that list one another: who dials, and what the connection does at both ends.
use peer_to_peer_decentraliz.Base.{
  ℕ, ◌≡◌, ◌≢◌, refl, sym, ap, subst, ◌∙◌, Bool, true, false, Option, some, List, [], ◌∷◌,
  get-insert, ◌||◌, is_yes, Bool-cases, ◌⊎◌, inl, inr, ok, err, arith,
}
use peer_to_peer_decentraliz.Transport.{
  KeyOrder, ConnectionState, connected, connecting, waiting_incoming_connection, ConnectionEvent,
  outgoing_connection, incoming_connection, Iroh, state_of, init_ready_connection, new,
}
use peer_to_peer_decentraliz.Transport.Handlers.{
  init_peer, init_peers, init, handle_conn_event, on_outgoing, on_incoming,
}

module _ {K C : Type 0} (keys : KeyOrder K) (remote_id : C → K) where
  abbrev pub contains : List K → K → Bool
  contains [] k = false
  contains (j ∷ ks) k = is_yes (keys.eq j k) || contains ks k

  -- The entry that the start of a node makes for a peer.
  abbrev pub Started : K → K → Option (ConnectionState C) → Type 0
  Started id k s =
      ((keys.lt id k ≡ true) × (s ≡ some waiting_incoming_connection))
      ⊎ ((keys.lt id k ≡ false) × ((t : ℕ) × (s ≡ some (connecting t))))

  init_peer-id : (st : Iroh K C) (k : K) → (init_peer keys remote_id st k).0.id ≡ st.id
  unfolding init_peer
  init_peer-id st k = ground arith

  init_peer_self :
      (st : Iroh K C) (k : K)
      → Started st.id k (state_of keys remote_id (init_peer keys remote_id st k).0 k)
  unfolding init_peer
  init_peer_self st k = elim (Bool-cases (keys.lt st.id k)) [
    | inl l ↦ rw l (inl (refl, get-insert keys.eq k k _ st.state_table ∙ ground arith))
    | inr l ↦ rw l (
        inr (
          refl,
          (st.tasks, get-insert keys.eq k k (connecting st.tasks) st.state_table ∙ ground arith),
        ))
  ]

  init_peer-other :
      (st : Iroh K C) (j k : K)
      → ¬ (j ≡ k)
      → state_of keys remote_id (init_peer keys remote_id st j).0 k ≡ state_of keys remote_id st k
  unfolding init_peer
  init_peer-other st j k n = ground (
    arith,
    get-insert keys.eq k j waiting_incoming_connection st.state_table,
    get-insert keys.eq k j (connecting st.tasks) st.state_table,
  )

  init_peers-Started :
      (ks : List K) (st : Iroh K C) (k : K)
      → (contains ks k ≡ true) ⊎ Started st.id k (state_of keys remote_id st k)
      → Started st.id k (state_of keys remote_id (init_peers keys remote_id ks st).0 k)
  unfolding init_peers
  init_peers-Started [] st k (inl h) = cc
  init_peers-Started [] st k (inr h) = h
  init_peers-Started (j ∷ ks) st k h =
      let next = (init_peer keys remote_id st j).0 in
      let same_id = init_peer-id st j in
      subst (λ i. Started i k (state_of keys remote_id (init_peers keys remote_id ks next).0 k))
        same_id
        (init_peers-Started ks next k (elim (keys.eq j k) [
          | yes e ↦ inr (
              subst (λ q. Started next.id q (state_of keys remote_id next q)) e
                (subst (λ i. Started i j (state_of keys remote_id next j)) (sym same_id)
                  (init_peer_self st j)))
          | no n ↦ carry n h
        ]))
    where
      carry :
          ¬ (j ≡ k)
          → (contains (j ∷ ks) k ≡ true) ⊎ Started st.id k (state_of keys remote_id st k)
          → (contains ks k ≡ true)
            ⊎ Started
                (init_peer keys remote_id st j).0.id
                k
                (state_of keys remote_id (init_peer keys remote_id st j).0 k)
      carry n (inl listed) = inl (ground arith)
      carry n (inr s) = inr (rw (init_peer-id st j, init_peer-other st j k n) s)

  pub init-Started :
      (id : K) (peers : List K) (k : K)
      → contains peers k ≡ true
      → Started id k
          (state_of keys remote_id (init keys remote_id (new keys remote_id id peers)).0 k)
  unfolding init new
  init-Started id peers k h = init_peers-Started peers (new keys remote_id id peers) k (inl h)

  -- The manager behind an event of a connection task.
  abbrev pub after_event : Iroh K C → ConnectionEvent K C → Iroh K C
  after_event st e = elim (handle_conn_event keys remote_id st e) [ ok r ↦ r.0 | err _ ↦ st ]

  abbrev pub started : K → List K → Iroh K C
  started id peers = (init keys remote_id (new keys remote_id id peers)).0

  -- At this node the peer is connected by this very connection.
  abbrev pub Holds : Iroh K C → K → C → Type 0
  Holds st k conn = (t : ℕ) × (ch : ℕ) × (state_of keys remote_id st k ≡ some (connected t conn ch))

  pub ready :
      (st : Iroh K C) (conn : C)
      → state_of keys remote_id (init_ready_connection keys remote_id st conn).0 (remote_id conn)
        ≡ some (connected st.tasks conn st.channels)
  unfolding init_ready_connection
  ready st conn =
      get-insert keys.eq (remote_id conn) (remote_id conn) (connected st.tasks conn st.channels)
        st.state_table
      ∙ ground arith

  accepts :
      (st : Iroh K C) (conn : C)
      → state_of keys remote_id st (remote_id conn) ≡ some waiting_incoming_connection
      → Holds (after_event st (incoming_connection conn)) (remote_id conn) conn
  unfolding handle_conn_event
  accepts st conn e = (
    st.tasks,
    st.channels,
    ap (λ s. state_of keys remote_id (on_incoming keys remote_id st conn s).0 (remote_id conn)) e
        ∙ ready st conn,
  )

  dials :
      (st : Iroh K C) (conn : C) (t : ℕ)
      → state_of keys remote_id st (remote_id conn) ≡ some (connecting t)
      → Holds (after_event st (outgoing_connection conn)) (remote_id conn) conn
  unfolding handle_conn_event
  dials st conn t e = (
    st.tasks,
    st.channels,
    ap (λ s. state_of keys remote_id (on_outgoing keys remote_id st conn s).0 (remote_id conn)) e
        ∙ ready st conn,
  )

  -- Of two nodes just started, `a` waits and `b` dials; the two ends of the connection, as they
  -- arrive, are what the nodes then hold for one another.
  abbrev pub Meets : K → K → Iroh K C → Iroh K C → C → C → Type 0
  Meets a b na nb ab ba =
      (state_of keys remote_id na b ≡ some waiting_incoming_connection)
      × ((t : ℕ) × (state_of keys remote_id nb a ≡ some (connecting t)))
      × Holds (after_event na (incoming_connection ab)) b ab
      × Holds (after_event nb (outgoing_connection ba)) a ba

  waits_for :
      (a b : K) (s : Option (ConnectionState C))
      → keys.lt a b ≡ true
      → Started a b s
      → s ≡ some waiting_incoming_connection
  waits_for a b s l (inl (_, e)) = e
  waits_for a b s l (inr (l', _)) = cc

  dials_to :
      (a b : K) (s : Option (ConnectionState C))
      → keys.lt a b ≡ true
      → Started b a s
      → (t : ℕ) × (s ≡ some (connecting t))
  dials_to a b s l (inl (l', _)) = cc (keys.lt_asymm a b l)
  dials_to a b s l (inr (_, d)) = d

  meet :
      (a b : K) (pa pb : List K) (ab ba : C)
      → keys.lt a b ≡ true
      → contains pa b ≡ true
      → contains pb a ≡ true
      → remote_id ab ≡ b
      → remote_id ba ≡ a
      → Meets a b (started a pa) (started b pb) ab ba
  meet a b pa pb ab ba l ha hb rb ra =
      let waits = waits_for a b _ l (init-Started a pa b ha) in
      let (t, dialled) = dials_to a b _ l (init-Started b pb a hb) in
      (
        waits,
        (t, dialled),
        subst (λ k. Holds (after_event (started a pa) (incoming_connection ab)) k ab) rb
            (accepts (started a pa) ab (
              subst
                (λ k. state_of keys remote_id (started a pa) k ≡ some waiting_incoming_connection)
                (sym rb) waits)),
        subst (λ k. Holds (after_event (started b pb) (outgoing_connection ba)) k ba) ra
            (dials (started b pb) ba t (
              subst (λ k. state_of keys remote_id (started b pb) k ≡ some (connecting t)) (sym ra)
                dialled)),
      )

  -- Of two nodes with different keys that list one another, exactly one dials and the other waits,
  -- whatever their keys; and the connection that this makes, reported at both ends as the other's,
  -- is held by both.
  pub started-Meets :
      (a b : K) (pa pb : List K) (ab ba : C)
      → a ≢ b
      → contains pa b ≡ true
      → contains pb a ≡ true
      → remote_id ab ≡ b
      → remote_id ba ≡ a
      → Meets a b (started a pa) (started b pb) ab ba
        ⊎ Meets b a (started b pb) (started a pa) ba ab
  started-Meets a b pa pb ab ba n ha hb rb ra = elim (Bool-cases (keys.lt a b)) [
    | inl l ↦ inl (meet a b pa pb ab ba l ha hb rb ra)
    | inr l ↦ inr (meet b a pb pa ba ab (keys.lt_total a b n l) hb ha ra rb)
  ]
