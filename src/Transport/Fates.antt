-- ===== src/Transport/Fates.antt =====
-- What becomes of a session that the manager's table holds.
use mathlib.Core.List.{Memᴰ}
use peer_to_peer_decentraliz.Base.{
  ℕ, ◌≡◌, ◌≢◌, refl, sym, ap, subst, ◌∙◌, none, some, List, [], ◌∷◌, ◌++◌, Bool-cases, ◌⊎◌, inl,
  inr, Result, Result-cases, ok, err,
}
use peer_to_peer_decentraliz.Transport.{
  KeyOrder, connected, disconnected, CloseReason, send_packet_to, connect_to_peer,
  disconnect_from_peer, ConnectionEvent, outgoing_connection, incoming_connection, internal_error,
  Effect, abort, close, drop_sender, Iroh, Handled, state_of, set_state, init_new_connection,
  init_ready_connection, start_connecting,
}
use peer_to_peer_decentraliz.Transport.Elsewhere.{
  set_state-elsewhere, on_outgoing-elsewhere, on_incoming-elsewhere, on_disconnected-elsewhere,
  on_connect-elsewhere, on_send-same,
}
use peer_to_peer_decentraliz.Transport.Handlers.{
  Input, from_tasks, from_coord, on_outgoing, on_incoming, on_disconnected, on_connect,
  release_peer, handle_conn_event, handle_core_event, step, loop,
}

Memᴰ-front : {A : Type 0} (x : A) (xs ys : List A) → Memᴰ x xs → Memᴰ x (xs ++ ys)
Memᴰ-front x [] ys m = elim m [ ]
Memᴰ-front x (z ∷ xs) ys (Memᴰ.head e) = Memᴰ.head e
Memᴰ-front x (z ∷ xs) ys (Memᴰ.tail m) = Memᴰ.tail (Memᴰ-front x xs ys m)

Memᴰ-back : {A : Type 0} (x : A) (xs ys : List A) → Memᴰ x ys → Memᴰ x (xs ++ ys)
Memᴰ-back x [] ys m = m
Memᴰ-back x (z ∷ xs) ys m = Memᴰ.tail (Memᴰ-back x xs ys m)

module _ {K C : Type 0} (keys : KeyOrder K) (remote_id : C → K) where
  module _ (task channel : ℕ) (conn : C) where
    abbrev pub Held : Iroh K C → K → Type 0
    Held st k = state_of keys remote_id st k ≡ some (connected task conn channel)

    -- The session is stopped: its task is aborted and its connection closed.
    abbrev pub Stopped : List (Effect K C) → Type 0
    Stopped es = Memᴰ (abort task) es × ((reason : CloseReason) × Memᴰ (close conn reason) es)

    -- Behind some inputs it is held still, or its channel is let go: then it is stopped, or the end of
    -- a session with its peer was reported.
    abbrev pub Fate : K → List (Input K C) → Handled K C → Type 0
    Fate k is r =
        Held r.0 k
        ⊎ (Memᴰ (drop_sender channel) r.1
            × (Stopped r.1 ⊎ Memᴰ (from_tasks (some (ConnectionEvent.disconnected k))) is))

    outgoing-Fate :
        (st : Iroh K C) (next : C)
        → Held st (remote_id next)
        → Fate
            (remote_id next)
            []
            (on_outgoing keys remote_id st next (some (connected task conn channel)))
    unfolding on_outgoing init_ready_connection set_state
    outgoing-Fate st next e = rw e (
        inr (
          Memᴰ.tail (Memᴰ.tail (Memᴰ.tail (Memᴰ.tail (Memᴰ.head refl)))),
          inl (Memᴰ.head refl, (CloseReason.data_race_resolver, Memᴰ.tail (Memᴰ.head refl))),
        ))

    incoming-Fate :
        (st : Iroh K C) (next : C)
        → Held st (remote_id next)
        → Fate
            (remote_id next)
            []
            (on_incoming keys remote_id st next (some (connected task conn channel)))
    unfolding on_incoming init_ready_connection set_state
    incoming-Fate st next e = rw e (
        inr (
          Memᴰ.tail (Memᴰ.tail (Memᴰ.tail (Memᴰ.tail (Memᴰ.head refl)))),
          inl (Memᴰ.head refl, (CloseReason.peer_opened_another, Memᴰ.tail (Memᴰ.head refl))),
        ))

    disconnected-Fate :
        (st : Iroh K C) (k : K)
        → Held st k
        → Fate k
            (from_tasks (some (ConnectionEvent.disconnected k)) ∷ [])
            (on_disconnected keys remote_id st k (some (connected task conn channel)))
    unfolding on_disconnected init_new_connection start_connecting set_state
    disconnected-Fate st k e = elim (Bool-cases (keys.lt st.id k)) [
      | inl l ↦ rw (l, e) (inr (Memᴰ.tail (Memᴰ.head refl), inr (Memᴰ.head refl)))
      | inr l ↦ rw (l, e) (inr (Memᴰ.tail (Memᴰ.tail (Memᴰ.head refl)), inr (Memᴰ.head refl)))
    ]

    disconnect_from_peer-Fate :
        (st : Iroh K C) (k : K)
        → Held st k
        → Fate k [] (handle_core_event keys remote_id st (disconnect_from_peer k))
    unfolding handle_core_event release_peer set_state
    disconnect_from_peer-Fate st k e = rw e (
        inr (
          Memᴰ.tail (Memᴰ.tail (Memᴰ.tail (Memᴰ.head refl))),
          inl (Memᴰ.head refl, (CloseReason.core_action, Memᴰ.tail (Memᴰ.head refl))),
        ))

    -- What a handler does to the peer that it is about, it does to none else.
    either :
        (j k : K) (is : List (Input K C)) (st : Iroh K C) (r : Handled K C)
        → Held st k
        → (Held st j → Fate j is r)
        → (j ≢ k → state_of keys remote_id r.0 k ≡ state_of keys remote_id st k)
        → Fate k is r
    either j k is st r e at else_where = elim (keys.eq j k) [
      | yes p ↦ subst (λ x. Fate x is r) p (at (subst (Held st) (sym p) e))
      | no d ↦ inl (else_where d ∙ e)
    ]

    earlier : (k : K) (i : Input K C) (r : Handled K C) → Fate k [] r → Fate k (i ∷ []) r
    earlier k i r (inl h) = inl h
    earlier k i r (inr (d, inl s)) = inr (d, inl s)
    earlier k i r (inr (d, inr m)) = absurd (elim m [ ])

    abbrev FateOk : K → Input K C → Result (Handled K C) (Unit {0}) → Type 0
    FateOk k i (ok r) = Fate k (i ∷ []) r
    FateOk k i (err _) = Unit {0}

    step-Fate :
        (st : Iroh K C) (k : K) (i : Input K C) → Held st k → FateOk k i (step keys remote_id st i)
    unfolding step handle_conn_event handle_core_event
    step-Fate st k (from_tasks (some (outgoing_connection next))) e =
        either (remote_id next) k (from_tasks (some (outgoing_connection next)) ∷ []) st
          (on_outgoing keys remote_id st next (state_of keys remote_id st (remote_id next))) e
          (λ h.
            subst
              (λ s.
                Fate (remote_id next) (from_tasks (some (outgoing_connection next)) ∷ [])
                  (on_outgoing keys remote_id st next s))
              (sym h)
              (earlier (remote_id next) (from_tasks (some (outgoing_connection next)))
                (on_outgoing keys remote_id st next (some (connected task conn channel)))
                (outgoing-Fate st next h)))
          (on_outgoing-elsewhere keys remote_id st next k _)
    step-Fate st k (from_tasks (some (incoming_connection next))) e =
        either (remote_id next) k (from_tasks (some (incoming_connection next)) ∷ []) st
          (on_incoming keys remote_id st next (state_of keys remote_id st (remote_id next))) e
          (λ h.
            subst
              (λ s.
                Fate (remote_id next) (from_tasks (some (incoming_connection next)) ∷ [])
                  (on_incoming keys remote_id st next s))
              (sym h)
              (earlier (remote_id next) (from_tasks (some (incoming_connection next)))
                (on_incoming keys remote_id st next (some (connected task conn channel)))
                (incoming-Fate st next h)))
          (on_incoming-elsewhere keys remote_id st next k _)
    step-Fate st k (from_tasks (some (ConnectionEvent.disconnected j))) e =
        either j k (from_tasks (some (ConnectionEvent.disconnected j)) ∷ []) st
          (on_disconnected keys remote_id st j (state_of keys remote_id st j)) e
          (λ h.
            subst
              (λ s.
                Fate j (from_tasks (some (ConnectionEvent.disconnected j)) ∷ [])
                  (on_disconnected keys remote_id st j s))
              (sym h) (disconnected-Fate st j h))
          (on_disconnected-elsewhere keys remote_id st j k _)
    step-Fate st k (from_tasks (some internal_error)) e = tt
    step-Fate st k (from_tasks none) e = tt
    step-Fate st k (from_coord (some (send_packet_to p j))) e =
        inl (ap (λ s. state_of keys remote_id s k) (on_send-same keys remote_id st p _) ∙ e)
    step-Fate st k (from_coord (some (connect_to_peer j))) e =
        either j k (from_coord (some (connect_to_peer j)) ∷ []) st
          (on_connect keys remote_id st j (state_of keys remote_id st j)) e
          (λ h.
            subst
              (λ s.
                Fate j (from_coord (some (connect_to_peer j)) ∷ [])
                  (on_connect keys remote_id st j s))
              (sym h) (inl h))
          (on_connect-elsewhere keys remote_id st j k _)
    step-Fate st k (from_coord (some (disconnect_from_peer j))) e =
        either j k (from_coord (some (disconnect_from_peer j)) ∷ []) st
          (handle_core_event keys remote_id st (disconnect_from_peer j)) e
          (λ h.
            earlier j (from_coord (some (disconnect_from_peer j)))
              (handle_core_event keys remote_id st (disconnect_from_peer j))
              (disconnect_from_peer-Fate st j h))
          (set_state-elsewhere keys remote_id st j k disconnected)
    step-Fate st k (from_coord none) e = tt

    Stopped-later : (now later : List (Effect K C)) → Stopped later → Stopped (now ++ later)
    Stopped-later now later (t, (reason, c)) =
        (Memᴰ-back _ now later t, (reason, Memᴰ-back _ now later c))

    Stopped-now : (now later : List (Effect K C)) → Stopped now → Stopped (now ++ later)
    Stopped-now now later (t, (reason, c)) =
        (Memᴰ-front _ now later t, (reason, Memᴰ-front _ now later c))

    -- From a step to the run that goes on from it.
    goes_on :
        (k : K) (i : Input K C) (is : List (Input K C)) (r s : Handled K C)
        → Fate k (i ∷ []) r
        → (Held r.0 k → Fate k is s)
        → Fate k (i ∷ is) (s.0, r.1 ++ s.1)
    goes_on k i is r s (inl h) f = later (f h)
      where
        later : Fate k is s → Fate k (i ∷ is) (s.0, r.1 ++ s.1)
        later (inl held) = inl held
        later (inr (d, inl x)) = inr (Memᴰ-back _ r.1 s.1 d, inl (Stopped-later r.1 s.1 x))
        later (inr (d, inr m)) = inr (Memᴰ-back _ r.1 s.1 d, inr (Memᴰ.tail m))
    goes_on k i is r s (inr (d, inl x)) f =
        inr (Memᴰ-front _ r.1 s.1 d, inl (Stopped-now r.1 s.1 x))
    goes_on k i is r s (inr (d, inr m)) f =
        inr (Memᴰ-front _ r.1 s.1 d, inr (Memᴰ-front _ (i ∷ []) is m))

    -- No session is forgotten: let an entry of the manager's table hold a session. Behind any further
    -- inputs the entry holds this session still, or the sender of the session's channel has been
    -- dropped; and then its task has been aborted and its connection closed too, unless one of these
    -- inputs was a `Disconnected` for that peer.
    pub loop-Fate :
        (st : Iroh K C) (k : K) (is : List (Input K C))
        → Held st k
        → Fate k is (loop keys remote_id st is)
    unfolding loop
    loop-Fate st k [] e = inl e
    loop-Fate st k (i ∷ is) e =
        let fate = step-Fate st k i e in
        elim (Result-cases (step keys remote_id st i)) [
          | inl (r, x) ↦
              rw (x, loop)
                (goes_on k i is r (loop keys remote_id r.0 is) (subst (FateOk k i) x fate)
                  (loop-Fate r.0 k is))
          | inr (_, x) ↦ rw (x, loop) (inl e)
        ]
