-- ===== src/Transport/Reports.antt =====
-- What the coordinator knows after a whole run of the manager.
use mathlib.Core.Path.{fun_ext, ap₂}
use peer_to_peer_decentraliz.Base.{
  suc, ◌≡◌, refl, ap, subst, ◌∙◌, Bool, false, some, List, [], ◌∷◌, ◌++◌, get, Bool-cases, inl, inr,
  arith, Result-cases, Option-cases,
}
use peer_to_peer_decentraliz.Transport.{
  KeyOrder, ConnectionState, connecting, waiting_incoming_connection, Iroh, Handled, state_of,
  set_state, new_table, new,
}
use peer_to_peer_decentraliz.Transport.Handlers.{
  Input, init_peer, init_peers, init, step, loop, run,
}
use peer_to_peer_decentraliz.Transport.Directions.{new_table-disconnected}
use peer_to_peer_decentraliz.Transport.Announcements.{
  is_up, sent_events, sent_events-append, sent_events-dropped, override, hear, hear-append, linked,
  linked-set_state, Announces, AnnouncesOk, step-Announces,
}

module _ {K C : Type 0} (keys : KeyOrder K) (remote_id : C → K) where
  abbrev pub none_up : K → Bool
  none_up k = false

  loop-hear :
      (st : Iroh K C) (is : List (Input K C))
      → Announces keys remote_id st (loop keys remote_id st is)
  unfolding loop
  loop-hear st [] = refl
  loop-hear st (i ∷ is) = elim (Result-cases (step keys remote_id st i)) [
    | inl (r, e) ↦
        rw (e, loop)
          (rw (sent_events-append r.1 (loop keys remote_id r.0 is).1) (
            hear-append keys.eq (linked keys remote_id st) (sent_events r.1) _
            ∙ ap (λ f. hear keys.eq f (sent_events (loop keys remote_id r.0 is).1))
                (subst (AnnouncesOk keys remote_id st) e (step-Announces keys remote_id st i))
            ∙ loop-hear r.0 is))
    | inr (x, e) ↦ rw (e, loop) refl
  ]

  -- Silent while no link is up.
  IsSilent : Iroh K C → Handled K C → Type 0
  IsSilent st r = (linked keys remote_id r.0 ≡ none_up) × (sent_events r.1 ≡ [])

  override-none : (k : K) → override keys.eq k false none_up ≡ none_up
  override-none k = fun_ext λ j. ground arith

  set_state-IsSilent :
      (st : Iroh K C) (k : K) (s : ConnectionState C)
      → linked keys remote_id st ≡ none_up
      → is_up (some s) ≡ false
      → IsSilent st (set_state keys remote_id st k s)
  unfolding IsSilent set_state
  set_state-IsSilent st k s h e = (
    unfold set_state in (linked-set_state keys remote_id st k s ∙ rw (e, h) (override-none k)),
    sent_events-dropped {K = K} (state_of keys remote_id st k),
  )

  init_peer-IsSilent :
      (st : Iroh K C) (k : K)
      → linked keys remote_id st ≡ none_up
      → IsSilent st (init_peer keys remote_id st k)
  unfolding init_peer IsSilent
  init_peer-IsSilent st k h = elim (Bool-cases (keys.lt st.id k)) [
    | inl l ↦ rw l (set_state-IsSilent st k waiting_incoming_connection h refl)
    | inr l ↦
        rw l
          (set_state-IsSilent (record st { tasks = suc st.tasks }) k (connecting st.tasks) h refl)
  ]

  init_peers-IsSilent :
      (ks : List K) (st : Iroh K C)
      → linked keys remote_id st ≡ none_up
      → IsSilent st (init_peers keys remote_id ks st)
  unfolding init_peers IsSilent
  init_peers-IsSilent [] st h = (h, refl)
  init_peers-IsSilent (k ∷ ks) st h =
      let (quiet, nothing) = init_peer-IsSilent st k h in
      let (quiet', nothing') = init_peers-IsSilent ks (init_peer keys remote_id st k).0 quiet in
      (quiet', sent_events-append (init_peer keys remote_id st k).1 _ ∙ ap₂ ◌++◌ nothing nothing')

  linked-new :
      (id : K) (peers : List K) → linked keys remote_id (new keys remote_id id peers) ≡ none_up
  unfolding new get
  linked-new id peers = fun_ext λ k.
      elim (Option-cases (get keys.eq k (new_table keys remote_id peers []))) [
        | inl e ↦ rw e
        | inr (s, e) ↦ rw (e, new_table-disconnected keys remote_id peers [] (λ j t x. cc) k s e)
      ]

  pub init-IsSilent :
      (id : K) (peers : List K)
      → let r = init keys remote_id (new keys remote_id id peers) in
        (linked keys remote_id r.0 ≡ none_up) × (sent_events r.1 ≡ [])
  unfolding init IsSilent
  init-IsSilent id peers =
      let st = new keys remote_id id peers in
      let (quiet, nothing) = init_peers-IsSilent st.peers st (linked-new id peers) in
      (
        quiet,
        sent_events-append (init_peers keys remote_id st.peers st).1 _ ∙ ap₂ ◌++◌ nothing refl,
      )

  -- After any run of the manager from its start, a coordinator that has heard its events knows
  -- exactly the links that the state table holds as connected.
  pub run-hear :
      (id : K) (peers : List K) (is : List (Input K C))
      → let r = run keys remote_id (new keys remote_id id peers) is in
        hear keys.eq none_up (sent_events r.1) ≡ linked keys remote_id r.0
  unfolding run
  run-hear id peers is =
      let r = init keys remote_id (new keys remote_id id peers) in
      let (quiet, nothing) = init-IsSilent id peers in
      let later = loop-hear r.0 is in
      ap (hear keys.eq none_up)
        (sent_events-append r.1 (loop keys remote_id r.0 is).1 ∙ ap₂ ◌++◌ nothing refl)
      ∙ rw quiet at later
