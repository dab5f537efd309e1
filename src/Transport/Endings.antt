-- ===== src/Transport/Endings.antt =====
-- What ends the loop of the manager, and the loop of a task that dials.
use peer_to_peer_decentraliz.Base.{
  ◌≡◌, refl, ap, none, some, Bool, true, false, List, [], ◌∷◌, ◌++◌, map, if◌then◌else◌,
}
use peer_to_peer_decentraliz.Transport.{internal_error, outgoing_connection}
use peer_to_peer_decentraliz.Transport.Handlers.{Input, from_tasks, from_coord}
use peer_to_peer_decentraliz.Transport.Tasks.{
  Attempt, connects, fails, TaskEffect, tell_manager, clear_dns_cache, pause, connect_to_peer,
}

-- A closed channel, or an internal error of a task.
abbrev pub stops : {K C : Type 0} → Input K C → Bool
stops (from_tasks none) = true
stops (from_tasks (some internal_error)) = true
stops (from_coord none) = true
stops _ = false

-- What a task that dials does at a failure.
abbrev pub retry : {K C : Type 0} → List Bool → List (TaskEffect K C)
retry [] = []
retry (has_resolver ∷ failed) =
    (if has_resolver then clear_dns_cache ∷ [] else []) ++ (pause ∷ retry failed)

module _ {K C : Type 0} where
  -- The task that dials returns at its first success: it has told the manager of that connection
  -- once, and of nothing before, and at each failure in front of it has cleared the DNS cache where
  -- there is a resolver and waited once.
  pub connect_to_peer-retry :
      (failed : List Bool) (conn : C) (rest : List (Attempt C))
      → connect_to_peer {K = K} (map fails failed ++ (connects conn ∷ rest))
        ≡ retry failed ++ (tell_manager (outgoing_connection conn) ∷ [])
  unfolding connect_to_peer
  connect_to_peer-retry [] conn rest = refl
  connect_to_peer-retry (true ∷ failed) conn rest =
      ap (λ es. clear_dns_cache ∷ pause ∷ es) (connect_to_peer-retry failed conn rest)
  connect_to_peer-retry (false ∷ failed) conn rest =
      ap (λ es. pause ∷ es) (connect_to_peer-retry failed conn rest)
