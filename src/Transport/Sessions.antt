-- ===== src/Transport/Sessions.antt =====
-- What the session of a connection does up to its end, whatever arrives.
use peer_to_peer_decentraliz.Base.{
  ◌≡◌, refl, ap, Bool, true, false, none, some, List, [], ◌∷◌, map, if◌then◌else◌, ok, err,
  Bool-cases, inl, inr,
}
use peer_to_peer_decentraliz.Packet.{Bytes}
use peer_to_peer_decentraliz.Transport.{IrohEvent, recv_packet_from, ConnectionEvent}
use peer_to_peer_decentraliz.Transport.Tasks.{
  SessionInput, read_datagram, from_channel, TaskEffect, offer_to_coord, tell_manager,
  send_datagram, on_peer_connected,
}

module _ {K C : Type 0} where
  -- What a list of effects offers to the coordinator, sends to the peer and tells the manager.
  abbrev pub offers : List (TaskEffect K C) → List (IrohEvent K)
  offers [] = []
  offers (offer_to_coord e ∷ es) = e ∷ offers es
  offers (_ ∷ es) = offers es

  abbrev pub sent_datagrams : List (TaskEffect K C) → List Bytes
  sent_datagrams [] = []
  sent_datagrams (send_datagram p ∷ es) = p ∷ sent_datagrams es
  sent_datagrams (_ ∷ es) = sent_datagrams es

  abbrev pub reports : List (TaskEffect K C) → List (ConnectionEvent K C)
  reports [] = []
  reports (tell_manager e ∷ es) = e ∷ reports es
  reports (_ ∷ es) = reports es

module _ {E : Type 0} (is_too_large : E → Bool) where
  -- The input after which a session is over, and whether the connection is then lost.
  abbrev pub is_last : SessionInput E → Bool
  is_last (read_datagram (ok _)) = false
  is_last (read_datagram (err _)) = true
  is_last (from_channel none) = true
  is_last (from_channel (some (_, ok _))) = false
  is_last (from_channel (some (_, err e))) = if is_too_large e then false else true

  -- The inputs up to the first that is the last.
  abbrev pub served : List (SessionInput E) → List (SessionInput E)
  served [] = []
  served (i ∷ is) = let rest = served is in if is_last i then i ∷ [] else i ∷ rest

  -- The datagrams read, and the packets handed to the session, among its inputs.
  abbrev pub datagrams : List (SessionInput E) → List Bytes
  datagrams [] = []
  datagrams (read_datagram (ok p) ∷ is) = p ∷ datagrams is
  datagrams (_ ∷ is) = datagrams is

  abbrev pub handed : List (SessionInput E) → List Bytes
  handed [] = []
  handed (from_channel (some (p, _)) ∷ is) = p ∷ handed is
  handed (_ ∷ is) = handed is

  -- The library reports the connection's end before the manager closes the channel.
  abbrev pub is_lost : List (SessionInput E) → Bool
  is_lost [] = false
  is_lost (from_channel none ∷ _) = false
  is_lost (i ∷ is) = let rest = is_lost is in if is_last i then true else rest

  module _ {K C : Type 0} (remote_id : C → K) where
    -- Up to its end, and not beyond, a session offers every datagram that it reads to the
    -- coordinator, in order and under the peer's key, sends every packet that it is handed, in
    -- order, and tells the manager of the end exactly once when the connection is lost, and never
    -- otherwise.
    pub on_peer_connected_lem :
        (conn : C) (is : List (SessionInput E))
        → let es = on_peer_connected remote_id is_too_large conn is in
          (offers es ≡ map (λ p. recv_packet_from p (remote_id conn)) (datagrams (served is)))
          × (sent_datagrams es ≡ handed (served is))
          × (reports es
              ≡ (if is_lost is then ConnectionEvent.disconnected (remote_id conn) ∷ [] else []))
    unfolding on_peer_connected
    on_peer_connected_lem conn [] = (refl, refl, refl)
    on_peer_connected_lem conn (read_datagram (ok p) ∷ is) =
        let (o, s, r) = on_peer_connected_lem conn is in
        (ap (λ es. recv_packet_from p (remote_id conn) ∷ es) o, s, r)
    on_peer_connected_lem conn (read_datagram (err e) ∷ is) = (refl, refl, refl)
    on_peer_connected_lem conn (from_channel none ∷ is) = (refl, refl, refl)
    on_peer_connected_lem conn (from_channel (some (p, ok u)) ∷ is) =
        let (o, s, r) = on_peer_connected_lem conn is in (o, ap (λ ps. p ∷ ps) s, r)
    on_peer_connected_lem conn (from_channel (some (p, err e)) ∷ is) =
        let (o, s, r) = on_peer_connected_lem conn is in
        elim (Bool-cases (is_too_large e)) [
          | inl l ↦ rw l (o, ap (λ ps. p ∷ ps) s, r)
          | inr l ↦ rw l (refl, refl, refl)
        ]
