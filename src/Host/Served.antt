-- ===== src/Host/Served.antt =====
-- What every round of a host with its device keeps.
use peer_to_peer_decentraliz.Base.{
  ◌≡◌, refl, subst, ◌≤◌, List, [], ◌∷◌, ltb, length, length-append, All, Result, ok, err,
  Bool-cases, inl, inr, Returns, Returns-bind, Returns-both, Returns-mono, arith,
}
use peer_to_peer_decentraliz.Packet.{Bytes, Ipv4Addr}
use peer_to_peer_decentraliz.Packet.Header.{IsBytes}
use peer_to_peer_decentraliz.Vpn.{VpnCore}
use peer_to_peer_decentraliz.Vpn
use peer_to_peer_decentraliz.Vpn.Origins.{ForHost, All-append}
use peer_to_peer_decentraliz.Transport.{KeyOrder}
use peer_to_peer_decentraliz.Tun.{ErrorKind}
use peer_to_peer_decentraliz.Node.{
  Node, Turn, coord_event, host_packet, tun_packet, manager_action, manager_event, session_packet,
  start, turn, final_mtu, intermod_channel_capacity,
}
use peer_to_peer_decentraliz.Node.Invariant.{IsTurn, IsSynced, turn-IsSynced}
use peer_to_peer_decentraliz.Node.Channels.{IsBounded}
use peer_to_peer_decentraliz.Node.Bounds.{turn-IsBounded, start-fits}
use peer_to_peer_decentraliz.Node.Schedules.{start-IsSynced}
use peer_to_peer_decentraliz.Node.Owing.{Brings, IsTraced}
use peer_to_peer_decentraliz.Node.Origins.{turn-Traced, start-Traced}
use peer_to_peer_decentraliz.Host.{
  Phase, absent, running, finished, writer_left, reader_left, Host, Round, inner, take_packet,
  create, reader_reads, writer_writes, stop_seen, reads, writes, reader_turn, writer_turn,
  take_turn, round, beside, offered,
}

module _ {K C : Type 0} (keys : KeyOrder K) (remote_id : C → K) (Given : Bytes → Type 0)
    (Read : Bytes → K → Type 0) where
  -- A packet that the device may give.
  abbrev IsGiven : Bytes → Type 0
  IsGiven p = IsBytes p × Given p

  -- What a round brings from the device and from the sessions of the peers.
  abbrev pub IsRound : Round K C → Type 0
  IsRound (inner (host_packet p)) = ⊥
  IsRound (inner tun_packet) = ⊥
  IsRound (inner t) = IsTurn t × Brings keys remote_id Given Read t
  IsRound (reader_reads (ok p)) = IsBytes p × Given p
  IsRound _ = Unit {0}

  module _ (c : VpnCore K) where
    -- A node that keeps its invariants.
    pub record IsKept (n : Node K C) : Type 0 where
      pub synced : IsSynced keys remote_id n
      pub bounded : IsBounded n.out
      pub traced : IsTraced keys remote_id Given Read c n

    pub record IsServed (h : Host K C) : Type 0 where
      pub kept : IsKept h.node
      pub given : All IsGiven h.from_tun
      pub fits : length h.from_tun ≤ intermod_channel_capacity
      pub written : All (ForHost keys.eq Given Read c) h.written

    turn-IsKept :
        (n : Node K C) (t : Turn K C)
        → IsTurn t
        → Brings keys remote_id Given Read t
        → IsKept n
        → Returns IsKept (turn keys remote_id n t)
    turn-IsKept n t h src k =
        Returns-mono _ _ (turn keys remote_id n t)
          (λ m (s, rest). record { synced = s; bounded = rest.0; traced = rest.1 })
          (Returns-both _ _ (turn keys remote_id n t) (turn-IsSynced keys remote_id n t h k.synced)
            (Returns-both _ _ (turn keys remote_id n t)
              (turn-IsBounded keys remote_id n t h k.synced k.bounded)
              (turn-Traced keys remote_id Given Read c n t h src k.synced k.bounded k.traced)))

    inner-IsServed :
        (h : Host K C) (t : Turn K C)
        → IsTurn t
        → Brings keys remote_id Given Read t
        → IsServed h
        → Returns IsServed (round keys remote_id h (inner t))
    unfolding round
    inner-IsServed h t b src s =
        Returns-bind _ _ (turn keys remote_id h.node t) _ (turn-IsKept h.node t b src s.kept)
          λ n k. record { kept = k; given = s.given; fits = s.fits; written = s.written }

    take_turn-IsServed :
        (h : Host K C) (packets : List Bytes)
        → h.from_tun ≡ packets
        → IsServed h
        → Returns IsServed (take_turn keys remote_id h packets)
    unfolding take_turn
    take_turn-IsServed h [] e s = s
    take_turn-IsServed h (p ∷ rest) e s =
        let given = subst (All IsGiven) e s.given in
        Returns-bind _ _ (turn keys remote_id h.node (host_packet p)) _
          (turn-IsKept h.node (host_packet p) given.0.0 given.0.1 s.kept)
          λ n k. record {
            kept = k;
            given = given.1;
            fits = omega (arith, subst (λ ps. length ps ≤ intermod_channel_capacity) e s.fits);
            written = s.written;
          }

    offered-IsGiven :
        (channel : List Bytes) (p : Bytes)
        → IsGiven p
        → All IsGiven channel
        → All IsGiven (offered channel (ok p))
    offered-IsGiven channel [] g h = h
    offered-IsGiven channel (x ∷ p) g h =
        elim (Bool-cases (ltb (length channel) intermod_channel_capacity)) [
          | inl l ↦ rw l (All-append IsGiven channel ((x ∷ p) ∷ []) h (g, tt))
          | inr l ↦ rw l h
        ]

    offered-fits :
        (channel : List Bytes) (r : Result Bytes ErrorKind)
        → length channel ≤ intermod_channel_capacity
        → length (offered channel r) ≤ intermod_channel_capacity
    offered-fits channel (err e) h = h
    offered-fits channel (ok []) h = h
    offered-fits channel (ok (x ∷ p)) h = ground (arith, length-append channel ((x ∷ p) ∷ []))

    reads-IsServed :
        (h : Host K C) (r : Result Bytes ErrorKind)
        → IsRound (reader_reads r)
        → IsServed h
        → IsServed (reads keys remote_id h r)
    reads-IsServed h (err e) b s = record {
      kept = s.kept;
      given = s.given;
      fits = s.fits;
      written = s.written;
    }
    reads-IsServed h (ok p) b s = record {
      kept = s.kept;
      given = offered-IsGiven h.from_tun p b s.given;
      fits = offered-fits h.from_tun (ok p) s.fits;
      written = s.written;
    }

    writes-IsServed :
        (h : Host K C) (packets : List Bytes) (r : Result (Unit {0}) ErrorKind)
        → h.node.out.to_tun ≡ packets
        → IsServed h
        → IsServed (writes keys remote_id h packets r)
    unfolding turn
    writes-IsServed h [] r e s = s
    writes-IsServed h (p ∷ rest) r e s =
        let waiting = subst (All (ForHost keys.eq Given Read c)) e s.kept.traced.owing.1 in
        record {
          kept = turn-IsKept h.node tun_packet tt tt s.kept;
          given = s.given;
          fits = s.fits;
          written =
              All-append (ForHost keys.eq Given Read c) h.written (p ∷ []) s.written
                (waiting.0, tt);
        }

    reader_turn-IsServed :
        (h : Host K C) (phase : Phase) (r : Result Bytes ErrorKind)
        → IsRound (reader_reads r)
        → IsServed h
        → IsServed (reader_turn keys remote_id h phase r)
    unfolding reader_turn
    reader_turn-IsServed h running r b s = reads-IsServed h r b s
    reader_turn-IsServed h (reader_left e) r b s = reads-IsServed h r b s
    reader_turn-IsServed h (writer_left e) r b s = s
    reader_turn-IsServed h absent r b s = s
    reader_turn-IsServed h finished r b s = s

    writer_turn-IsServed :
        (h : Host K C) (phase : Phase) (r : Result (Unit {0}) ErrorKind)
        → IsServed h
        → IsServed (writer_turn keys remote_id h phase r)
    unfolding writer_turn
    writer_turn-IsServed h running r s = writes-IsServed h h.node.out.to_tun r refl s
    writer_turn-IsServed h (writer_left e) r s = writes-IsServed h h.node.out.to_tun r refl s
    writer_turn-IsServed h (reader_left e) r s = s
    writer_turn-IsServed h absent r s = s
    writer_turn-IsServed h finished r s = s

    phase-IsServed :
        (h : Host K C) (phase : Phase) → IsServed h → IsServed (record h { phase = phase })
    phase-IsServed h phase s = record {
      kept = s.kept;
      given = s.given;
      fits = s.fits;
      written = s.written;
    }

    pub round-IsServed :
        (h : Host K C) (r : Round K C)
        → IsRound r
        → IsServed h
        → Returns IsServed (round keys remote_id h r)
    unfolding round
    round-IsServed h (inner coord_event) b s = inner-IsServed h coord_event tt tt s
    round-IsServed h (inner (host_packet p)) b s = absurd b
    round-IsServed h (inner tun_packet) b s = absurd b
    round-IsServed h (inner manager_action) b s = inner-IsServed h manager_action tt tt s
    round-IsServed h (inner (manager_event e)) b s = inner-IsServed h (manager_event e) tt tt s
    round-IsServed h (inner (session_packet p k)) b s =
        inner-IsServed h (session_packet p k) b.0 b.1 s
    round-IsServed h take_packet b s = take_turn-IsServed h h.from_tun refl s
    round-IsServed h (create r) b s = phase-IsServed h _ s
    round-IsServed h (reader_reads r) b s = reader_turn-IsServed h h.phase r b s
    round-IsServed h (writer_writes r) b s = writer_turn-IsServed h h.phase r s
    round-IsServed h stop_seen b s = phase-IsServed h _ s

  pub beside-IsServed :
      (id : K) (ip : Ipv4Addr) (table : List (Ipv4Addr × K))
      → IsServed
          (Vpn.new keys.eq ip table final_mtu)
          (beside keys remote_id (start keys remote_id id ip table))
  beside-IsServed id ip table = record {
    kept = record {
      synced = start-IsSynced keys remote_id id ip table;
      bounded = start-fits keys remote_id id ip table;
      traced = start-Traced keys remote_id Given Read id ip table;
    };
    given = tt;
    fits = omega arith;
    written = tt;
  }
