-- ===== src/Network/Pairs.antt =====
-- Two hosts of a network that name one another: they start, the connection is there, and neither has
-- anything to do but a packet for the other.
use mathlib.Core.Path.{ap₂}
use peer_to_peer_decentraliz.Vpn.{VpnCore}
use peer_to_peer_decentraliz.Base.{
  true, ◌≡◌, ◌≢◌, refl, sym, ap, subst, ◌∙◌, List, [], ◌∷◌, All, some, get, ok, returns, Returns,
  arith, ℕ,
}
use peer_to_peer_decentraliz.Packet.{Bytes, Ipv4Addr, Ipv4Addr-discrete}
use peer_to_peer_decentraliz.Packet.Header.{IsBytes, addr_of}
use peer_to_peer_decentraliz.Vpn
use peer_to_peer_decentraliz.Vpn.Invariant.{SameConfig}
use peer_to_peer_decentraliz.Vpn.Origins.{MayLeave-SameConfig}
use peer_to_peer_decentraliz.Vpn.Crossing.{IsPeered}
use peer_to_peer_decentraliz.Vpn.Admission.{MayLeave}
use peer_to_peer_decentraliz.Transport.{KeyOrder, send_packet_to, try_send}
use peer_to_peer_decentraliz.Node.{coord_event, session_packet, start, start_with}
use peer_to_peer_decentraliz.Host.{Host, inner, reader_reads, take_packet, writer_writes, rounds}
use peer_to_peer_decentraliz.Host.Crossing.{device_gives}
use peer_to_peer_decentraliz.Node.Journey.{packet-crosses}
use peer_to_peer_decentraliz.Host.Idle.{IsIdle, asked, with_written, receives}
use peer_to_peer_decentraliz.Transport.Handlers.{handle_core_event}
use peer_to_peer_decentraliz.Host.Linking.{IsOpen, opening, opening-IsOpen, get-listed, fresh}
use peer_to_peer_decentraliz.Network.{Network, opened, Allowed, Reaches, begins}
use peer_to_peer_decentraliz.Network.Genuine.{router}
use peer_to_peer_decentraliz.Network.Runs.{rounds-Reaches}

module _ {K C : Type 0} (keys : KeyOrder K) (remote_id : C → K) (Given : K → Bytes → Type 0)
    (ip : K → Ipv4Addr) (table : K → List (Ipv4Addr × K)) where
  abbrev OpenTo : K → C → Host K C → Type 0
  OpenTo k conn = IsOpen keys remote_id k (ip k) (table k) conn

  started_core :
      (k : K)
      → (fresh keys remote_id k (ip k) (table k)).core ≡ router keys remote_id Given ip table k
  unfolding start start_with
  started_core k = refl

  started_out :
      (k : K)
      → ((fresh keys remote_id k (ip k) (table k)).out.to_iroh ≡ [])
        × ((fresh keys remote_id k (ip k) (table k)).out.to_tun ≡ [])
  unfolding start start_with
  started_out k = (refl, refl)

  abbrev pub here : K → VpnCore K
  here = router keys remote_id Given ip table

  -- `k` is the key of the host, `conn` its connection.
  abbrev pub Idle : K → C → Host K C → Type 0
  Idle k conn = IsIdle keys remote_id (here k) conn

  OpenTo-Idle : (k : K) (conn : C) (h : Host K C) → OpenTo k conn h → Idle k conn h
  OpenTo-Idle k conn h o = record {
    link = o.linked.link;
    held = o.linked.held;
    config = subst (λ c. SameConfig keys.eq c h.node.core) (started_core k) o.linked.config;
    no_events = o.linked.nothing_waits;
    no_actions = ap (λ q. q.to_iroh) o.linked.same_out ∙ (started_out k).0;
    no_packets = ap (λ q. q.to_tun) o.linked.same_out ∙ (started_out k).1;
    runs = o.runs;
    none_read = o.none_read;
  }

  opening-Allowed :
      (k : K) (conn : C) (w : Network K C)
      → All (Allowed keys remote_id Given w k) (opening keys remote_id k (ip k) (table k) conn)
  opening-Allowed k conn w = (tt, (tt, (tt, tt)))

  -- The keys of two hosts that name one another, and the two ends of a connection.
  pub record IsPair (a b : K) (ab ba : C) : Type 0 where
    pub apart : a ≢ b
    pub dialled : remote_id ab ≡ b
    pub dialling : remote_id ba ≡ a
    pub there : get Ipv4Addr-discrete (ip b) (table a) ≡ some b
    pub back : get Ipv4Addr-discrete (ip a) (table b) ≡ some a

  -- Two hosts of the network that are ready for a packet.
  pub record IsReady (a b : K) (ab ba : C) (w : Network K C) : Type 0 where
    pub reached : Reaches keys remote_id Given ip table w
    pub first : Idle a ab (w.hosts a)
    pub second : Idle b ba (w.hosts b)

  -- Both connections are reported, and both devices run.
  pub opened-both :
      (a b : K) (ab ba : C)
      → IsPair a b ab ba
      → (w : Network K C) × IsReady a b ab ba w
        × ((w.hosts a).written ≡ [])
        × ((w.hosts b).written ≡ [])
  unfolding opened
  opened-both a b ab ba h =
      let (w, one, open_a) =
        rounds-Reaches keys remote_id Given ip table (OpenTo a ab) (opened keys remote_id ip table)
          a (opening keys remote_id a (ip a) (table a) ab) begins
          (opening-Allowed a ab (opened keys remote_id ip table))
          (opening-IsOpen keys remote_id a (ip a) (table a) ab (
            get-listed keys remote_id (table a) (ip b) (remote_id ab)
              (h.there ∙ ap some (sym h.dialled)))) in
      let opening_b = opening keys remote_id b (ip b) (table b) ba in
      let (v, two, open_b) =
        rounds-Reaches keys remote_id Given ip table (OpenTo b ba) w b opening_b one.reached
          (opening-Allowed b ba w)
          (subst (λ x. Returns (OpenTo b ba) (rounds keys remote_id x opening_b))
            (sym (one.others b h.apart))
            (opening-IsOpen keys remote_id b (ip b) (table b) ba (
              get-listed keys remote_id (table b) (ip a) (remote_id ba)
                (h.back ∙ ap some (sym h.dialling))))) in
      let still = subst (OpenTo a ab) (sym (two.others a λ e. h.apart (sym e))) open_a in
      (
        v,
        record {
          reached = two.reached;
          first = OpenTo-Idle a ab _ still;
          second = OpenTo-Idle b ba _ open_b;
        },
        still.none_written,
        open_b.none_written,
      )

  pub swapped : (a b : K) (ab ba : C) → IsPair a b ab ba → IsPair b a ba ab
  swapped a b ab ba h = record {
    apart = λ e. h.apart (sym e);
    dialled = h.dialling;
    dialling = h.dialled;
    there = h.back;
    back = h.there;
  }

  there_of :
      (a b : K) (ab ba : C) (f g : Host K C)
      → IsPair a b ab ba
      → Idle a ab f
      → Idle b ba g
      → IsPeered keys.eq f.node.core g.node.core (remote_id ba) (remote_id ab)
  unfolding Vpn.new
  there_of a b ab ba f g h i j = record {
    there =
        ap₂ (get Ipv4Addr-discrete) j.config.same_addr i.config.same_routes
        ∙ h.there
        ∙ ap some (sym h.dialled);
    back =
        ap₂ (get Ipv4Addr-discrete) i.config.same_addr j.config.same_routes
        ∙ h.back
        ∙ ap some (sym h.dialling);
    limit = omega (arith, i.config.same_size, j.config.same_size);
  }

  leaves_still :
      (a : K) (ab : C) (f : Host K C) (p : Bytes)
      → Idle a ab f
      → MayLeave keys.eq (here a) p
      → MayLeave keys.eq f.node.core p
  leaves_still a ab f p i m =
      MayLeave-SameConfig keys.eq (λ _. Unit {0}) (λ _ _. Unit {0}) f.node.core (here a) p
        (record {
          same_size = sym i.config.same_size;
          same_addr = sym i.config.same_addr;
          same_routes = sym i.config.same_routes;
        })
        m

  -- A packet that the device of `a` gives for `b`.
  pub record IsFor (a b : K) (p : Bytes) : Type 0 where
    pub bytes : IsBytes p
    pub given : Given a p
    pub leaves : MayLeave keys.eq (here a) p
    pub address : addr_of p 16 ≡ ip b

  -- What the two nodes do with it.
  pub record IsPassed (ab ba : C) (p : Bytes) (f g : Host K C) : Type 0 where
    pub channel : ℕ
    pub given :
        rounds keys remote_id f (reader_reads (ok p) ∷ take_packet ∷ [])
        ≡ returns (record f { node = asked keys remote_id f.node p (remote_id ab) })
    pub handled :
        handle_core_event keys remote_id f.node.iroh (send_packet_to p (remote_id ab))
        ≡ (f.node.iroh, try_send channel p ∷ [])
    pub got :
        rounds keys remote_id g
          (inner (session_packet p (remote_id ba)) ∷ inner coord_event ∷ writer_writes (ok tt) ∷ [])
        ≡ returns (with_written keys remote_id g p)

  pub passes :
      (a b : K) (ab ba : C) (f g : Host K C) (p : Bytes)
      → IsPair a b ab ba
      → Idle a ab f
      → Idle b ba g
      → IsFor a b p
      → IsPassed ab ba p f g
  unfolding Vpn.new
  passes a b ab ba f g [] h i j q = absurd (omega (arith, q.leaves.formed.header))
  passes a b ab ba f g (x ∷ p) h i j q =
      let (task, channel, held) = i.held in
      let (sent, handled, _, _, read) =
        packet-crosses keys remote_id (λ (_ : Unit {0}). true) f.node g.node ab ba task channel
          (x ∷ p) [] (there_of a b ab ba f g h i j) q.bytes (leaves_still a ab f (x ∷ p) i q.leaves)
          (q.address ∙ sym j.config.same_addr) i.link held (rw i.no_actions (omega arith))
          (rw j.no_packets (omega arith)) in
      record {
        channel = channel;
        given = device_gives keys remote_id f x p _ i.runs i.none_read sent ∙ rw i.no_actions refl;
        handled = handled;
        got =
            receives keys remote_id g (x ∷ p) (remote_id ba) j.no_events j.no_packets j.runs
              (read ∙ rw j.no_packets refl);
      }
