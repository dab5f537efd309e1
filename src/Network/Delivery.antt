-- ===== src/Network/Delivery.antt =====
-- Packets from device to device, between two nodes that have just started.
use mathlib.Core.List.{append-nil, append_assoc}
use peer_to_peer_decentraliz.Base.{
  ◌≡◌, refl, sym, ap, subst, ◌∙◌, List, [], ◌∷◌, ◌++◌, All, ok, Returns, ◌⊎◌, inl, inr,
}
use peer_to_peer_decentraliz.Packet.{Bytes, Ipv4Addr}
use peer_to_peer_decentraliz.Transport.{KeyOrder, send_packet_to, state_of}
use peer_to_peer_decentraliz.Node.{coord_event, session_packet, manager_turn}
use peer_to_peer_decentraliz.Host.{Host, inner, reader_reads, take_packet, writer_writes, rounds}
use peer_to_peer_decentraliz.Host.Idle.{asked, manager_turn-asked, with_written}
use peer_to_peer_decentraliz.Network.{Network, Reaches}
use peer_to_peer_decentraliz.Network.Runs.{rounds-Reaches, manager_action-posts}
use peer_to_peer_decentraliz.Network.Pairs.{
  IsPair, Idle, IsReady, IsFor, swapped, opened-both, passes,
}

-- A packet of the first host, or one of the second.
abbrev pub Message : Type 0
Message = Bytes ⊎ Bytes

unfoldable pub of_first : List Message → List Bytes
of_first [] = []
of_first (inl p ∷ ms) = p ∷ of_first ms
of_first (inr p ∷ ms) = of_first ms

unfoldable pub of_second : List Message → List Bytes
of_second [] = []
of_second (inl p ∷ ms) = of_second ms
of_second (inr p ∷ ms) = p ∷ of_second ms

module _ {K C : Type 0} (keys : KeyOrder K) (remote_id : C → K) (Given : K → Bytes → Type 0)
    (ip : K → Ipv4Addr) (table : K → List (Ipv4Addr × K)) where
  abbrev Pair : K → K → C → C → Type 0
  Pair = IsPair keys remote_id Given ip table

  abbrev Ready : K → K → C → C → Network K C → Type 0
  Ready = IsReady keys remote_id Given ip table

  abbrev For : K → K → Bytes → Type 0
  For = IsFor keys remote_id Given ip table

  -- The packet is through, and all else is as before.
  record HasCrossed (a b : K) (p : Bytes) (w next : Network K C) : Type 0 where
    pub reached : Reaches keys remote_id Given ip table next
    pub from : next.hosts a ≡ w.hosts a
    pub to : next.hosts b ≡ with_written keys remote_id (w.hosts b) p

  crosses :
      (a b : K) (ab ba : C) (p : Bytes) (w : Network K C)
      → Pair a b ab ba
      → Ready a b ab ba w
      → For a b p
      → (next : Network K C) × HasCrossed a b p w next
  crosses a b ab ba p w h r q =
      let f = w.hosts a in
      let (task, channel, held) = r.first.held in
      let g = w.hosts b in
      let does = passes keys remote_id Given ip table a b ab ba f g p h r.first r.second q in
      let sent : Host K C = record f { node = asked keys remote_id f.node p (remote_id ab) } in
      let (w₁, one, queued) =
        rounds-Reaches keys remote_id Given ip table (λ x. x ≡ sent) w a
          (reader_reads (ok p) ∷ take_packet ∷ []) r.reached ((q.bytes, q.given), (tt, tt))
          (subst (Returns (λ x. x ≡ sent)) (sym does.given) refl) in
      let (w₂, two, letter, back) =
        manager_action-posts keys remote_id Given ip table w₁ a b p task channel ab one.reached
          (ap (λ x. x.node.out.to_iroh) queued ∙ ap (λ k. send_packet_to p k ∷ []) h.dialled)
          (ap (λ x. state_of keys remote_id x.node.iroh b) queued
            ∙ ap (state_of keys remote_id f.node.iroh) (sym h.dialled)
            ∙ held) in
      let same = two.others b h.apart ∙ one.others b h.apart in
      let (w₃, three, got) =
        rounds-Reaches keys remote_id Given ip table (λ x. x ≡ with_written keys remote_id g p) w₂ b
          (inner (session_packet p (remote_id ba)) ∷ inner coord_event ∷ writer_writes (ok tt) ∷ [])
          two.reached ((q.bytes, rw h.dialling letter), (tt, (tt, (tt))))
          (subst (Returns (λ x. x ≡ with_written keys remote_id g p))
            (sym (
              ap
                (λ x. rounds keys remote_id x (
                  inner (session_packet p (remote_id ba))
                  ∷ inner coord_event
                  ∷ writer_writes (ok tt)
                  ∷ []))
                same
              ∙ does.got))
            refl) in
      let again =
        ap {B = Host K C}
          (λ x. record x { node = manager_turn keys remote_id x.node (send_packet_to p b ∷ []) })
          queued
        ∙ ap {B = Host K C}
            (λ k. record f {
              node = manager_turn keys remote_id sent.node (send_packet_to p k ∷ []);
            })
            (sym h.dialled) in
      (
        w₃,
        record {
          reached = three.reached;
          from =
              three.others a (λ e. h.apart (sym e))
              ∙ back
              ∙ again
              ∙ ap {B = Host K C} (λ n. record f { node = n })
                  (manager_turn-asked keys remote_id f.node p (remote_id ab) does.channel
                    r.first.no_events r.first.no_actions does.handled);
          to = got;
        },
      )

  -- `p` is the packet of the first for the second, or of the second for the first.
  abbrev pub Fits : K → K → Message → Type 0
  Fits a b (inl p) = For a b p
  Fits a b (inr p) = For b a p

  turned : (a b : K) (ab ba : C) (w : Network K C) → Ready a b ab ba w → Ready b a ba ab w
  turned a b ab ba w r = record { reached = r.reached; first = r.second; second = r.first }

  -- A host that has been handed a packet is as ready as before.
  crossed-IsReady :
      (a b : K) (ab ba : C) (p : Bytes) (w next : Network K C)
      → Ready a b ab ba w
      → HasCrossed a b p w next
      → Ready a b ab ba next
  crossed-IsReady a b ab ba p w next r c = record {
    reached = c.reached;
    first = subst (Idle keys remote_id Given ip table a ab) (sym c.from) r.first;
    second = subst (Idle keys remote_id Given ip table b ba) (sym c.to) (record {
      link = r.second.link;
      held = r.second.held;
      config = r.second.config;
      no_events = r.second.no_events;
      no_actions = r.second.no_actions;
      no_packets = r.second.no_packets;
      runs = r.second.runs;
      none_read = r.second.none_read;
    });
  }

  record HasTalked (a b : K) (ms : List Message) (w next : Network K C) : Type 0 where
    pub reached : Reaches keys remote_id Given ip table next
    pub to_second : (next.hosts b).written ≡ (w.hosts b).written ++ of_first ms
    pub to_first : (next.hosts a).written ≡ (w.hosts a).written ++ of_second ms

  talk :
      (a b : K) (ab ba : C) (ms : List Message) (w : Network K C)
      → Pair a b ab ba
      → Ready a b ab ba w
      → All (Fits a b) ms
      → (next : Network K C) × HasTalked a b ms w next
  unfolding of_first of_second
  talk a b ab ba [] w h r q = (
    w,
    record {
      reached = r.reached;
      to_second = sym (append-nil (w.hosts b).written);
      to_first = sym (append-nil (w.hosts a).written);
    },
  )
  talk a b ab ba (inl p ∷ ms) w h r q =
      let (now, c) = crosses a b ab ba p w h r q.0 in
      let (next, t) = talk a b ab ba ms now h (crossed-IsReady a b ab ba p w now r c) q.1 in
      (
        next,
        record {
          reached = t.reached;
          to_second =
              t.to_second
              ∙ ap (λ x. x.written ++ of_first ms) c.to
              ∙ append_assoc (w.hosts b).written (p ∷ []) (of_first ms);
          to_first = t.to_first ∙ ap (λ x. x.written ++ of_second ms) c.from;
        },
      )
  talk a b ab ba (inr p ∷ ms) w h r q =
      let back = swapped keys remote_id Given ip table a b ab ba h in
      let (now, c) = crosses b a ba ab p w back (turned a b ab ba w r) q.0 in
      let (next, t) =
        talk a b ab ba ms now h
          (turned b a ba ab now (crossed-IsReady b a ba ab p w now (turned a b ab ba w r) c)) q.1 in
      (
        next,
        record {
          reached = t.reached;
          to_second = t.to_second ∙ ap (λ x. x.written ++ of_first ms) c.from;
          to_first =
              t.to_first
              ∙ ap (λ x. x.written ++ of_second ms) c.to
              ∙ append_assoc (w.hosts a).written (p ∷ []) (of_second ms);
        },
      )

  -- From the start, packets get through. Let two nodes name one another, and let `ab` and `ba` be
  -- the two ends of a connection between them. For any packets in any order, each given by the
  -- device of one of the two, that may leave there and is for the address of the other, there are
  -- rounds that lead from the network that has just started to one in which each of the two devices
  -- has been handed the packets of the other, unchanged, in their order, and nothing else.
  pub opened-delivers :
      (a b : K) (ab ba : C) (ms : List Message)
      → Pair a b ab ba
      → All (Fits a b) ms
      → (w : Network K C) × Reaches keys remote_id Given ip table w
        × ((w.hosts b).written ≡ of_first ms)
        × ((w.hosts a).written ≡ of_second ms)
  opened-delivers a b ab ba ms h q =
      let (v, r, clean_a, clean_b) = opened-both keys remote_id Given ip table a b ab ba h in
      let (w, t) = talk a b ab ba ms v h r q in
      (
        w,
        t.reached,
        t.to_second ∙ ap (λ ps. ps ++ of_first ms) clean_b,
        t.to_first ∙ ap (λ ps. ps ++ of_second ms) clean_a,
      )
