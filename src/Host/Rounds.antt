-- ===== src/Host/Rounds.antt =====
-- The rounds of the device beside its node, against the loop of `Tun::run` over whole turns.
use mathlib.Core.List.{Sublist, sublist-append_left}
use mathlib.Core.List.Sublist
use peer_to_peer_decentraliz.Base.{
  ◌≡◌, refl, subst, Option, none, some, List, [], ◌∷◌, ◌++◌, Result, ok, err, Checked, returns,
  panics, Returns, ◌>>=◌,
}
use peer_to_peer_decentraliz.Packet.{Bytes}
use peer_to_peer_decentraliz.Transport.{KeyOrder}
use peer_to_peer_decentraliz.Node.{Turn, turn, host_packet}
use peer_to_peer_decentraliz.Tun.{ErrorKind, TunEvent, read, after_write}
use peer_to_peer_decentraliz.Host.{
  Phase, absent, running, finished, writer_left, reader_left, Host, Round, inner, take_packet,
  create, reader_reads, writer_writes, stop_seen, answer, read_round, after_round, writer_ended,
  reader_turn, writer_turn, writes, take_turn, round,
}
use peer_to_peer_decentraliz.Host.Standing.{Within, Answers, Standing}
use peer_to_peer_decentraliz.Host.Steps.{
  Within-read, Within-write, running_read, last_read, running_write, last_write, created-Standing,
  stopped-Standing,
}

-- Where the computation returns, the property holds.
abbrev pub Wherever : {A : Type 0} → (A → Type 0) → Checked A → Type 0
Wherever P (returns a) = P a
Wherever P panics = Unit

pub Returns-Wherever :
    {A : Type 0} (P Q : A → Type 0) (m : Checked A)
    → Returns P m
    → Wherever Q m
    → Returns (λ a. P a × Q a) m
Returns-Wherever P Q (returns a) p q = (p, q)
Returns-Wherever P Q panics p q = p

-- What the device answers in a round.
abbrev pub reads_in : {K C : Type 0} → Round K C → List (Result Bytes ErrorKind)
reads_in (reader_reads r) = r ∷ []
reads_in _ = []

abbrev pub writes_in : {K C : Type 0} → Round K C → List (Result (Unit {0}) ErrorKind)
writes_in (writer_writes r) = r ∷ []
writes_in _ = []

read_round-Within :
    (a : Answers) (ps channel : List Bytes) (r : Result Bytes ErrorKind) (last : Option TunEvent)
    → Within a ps none last
    → Within (record a { reads = a.reads ++ (r ∷ []) }) ps (read_round channel r) last
read_round-Within a ps channel (ok p) last w =
    Within-read a ps last (read (ok (p, answer channel))) (λ e. cc) w
read_round-Within a ps channel (err e) last w = Within-read a ps last (read (err e)) (λ e. cc) w

module _ {K C : Type 0} (keys : KeyOrder K) (remote_id : C → K) where
  -- The host stands where turns have led it, with answers among those that the device has given.
  pub record Stands (reads : List (Result Bytes ErrorKind))
      (writes : List (Result (Unit {0}) ErrorKind)) (h : Host K C) : Type 0 where
    pub used : Answers
    pub stands : Standing used h.written h.phase
    pub of_reads : Sublist used.reads reads
    pub of_writes : Sublist used.writes writes

  module _ (R : List (Result Bytes ErrorKind)) (W : List (Result (Unit {0}) ErrorKind)) where
    Stands-later :
        (h g : Host K C) (x : List (Result Bytes ErrorKind))
        (y : List (Result (Unit {0}) ErrorKind)) (s : Stands R W h)
        → Standing s.used g.written g.phase
        → Stands (R ++ x) (W ++ y) g
    Stands-later h g x y s at = record {
      used = s.used;
      stands = at;
      of_reads = Sublist.trans s.of_reads (sublist-append_left R x);
      of_writes = Sublist.trans s.of_writes (sublist-append_left W y);
    }

    reader_turn-Stands :
        (h : Host K C) (phase : Phase) (r : Result Bytes ErrorKind)
        → h.phase ≡ phase
        → Stands R W h
        → Stands (R ++ (r ∷ [])) (W ++ []) (reader_turn keys remote_id h phase r)
    unfolding reader_turn
    reader_turn-Stands h running r e s = record {
      used = record (s.used) { reads = s.used.reads ++ (r ∷ []) };
      stands = rw e (
          running_read _ h.written (read_round h.from_tun r) (
            read_round-Within s.used h.written h.from_tun r none
              (subst (Standing s.used h.written) e s.stands)));
      of_reads = Sublist.append s.of_reads (Sublist.refl (r ∷ []));
      of_writes = Sublist.trans s.of_writes (sublist-append_left W []);
    }
    reader_turn-Stands h (reader_left first) r e s = record {
      used = record (s.used) { reads = s.used.reads ++ (r ∷ []) };
      stands = rw e (
          last_read _ h.written first (read_round h.from_tun r) (
            read_round-Within s.used h.written h.from_tun r (some first)
              (subst (Standing s.used h.written) e s.stands)));
      of_reads = Sublist.append s.of_reads (Sublist.refl (r ∷ []));
      of_writes = Sublist.trans s.of_writes (sublist-append_left W []);
    }
    reader_turn-Stands h (writer_left _) r e s = Stands-later h h (r ∷ []) [] s s.stands
    reader_turn-Stands h absent r e s = Stands-later h h (r ∷ []) [] s s.stands
    reader_turn-Stands h finished r e s = Stands-later h h (r ∷ []) [] s s.stands

    writes-Stands :
        (h : Host K C) (phase : Phase) (packets : List Bytes) (r : Result (Unit {0}) ErrorKind)
        → h.phase ≡ phase
        → ((a : Answers) (ps : List Bytes) (p : Bytes)
            → Standing a ps phase
            → Standing
                (record a { writes = a.writes ++ (r ∷ []) })
                (ps ++ (p ∷ []))
                (after_round writer_ended phase (after_write r)))
        → Stands R W h
        → Stands (R ++ []) (W ++ (r ∷ [])) (writes keys remote_id h packets r)
    writes-Stands h phase [] r e f s = Stands-later h h [] (r ∷ []) s s.stands
    writes-Stands h phase (p ∷ rest) r e f s = record {
      used = record (s.used) { writes = s.used.writes ++ (r ∷ []) };
      stands = rw e (f s.used h.written p (subst (Standing s.used h.written) e s.stands));
      of_reads = Sublist.trans s.of_reads (sublist-append_left R []);
      of_writes = Sublist.append s.of_writes (Sublist.refl (r ∷ []));
    }

    writer_turn-Stands :
        (h : Host K C) (phase : Phase) (r : Result (Unit {0}) ErrorKind)
        → h.phase ≡ phase
        → Stands R W h
        → Stands (R ++ []) (W ++ (r ∷ [])) (writer_turn keys remote_id h phase r)
    unfolding writer_turn
    writer_turn-Stands h running r e s =
        writes-Stands h running h.node.out.to_tun r e
          (λ a ps p w.
            running_write _ (ps ++ (p ∷ [])) (after_write r) (Within-write a ps none p r w))
          s
    writer_turn-Stands h (writer_left first) r e s =
        writes-Stands h (writer_left first) h.node.out.to_tun r e
          (λ a ps p w.
            last_write _ (ps ++ (p ∷ [])) first (after_write r)
              (Within-write a ps (some first) p r w))
          s
    writer_turn-Stands h (reader_left _) r e s = Stands-later h h [] (r ∷ []) s s.stands
    writer_turn-Stands h absent r e s = Stands-later h h [] (r ∷ []) s s.stands
    writer_turn-Stands h finished r e s = Stands-later h h [] (r ∷ []) s s.stands

    inner-Stands :
        (h : Host K C) (t : Turn K C)
        → Stands R W h
        → Wherever (Stands (R ++ []) (W ++ [])) (round keys remote_id h (inner t))
    unfolding round
    inner-Stands h t s =
        elim (turn keys remote_id h.node t)
          as (λ m.
            Wherever (Stands (R ++ []) (W ++ [])) (m >>= λ n. returns (record h { node = n }))) [
              | returns n ↦ Stands-later h (record h { node = n }) [] [] s s.stands
              | panics ↦ tt
            ]

    take_turn-Stands :
        (h : Host K C) (packets : List Bytes)
        → Stands R W h
        → Wherever (Stands (R ++ []) (W ++ [])) (take_turn keys remote_id h packets)
    unfolding take_turn
    take_turn-Stands h [] s = Stands-later h h [] [] s s.stands
    take_turn-Stands h (p ∷ rest) s =
        elim (turn keys remote_id h.node (host_packet p))
          as (λ m.
            Wherever (Stands (R ++ []) (W ++ []))
              (m >>= λ n. returns (record h { node = n; from_tun = rest }))) [
                | returns n ↦
                    Stands-later h (record h { node = n; from_tun = rest }) [] [] s s.stands
                | panics ↦ tt
              ]

    pub round-Stands :
        (h : Host K C) (r : Round K C)
        → Stands R W h
        → Wherever (Stands (R ++ reads_in r) (W ++ writes_in r)) (round keys remote_id h r)
    unfolding round
    round-Stands h (inner t) s = inner-Stands h t s
    round-Stands h take_packet s = take_turn-Stands h h.from_tun s
    round-Stands h (create r) s =
        Stands-later h _ [] [] s (created-Standing s.used h.written h.phase r s.stands)
    round-Stands h (reader_reads r) s = reader_turn-Stands h h.phase r refl s
    round-Stands h (writer_writes r) s = writer_turn-Stands h h.phase r refl s
    round-Stands h stop_seen s =
        Stands-later h _ [] [] s (stopped-Standing s.used h.written h.phase s.stands)
