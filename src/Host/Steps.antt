-- ===== src/Host/Steps.antt =====
-- What each round of the device does to where the loop of `Tun::run` stands.
use mathlib.Core.List.{append_assoc, append-nil}
use peer_to_peer_decentraliz.Base.{
  ◌≡◌, ◌≢◌, refl, sym, ap, ◌∙◌, Option, none, some, List, [], ◌∷◌, ◌++◌, Result, ok, err,
  Option-cases, inl, inr,
}
use peer_to_peer_decentraliz.Packet.{Bytes}
use peer_to_peer_decentraliz.Tun.{
  ErrorKind, TunEvent, info, ReaderInput, WriterInput, recv, reader_round, worker_tun_reader,
  after_write, worker_tun_writer,
}
use peer_to_peer_decentraliz.Tun.Prefixes.{or_later, worker_tun_reader-append}
use peer_to_peer_decentraliz.Vpn.Origins.{All-append}
use peer_to_peer_decentraliz.Host.{
  Phase, absent, running, finished, writer_left, reader_left, reader_ended, writer_ended, stopped,
  created, after_round,
}
use peer_to_peer_decentraliz.Host.Standing.{
  Within, Answers, gather, gather-more, read_of, write_of, turn_reads, turn_writes, Wrote,
  Wrote-append, Wrote-ended, Standing, reader_gone, writer_gone,
}

reader-one : (i : ReaderInput) → worker_tun_reader (i ∷ []) ≡ reader_round i
unfolding worker_tun_reader
reader-one i = elim (Option-cases (reader_round i)) [
  | inl e ↦ rw (e, worker_tun_reader) refl
  | inr (_, e) ↦ rw (e, worker_tun_reader) refl
]

writer-one :
    (p : Bytes) (r : Result (Unit {0}) ErrorKind) → Wrote (recv r ∷ []) (p ∷ []) (after_write r)
unfolding worker_tun_writer
writer-one p r left = elim (Option-cases (after_write r)) [
  | inl e ↦ rw (e, worker_tun_writer) refl
  | inr (_, e) ↦ rw (e, worker_tun_writer) refl
]

-- The reader is not yet at its end.
pub Within-read :
    (a : Answers) (written : List Bytes) (last : Option TunEvent) (i : ReaderInput)
    → i ≢ ReaderInput.stop
    → Within a written none last
    → Within (record a { reads = a.reads ++ read_of i }) written (reader_round i) last
Within-read a written last i n w = record {
  turns = w.turns;
  before = w.before;
  now = w.now;
  reads = w.reads ++ (i ∷ []);
  writes = w.writes;
  taken = w.taken;
  tries = w.tries;
  reader =
      worker_tun_reader-append w.reads (i ∷ [])
      ∙ ap (λ e. or_later e (worker_tun_reader (i ∷ []))) w.reader
      ∙ reader-one i;
  writer = w.writer;
  turns_unstopped = w.turns_unstopped;
  reads_unstopped =
      All-append (λ j. j ≢ ReaderInput.stop) w.reads (i ∷ []) w.reads_unstopped (n, tt);
  writes_unstopped = w.writes_unstopped;
  answered_reads =
      ap (λ zs. gather turn_reads w.turns ++ zs) (gather-more read_of w.reads i)
      ∙ sym (append_assoc (gather turn_reads w.turns) (gather read_of w.reads) (read_of i))
      ∙ ap (λ zs. zs ++ read_of i) w.answered_reads;
  answered_writes = w.answered_writes;
}

-- Nor is the writer.
pub Within-write :
    (a : Answers) (written : List Bytes) (first : Option TunEvent) (p : Bytes)
    (r : Result (Unit {0}) ErrorKind)
    → Within a written first none
    → Within
        (record a { writes = a.writes ++ (r ∷ []) })
        (written ++ (p ∷ []))
        first
        (after_write r)
Within-write a written first p r w = record {
  turns = w.turns;
  before = w.before;
  now = w.now ++ (p ∷ []);
  reads = w.reads;
  writes = w.writes ++ (recv r ∷ []);
  taken = sym (append_assoc w.before w.now (p ∷ [])) ∙ ap (λ ps. ps ++ (p ∷ [])) w.taken;
  tries = w.tries;
  reader = w.reader;
  writer =
      Wrote-append w.writes (recv r ∷ []) w.now (p ∷ []) (after_write r) w.writer (writer-one p r);
  turns_unstopped = w.turns_unstopped;
  reads_unstopped = w.reads_unstopped;
  writes_unstopped =
      All-append (λ j. j ≢ WriterInput.stop) w.writes (recv r ∷ []) w.writes_unstopped
        ((λ e. cc), tt);
  answered_reads = w.answered_reads;
  answered_writes =
      ap (λ zs. gather turn_writes w.turns ++ zs) (gather-more write_of w.writes (recv r))
      ∙ sym (append_assoc (gather turn_writes w.turns) (gather write_of w.writes) (r ∷ []))
      ∙ ap (λ zs. zs ++ (r ∷ [])) w.answered_writes;
}

-- A worker that has the stop signal ahead of it ends.
stopped_reader :
    (a : Answers) (written : List Bytes) (first : TunEvent)
    → Within a written none (some first)
    → Standing a written (stopped (reader_left first))
unfolding worker_tun_reader reader_round
stopped_reader a written first w = reader_gone a written first none info w (
    worker_tun_reader-append w.reads (ReaderInput.stop ∷ [])
    ∙ ap (λ e. or_later e (some info)) w.reader)

stopped_writer :
    (a : Answers) (written : List Bytes) (first : TunEvent)
    → Within a written (some first) none
    → Standing a written (stopped (writer_left first))
unfolding worker_tun_writer
stopped_writer a written first w = writer_gone a written first none info w λ left.
    ap (λ ps. worker_tun_writer (ps ++ left) (w.writes ++ (WriterInput.stop ∷ [])))
      (sym (append-nil w.now))
    ∙ Wrote-append w.writes (WriterInput.stop ∷ []) w.now [] (some info) w.writer (λ _. refl) left
    ∙ ap (λ ps. (ps, left, some info)) (append-nil w.now)

pub running_read :
    (a : Answers) (written : List Bytes) (x : Option TunEvent)
    → Within a written x none
    → Standing a written (after_round reader_ended running x)
running_read a written none w = w
running_read a written (some event) w = w

pub last_read :
    (a : Answers) (written : List Bytes) (first : TunEvent) (x : Option TunEvent)
    → Within a written x (some first)
    → Standing a written (after_round reader_ended (reader_left first) x)
last_read a written first none w = w
last_read a written first (some event) w = reader_gone a written first (some event) event w (
    worker_tun_reader-append w.reads (ReaderInput.stop ∷ [])
    ∙ ap (λ e. or_later e (worker_tun_reader (ReaderInput.stop ∷ []))) w.reader)

pub running_write :
    (a : Answers) (written : List Bytes) (x : Option TunEvent)
    → Within a written none x
    → Standing a written (after_round writer_ended running x)
running_write a written none w = w
running_write a written (some event) w = w

pub last_write :
    (a : Answers) (written : List Bytes) (first : TunEvent) (x : Option TunEvent)
    → Within a written (some first) x
    → Standing a written (after_round writer_ended (writer_left first) x)
last_write a written first none w = w
last_write a written first (some event) w =
    writer_gone a written first (some event) event w
      (Wrote-ended w.writes (WriterInput.stop ∷ []) w.now event w.writer)

pub created-Standing :
    (a : Answers) (written : List Bytes) (phase : Phase) (r : Result (Unit {0}) (Unit {0}))
    → Standing a written phase
    → Standing a written (created phase r)
unfolding worker_tun_reader worker_tun_writer
created-Standing a written absent (ok _) (ts, h, answered) = record {
  turns = ts;
  before = written;
  now = [];
  reads = [];
  writes = [];
  taken = append-nil written;
  tries = h;
  reader = refl;
  writer = λ left. refl;
  turns_unstopped = answered.unstopped;
  reads_unstopped = tt;
  writes_unstopped = tt;
  answered_reads = append-nil (gather turn_reads ts) ∙ answered.reads;
  answered_writes = append-nil (gather turn_writes ts) ∙ answered.writes;
}
created-Standing a written absent (err _) s = s
created-Standing a written running r s = s
created-Standing a written finished r s = s
created-Standing a written (writer_left e) r s = s
created-Standing a written (reader_left e) r s = s

pub stopped-Standing :
    (a : Answers) (written : List Bytes) (phase : Phase)
    → Standing a written phase
    → Standing a written (stopped phase)
stopped-Standing a written absent s = s
stopped-Standing a written running s = s
stopped-Standing a written finished s = s
stopped-Standing a written (writer_left e) s = stopped_writer a written e s
stopped-Standing a written (reader_left e) s = stopped_reader a written e s
