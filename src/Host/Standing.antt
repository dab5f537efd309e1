-- ===== src/Host/Standing.antt =====
-- Where the loop of `Tun::run` stands between two rounds, told by the turns behind it.
use mathlib.Core.List.{append_assoc, append-nil}
use peer_to_peer_decentraliz.Base.{
  ◌≡◌, ◌≢◌, refl, sym, ap, ◌∙◌, Option, none, some, List, [], ◌∷◌, ◌++◌, Result, ok, err, All,
  subst,
}
use peer_to_peer_decentraliz.Packet.{Bytes}
use peer_to_peer_decentraliz.Tun.{
  ErrorKind, TunEvent, ReaderInput, WriterInput, read, recv, worker_tun_reader, worker_tun_writer,
  Turn, create_error, reader_ends, writer_ends, Progress, goes_on, waits, returned, decide,
  both_ended, turn, followed_by, run,
}
use peer_to_peer_decentraliz.Tun.Conservation.{IsUnstopped}
use peer_to_peer_decentraliz.Vpn.Origins.{All-append}
use peer_to_peer_decentraliz.Tun.Prefixes.{resumes, worker_tun_writer-append, run-append}
use peer_to_peer_decentraliz.Host.{
  Phase, absent, running, finished, writer_left, reader_left, resumed,
}

-- The turns take these packets off the receiver, whatever stands behind them.
abbrev pub Tries : List Turn → List Bytes → Progress → Type 0
Tries ts tried progress = (left : List Bytes) → run (tried ++ left) ts ≡ (tried, left, progress)

-- So does a writer with these inputs.
abbrev pub Wrote : List WriterInput → List Bytes → Option TunEvent → Type 0
Wrote ws tried event =
    (left : List Bytes) → worker_tun_writer (tried ++ left) ws ≡ (tried, left, event)

abbrev pub gather : {A B : Type 0} → (A → List B) → List A → List B
gather f [] = []
gather f (x ∷ xs) = f x ++ gather f xs

gather-append :
    {A B : Type 0} (f : A → List B) (xs ys : List A)
    → gather f (xs ++ ys) ≡ gather f xs ++ gather f ys
gather-append f [] ys = refl
gather-append f (x ∷ xs) ys =
    ap (λ zs. f x ++ zs) (gather-append f xs ys)
    ∙ sym (append_assoc (f x) (gather f xs) (gather f ys))

pub gather-more :
    {A B : Type 0} (f : A → List B) (xs : List A) (x : A)
    → gather f (xs ++ (x ∷ [])) ≡ gather f xs ++ f x
gather-more f xs x = gather-append f xs (x ∷ []) ∙ ap (λ zs. gather f xs ++ zs) (append-nil (f x))

-- What the device has answered to the reader and to the writer.
pub record Answers : Type 0 where
  pub reads : List (Result Bytes ErrorKind)
  pub writes : List (Result (Unit {0}) ErrorKind)

abbrev pub read_of : ReaderInput → List (Result Bytes ErrorKind)
read_of ReaderInput.stop = []
read_of (read (ok (p, _))) = ok p ∷ []
read_of (read (err e)) = err e ∷ []

abbrev pub write_of : WriterInput → List (Result (Unit {0}) ErrorKind)
write_of WriterInput.stop = []
write_of (recv r) = r ∷ []

abbrev pub turn_reads : Turn → List (Result Bytes ErrorKind)
turn_reads create_error = []
turn_reads (reader_ends rs ws) = gather read_of rs
turn_reads (writer_ends ws rs) = gather read_of rs

abbrev pub turn_writes : Turn → List (Result (Unit {0}) ErrorKind)
turn_writes create_error = []
turn_writes (reader_ends rs ws) = gather write_of ws
turn_writes (writer_ends ws rs) = gather write_of ws

-- These are the device's answers in the turns, in which no worker ends first by a stop signal.
pub record IsAnswered (ts : List Turn) (a : Answers) : Type 0 where
  pub reads : gather turn_reads ts ≡ a.reads
  pub writes : gather turn_writes ts ≡ a.writes
  pub unstopped : All IsUnstopped ts

-- A turn that has begun, with the events of its two workers.
pub record Within (a : Answers) (written : List Bytes) (of_reader of_writer : Option TunEvent)
    : Type 0 where
  pub turns : List Turn
  pub before : List Bytes
  pub now : List Bytes
  pub reads : List ReaderInput
  pub writes : List WriterInput
  pub taken : before ++ now ≡ written
  pub tries : Tries turns before goes_on
  pub reader : worker_tun_reader reads ≡ of_reader
  pub writer : Wrote writes now of_writer
  pub turns_unstopped : All IsUnstopped turns
  pub reads_unstopped : All (λ i. i ≢ ReaderInput.stop) reads
  pub writes_unstopped : All (λ i. i ≢ WriterInput.stop) writes
  pub answered_reads : gather turn_reads turns ++ gather read_of reads ≡ a.reads
  pub answered_writes : gather turn_writes turns ++ gather write_of writes ≡ a.writes

-- The turns have led here.
abbrev pub Led : Answers → List Bytes → Progress → Type 0
Led a written progress = (ts : List Turn) × Tries ts written progress × IsAnswered ts a

abbrev pub Standing : Answers → List Bytes → Phase → Type 0
Standing a written absent = Led a written goes_on
Standing a written finished = Led a written returned
Standing a written running = Within a written none none
Standing a written (writer_left event) = Within a written (some event) none
Standing a written (reader_left event) = Within a written none (some event)

abbrev pub progress_of : Phase → Progress
progress_of absent = goes_on
progress_of finished = returned
progress_of _ = waits

followed_by-nothing :
    (tried left : List Bytes) (p : Progress)
    → followed_by (tried, left, p) ([], left, goes_on) ≡ (tried, left, p)
unfolding followed_by
followed_by-nothing tried left goes_on = ap (λ ps. (ps, left, goes_on)) (append-nil tried)
followed_by-nothing tried left waits = refl
followed_by-nothing tried left returned = refl

-- One turn more.
pub Tries-append :
    (ts : List Turn) (t : Turn) (before now : List Bytes) (p : Progress)
    → Tries ts before goes_on
    → ((left : List Bytes) → turn (now ++ left) t ≡ (now, left, p))
    → Tries (ts ++ (t ∷ [])) (before ++ now) p
unfolding run followed_by
Tries-append ts t before now p h k left =
    ap (λ rx. run rx (ts ++ (t ∷ []))) (append_assoc before now left)
    ∙ run-append (before ++ (now ++ left)) ts (t ∷ [])
    ∙ ap (λ r. followed_by r (run r.1 (t ∷ []))) (h (now ++ left))
    ∙ ap (λ (r : List Bytes × List Bytes × Progress). (before ++ r.0, r.1, r.2))
        (ap (λ r. followed_by r (run r.1 [])) (k left) ∙ followed_by-nothing now left p)

pub Wrote-append :
    (ws vs : List WriterInput) (tried later : List Bytes) (event : Option TunEvent)
    → Wrote ws tried none
    → Wrote vs later event
    → Wrote (ws ++ vs) (tried ++ later) event
Wrote-append ws vs tried later event h k left =
    ap (λ rx. worker_tun_writer rx (ws ++ vs)) (append_assoc tried later left)
    ∙ worker_tun_writer-append (tried ++ (later ++ left)) ws vs
    ∙ ap (λ r. resumes r vs) (h (later ++ left))
    ∙ ap (λ (r : List Bytes × List Bytes × Option TunEvent). (tried ++ r.0, r.1, r.2)) (k left)

pub Wrote-ended :
    (ws vs : List WriterInput) (tried : List Bytes) (event : TunEvent)
    → Wrote ws tried (some event)
    → Wrote (ws ++ vs) tried (some event)
Wrote-ended ws vs tried event h left =
    worker_tun_writer-append (tried ++ left) ws vs ∙ ap (λ r. resumes r vs) (h left)

decide-ends : (e : TunEvent) → decide e ≢ waits
unfolding decide
decide-ends TunEvent.reconnect_required = λ e. cc
decide-ends TunEvent.fatal_error = λ e. cc
decide-ends _ = λ e. cc

resumed-Standing :
    (a : Answers) (written : List Bytes) (p : Progress)
    → p ≢ waits
    → Led a written p
    → Standing a written (resumed p)
resumed-Standing a written goes_on n h = h
resumed-Standing a written returned n h = h
resumed-Standing a written waits n h = absurd (n refl)

-- The turn that has begun, as one of the turns.
pub Within-Led :
    (a : Answers) (written : List Bytes) (x y : Option TunEvent) (p : Progress)
    (w : Within a written x y) (t : Turn)
    → IsUnstopped t
    → turn_reads t ≡ gather read_of w.reads
    → turn_writes t ≡ gather write_of w.writes
    → ((left : List Bytes) → turn (w.now ++ left) t ≡ (w.now, left, p))
    → Led a written p
Within-Led a written x y p w t u r v k = (
  w.turns ++ (t ∷ []),
  subst (λ ps. Tries (w.turns ++ (t ∷ [])) ps p) w.taken
      (Tries-append w.turns t w.before w.now p w.tries k),
  record {
    reads =
        gather-more turn_reads w.turns t
        ∙ ap (λ zs. gather turn_reads w.turns ++ zs) r
        ∙ w.answered_reads;
    writes =
        gather-more turn_writes w.turns t
        ∙ ap (λ zs. gather turn_writes w.turns ++ zs) v
        ∙ w.answered_writes;
    unstopped = All-append IsUnstopped w.turns (t ∷ []) w.turns_unstopped (u, tt);
  },
)

-- Both workers have ended, the reader first.
pub writer_gone :
    (a : Answers) (written : List Bytes) (first : TunEvent) (last : Option TunEvent)
    (event : TunEvent) (w : Within a written (some first) last)
    → Wrote (w.writes ++ (WriterInput.stop ∷ [])) w.now (some event)
    → Standing a written (resumed (decide first))
unfolding turn both_ended
writer_gone a written first last event w h =
    resumed-Standing a written (decide first) (decide-ends first) (
      Within-Led a written (some first) last (decide first) w (reader_ends w.reads w.writes)
        w.reads_unstopped refl refl λ left. rw (h left, w.reader) refl)

-- Both have ended, the writer first.
pub reader_gone :
    (a : Answers) (written : List Bytes) (first : TunEvent) (last : Option TunEvent)
    (event : TunEvent) (w : Within a written last (some first))
    → worker_tun_reader (w.reads ++ (ReaderInput.stop ∷ [])) ≡ some event
    → Standing a written (resumed (decide first))
unfolding turn both_ended
reader_gone a written first last event w h =
    resumed-Standing a written (decide first) (decide-ends first) (
      Within-Led a written last (some first) (decide first) w (writer_ends w.writes w.reads)
        w.writes_unstopped refl refl λ left. rw (w.writer left, h) refl)

-- The turns so far, the one that has begun among them.
pub Standing-Led :
    (a : Answers) (written : List Bytes) (phase : Phase)
    → Standing a written phase
    → Led a written (progress_of phase)
unfolding turn both_ended
Standing-Led a written absent s = s
Standing-Led a written finished s = s
Standing-Led a written running w =
    Within-Led a written none none waits w (writer_ends w.writes w.reads) w.writes_unstopped refl
      refl λ left. rw (w.writer left) refl
Standing-Led a written (writer_left e) w =
    Within-Led a written (some e) none waits w (writer_ends w.writes w.reads) w.writes_unstopped
      refl refl λ left. rw (w.writer left) refl
Standing-Led a written (reader_left e) w =
    Within-Led a written none (some e) waits w (reader_ends w.reads w.writes) w.reads_unstopped refl
      refl λ left. rw (w.reader, Wrote-ended w.writes _ w.now e w.writer left) refl
