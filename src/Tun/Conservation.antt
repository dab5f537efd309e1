-- ===== src/Tun/Conservation.antt =====
-- The packets that the device task takes, and how its turns end.
use mathlib.Core.List.{append_assoc}
use peer_to_peer_decentraliz.Base.{
  ◌≡◌, ◌≢◌, refl, ap, ◌∙◌, Option, none, some, List, [], ◌∷◌, ◌++◌, Result, ok, err, All, ◌⊎◌, inl,
  inr, subst, Option-cases,
}
use peer_to_peer_decentraliz.Packet.{Bytes}
use peer_to_peer_decentraliz.Tun.{
  ErrorKind, TunEvent, info, fatal_error, reconnect_required, classify_tun_error, end_of,
  ReaderInput, WriterInput, read, recv, taken, full, closed, reader_round, worker_tun_reader,
  after_write, worker_tun_writer, Turn, create_error, reader_ends, writer_ends, Progress, goes_on,
  waits, returned, decide, both_ended, turn, followed_by, run,
}

-- What was tried, followed by what the receiver still holds, is what it held.
abbrev pub Conserves : {A : Type 0} → List Bytes → List Bytes × List Bytes × A → Type 0
Conserves rx (tried, left, _) = tried ++ left ≡ rx

worker_tun_writer-Conserves :
    (rx : List Bytes) (is : List WriterInput) → Conserves rx (worker_tun_writer rx is)
unfolding worker_tun_writer
worker_tun_writer-Conserves rx [] = refl
worker_tun_writer-Conserves rx (WriterInput.stop ∷ is) = refl
worker_tun_writer-Conserves [] (recv r ∷ is) = refl
worker_tun_writer-Conserves (p ∷ rx) (recv r ∷ is) = elim (Option-cases (after_write r)) [
  | inl e ↦ rw (e, worker_tun_writer) (ap (λ ps. p ∷ ps) (worker_tun_writer-Conserves rx is))
  | inr (_, e) ↦ rw (e, worker_tun_writer) refl
]

turn-Conserves : (rx : List Bytes) (t : Turn) → Conserves rx (turn rx t)
unfolding turn
turn-Conserves rx create_error = refl
turn-Conserves rx (reader_ends rs ws) = worker_tun_writer-Conserves rx (ws ++ _)
turn-Conserves rx (writer_ends ws rs) = worker_tun_writer-Conserves rx ws

followed_by-Conserves :
    (rx : List Bytes) (now later : List Bytes × List Bytes × Progress)
    → Conserves rx now
    → Conserves now.1 later
    → Conserves rx (followed_by now later)
unfolding followed_by
followed_by-Conserves rx (tried, left, goes_on) (later, end, last) h k =
    append_assoc tried later end ∙ ap (λ ps. tried ++ ps) k ∙ h
followed_by-Conserves rx (tried, left, waits) later h k = h
followed_by-Conserves rx (tried, left, returned) later h k = h

-- However often the device is lost and made again, the packets that the writers took off the receiver
-- and tried to write, over all turns, followed by those that the receiver still holds, are those that
-- it held at the start: none is skipped, taken twice or out of order. A packet whose write fails is
-- among those that were tried, and is not tried again.
pub run-Conserves : (rx : List Bytes) (ts : List Turn) → Conserves rx (run rx ts)
unfolding run
run-Conserves rx [] = refl
run-Conserves rx (t ∷ ts) =
    let now = turn rx t in
    followed_by-Conserves rx now (run now.1 ts) (turn-Conserves rx t) (run-Conserves now.1 ts)

-- The first worker to end has no stop signal among its inputs, since nobody has sent one.
abbrev pub IsUnstopped : Turn → Type 0
IsUnstopped create_error = Unit
IsUnstopped (reader_ends rs ws) = All (λ i. i ≢ ReaderInput.stop) rs
IsUnstopped (writer_ends ws rs) = All (λ i. i ≢ WriterInput.stop) ws

-- The event of the worker that ends first.
abbrev pub first_event : List Bytes → Turn → Option TunEvent
first_event rx create_error = none
first_event rx (reader_ends rs ws) = worker_tun_reader rs
first_event rx (writer_ends ws rs) = (worker_tun_writer rx ws).2

abbrev IsFault : Option TunEvent → Type 0
IsFault none = Unit
IsFault (some e) = (e ≡ reconnect_required) ⊎ (e ≡ fatal_error)

end_of-IsFault : (e : TunEvent) → IsFault (end_of e)
unfolding end_of
end_of-IsFault reconnect_required = inl refl
end_of-IsFault fatal_error = inr refl
end_of-IsFault _ = tt

after_write-IsFault : (r : Result (Unit {0}) ErrorKind) → IsFault (after_write r)
unfolding after_write
after_write-IsFault (ok _) = tt
after_write-IsFault (err e) = end_of-IsFault (classify_tun_error e)

reader_round-IsFault : (i : ReaderInput) → i ≢ ReaderInput.stop → IsFault (reader_round i)
unfolding reader_round
reader_round-IsFault ReaderInput.stop n = absurd (n refl)
reader_round-IsFault (read (ok ([], _))) n = inl refl
reader_round-IsFault (read (ok (_ ∷ _, taken))) n = tt
reader_round-IsFault (read (ok (_ ∷ _, full))) n = tt
reader_round-IsFault (read (ok (_ ∷ _, closed))) n = inr refl
reader_round-IsFault (read (err e)) n = end_of-IsFault (classify_tun_error e)

worker_tun_reader-IsFault :
    (is : List ReaderInput) → All (λ i. i ≢ ReaderInput.stop) is → IsFault (worker_tun_reader is)
unfolding worker_tun_reader
worker_tun_reader-IsFault [] h = tt
worker_tun_reader-IsFault (i ∷ is) (n, h) =
    let fault = reader_round-IsFault i n in
    elim (Option-cases (reader_round i)) [
      | inl none_yet ↦ rw (none_yet, worker_tun_reader) (worker_tun_reader-IsFault is h)
      | inr (e, found) ↦ rw (found, worker_tun_reader) (subst IsFault found fault)
    ]

worker_tun_writer-IsFault :
    (rx : List Bytes) (is : List WriterInput)
    → All (λ i. i ≢ WriterInput.stop) is
    → IsFault (worker_tun_writer rx is).2
unfolding worker_tun_writer
worker_tun_writer-IsFault rx [] h = tt
worker_tun_writer-IsFault rx (WriterInput.stop ∷ is) (n, h) = absurd (n refl)
worker_tun_writer-IsFault [] (recv r ∷ is) h = inr refl
worker_tun_writer-IsFault (p ∷ rx) (recv r ∷ is) (n, h) =
    let fault = after_write-IsFault r in
    elim (Option-cases (after_write r)) [
      | inl none_yet ↦ rw (none_yet, worker_tun_writer) (worker_tun_writer-IsFault rx is h)
      | inr (e, found) ↦ rw (found, worker_tun_writer) (subst IsFault found fault)
    ]

-- A worker that has the stop signal ahead of it ends.
stopped_reader :
    (is : List ReaderInput)
    → (e : TunEvent) × (worker_tun_reader (is ++ (ReaderInput.stop ∷ [])) ≡ some e)
unfolding worker_tun_reader
stopped_reader [] = (info, refl)
stopped_reader (i ∷ is) = elim (Option-cases (reader_round i)) [
  | inl none_yet ↦ rw (none_yet, worker_tun_reader) (stopped_reader is)
  | inr (e, found) ↦ rw (found, worker_tun_reader) (e, refl)
]

stopped_writer :
    (rx : List Bytes) (is : List WriterInput)
    → (e : TunEvent) × ((worker_tun_writer rx (is ++ (WriterInput.stop ∷ []))).2 ≡ some e)
unfolding worker_tun_writer
stopped_writer rx [] = (info, refl)
stopped_writer rx (WriterInput.stop ∷ is) = (info, refl)
stopped_writer [] (recv r ∷ is) = (fatal_error, refl)
stopped_writer (p ∷ rx) (recv r ∷ is) = elim (Option-cases (after_write r)) [
  | inl none_yet ↦ rw (none_yet, worker_tun_writer) (stopped_writer rx is)
  | inr (e, found) ↦ rw (found, worker_tun_writer) (e, refl)
]

-- How the task goes on behind the event of the worker that ended first.
abbrev pub Answers : TunEvent → Progress → Type 0
Answers e progress =
    ((e ≡ reconnect_required) × (progress ≡ goes_on)) ⊎ ((e ≡ fatal_error) × (progress ≡ returned))

both_ended-Answers :
    (e e' : TunEvent) → IsFault (some e) → Answers e (both_ended (some e) (some e'))
unfolding both_ended decide
both_ended-Answers e e' (inl h) = rw h (inl (refl, refl))
both_ended-Answers e e' (inr h) = rw h (inr (refl, refl))

-- Once a worker ends a turn, the turn ends too, since the other worker sees the stop signal; the
-- event is `ReconnectRequired` and the loop goes on, or `FatalError` and the task returns. The
-- branches that the code marks as impossible are.
pub turn-Answers :
    (rx : List Bytes) (t : Turn) (e : TunEvent)
    → IsUnstopped t
    → first_event rx t ≡ some e
    → Answers e (turn rx t).2
unfolding turn
turn-Answers rx create_error e h first = cc
turn-Answers rx (reader_ends rs ws) e h first =
    let (e', ended) = stopped_writer rx ws in
    let fault = worker_tun_reader-IsFault rs h in
    rw (first, ended) (both_ended-Answers e e' (subst IsFault first fault))
turn-Answers rx (writer_ends ws rs) e h first =
    let (e', ended) = stopped_reader rs in
    let fault = worker_tun_writer-IsFault rx ws h in
    rw (first, ended) (both_ended-Answers e e' (subst IsFault first fault))
