-- ===== src/Tun/Prefixes.antt =====
-- The loops of the device task, run over inputs in two parts.
use mathlib.Core.List.{append_assoc}
use peer_to_peer_decentraliz.Base.{
  ◌≡◌, refl, sym, ap, ◌∙◌, Option, none, some, List, [], ◌∷◌, ◌++◌, Option-cases, inl, inr,
}
use peer_to_peer_decentraliz.Packet.{Bytes}
use peer_to_peer_decentraliz.Tun.{
  TunEvent, ReaderInput, WriterInput, recv, reader_round, worker_tun_reader, after_write,
  worker_tun_writer, Turn, Progress, goes_on, waits, returned, turn, followed_by, run,
}

-- The event of the first part, or else that of the second.
abbrev pub or_later : Option TunEvent → Option TunEvent → Option TunEvent
or_later none later = later
or_later (some event) later = some event

pub worker_tun_reader-append :
    (is js : List ReaderInput)
    → worker_tun_reader (is ++ js) ≡ or_later (worker_tun_reader is) (worker_tun_reader js)
unfolding worker_tun_reader
worker_tun_reader-append [] js = refl
worker_tun_reader-append (i ∷ is) js = elim (Option-cases (reader_round i)) [
  | inl e ↦ rw (e, worker_tun_reader) (worker_tun_reader-append is js)
  | inr (_, e) ↦ rw (e, worker_tun_reader) refl
]

-- A writer that is still there takes the rest of its inputs.
abbrev pub resumes :
    List Bytes × List Bytes × Option TunEvent
    → List WriterInput
    → List Bytes × List Bytes × Option TunEvent
resumes (tried, left, none) is =
    let (later, end, event) = worker_tun_writer left is in (tried ++ later, end, event)
resumes (tried, left, some event) is = (tried, left, some event)

abbrev behind :
    Bytes → List Bytes × List Bytes × Option TunEvent → List Bytes × List Bytes × Option TunEvent
behind p (tried, left, event) = (p ∷ tried, left, event)

behind-resumes :
    (p : Bytes) (is : List WriterInput) (r : List Bytes × List Bytes × Option TunEvent)
    → behind p (resumes r is) ≡ resumes (behind p r) is
behind-resumes p is (tried, left, none) = refl
behind-resumes p is (tried, left, some event) = refl

pub worker_tun_writer-append :
    (rx : List Bytes) (is js : List WriterInput)
    → worker_tun_writer rx (is ++ js) ≡ resumes (worker_tun_writer rx is) js
unfolding worker_tun_writer
worker_tun_writer-append rx [] js = refl
worker_tun_writer-append rx (WriterInput.stop ∷ is) js = refl
worker_tun_writer-append [] (recv r ∷ is) js = refl
worker_tun_writer-append (p ∷ rx) (recv r ∷ is) js = elim (Option-cases (after_write r)) [
  | inl e ↦
      rw (e, worker_tun_writer)
        (ap (behind p) (worker_tun_writer-append rx is js)
          ∙ behind-resumes p js (worker_tun_writer rx is))
  | inr (_, e) ↦ rw (e, worker_tun_writer) refl
]

followed_by_assoc :
    (a b : List Bytes × List Bytes × Progress) (f : List Bytes → List Bytes × List Bytes × Progress)
    → followed_by a (followed_by b (f b.1)) ≡ followed_by (followed_by a b) (f (followed_by a b).1)
unfolding followed_by
followed_by_assoc (tried, left, goes_on) (later, end, goes_on) f =
    ap (λ ps. (ps, (f end).1, (f end).2)) (sym (append_assoc tried later (f end).0))
followed_by_assoc (tried, left, goes_on) (later, end, waits) f = refl
followed_by_assoc (tried, left, goes_on) (later, end, returned) f = refl
followed_by_assoc (tried, left, waits) b f = refl
followed_by_assoc (tried, left, returned) b f = refl

pub run-append :
    (rx : List Bytes) (ts us : List Turn)
    → run rx (ts ++ us) ≡ followed_by (run rx ts) (run (run rx ts).1 us)
unfolding run followed_by
run-append rx [] us = refl
run-append rx (t ∷ ts) us =
    let now = turn rx t in
    ap (followed_by now) (run-append now.1 ts us)
    ∙ followed_by_assoc now (run now.1 ts) (λ left. run left us)
