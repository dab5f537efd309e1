-- ===== src/Examples/Device.antt =====
-- The device task of tun.rs at concrete inputs.
use peer_to_peer_decentraliz.Base.{◌≡◌, ◌≢◌, refl, List, [], ◌∷◌, ok, err}
use peer_to_peer_decentraliz.Packet.{Bytes}
use peer_to_peer_decentraliz.Tun.{
  network_down, timed_out, permission_denied, ReaderInput, read, recv, full, Turn, create_error,
  reader_ends, writer_ends, returned, reconnect_required, worker_tun_reader, turn, run,
}
use peer_to_peer_decentraliz.Tun.Conservation.{Conserves, run-Conserves, Answers, turn-Answers}

-- No device at first; then the link goes down under the reader, and last a write is not permitted.
abbrev turns : List Turn
turns =
    create_error
    ∷ reader_ends (read (ok (9 ∷ [], full)) ∷ read (err network_down) ∷ []) (recv (ok tt) ∷ [])
    ∷ writer_ends (recv (err timed_out) ∷ recv (err permission_denied) ∷ []) []
    ∷ []

abbrev packets : List Bytes
packets = (1 ∷ []) ∷ (2 ∷ []) ∷ (3 ∷ []) ∷ (4 ∷ []) ∷ []

device_history : run packets turns ≡ ((1 ∷ []) ∷ (2 ∷ []) ∷ (3 ∷ []) ∷ [], (4 ∷ []) ∷ [], returned)
unfolding run
device_history = refl

run-Conserves_example : Conserves packets (run packets turns)
run-Conserves_example = run-Conserves packets turns

not_stop : (r : _) → read r ≢ ReaderInput.stop
not_stop r e = cc

turn-Answers_example :
    Answers reconnect_required
      (turn packets (reader_ends (read (err network_down) ∷ []) (recv (ok tt) ∷ []))).2
unfolding worker_tun_reader
turn-Answers_example =
    turn-Answers packets (reader_ends (read (err network_down) ∷ []) (recv (ok tt) ∷ []))
      reconnect_required (not_stop (err network_down), tt) refl
