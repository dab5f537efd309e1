-- ===== src/Vpn/Queue.antt =====
-- The packet queue of a peer that is not connected.
use peer_to_peer_decentraliz.Base.{
  ℕ, suc, ◌-◌, ◌≤◌, ◌≡◌, inl, inr, Bool-cases, List, [], ◌∷◌, ◌++◌, arith, leb, length, drop,
  length-append, length-drop, drop-append, drop-drop, sym, ap, ◌∙◌, if◌then◌else◌,
}
use peer_to_peer_decentraliz.Packet.{Bytes}
use peer_to_peer_decentraliz.Vpn.{
  no_action, packet_buffered, packet_queue_overflow, max_packets_in_queue, buffer, pop_front,
}

-- The last `n` entries.
abbrev pub keep_last : ℕ → List Bytes → List Bytes
keep_last n xs = drop (length xs - n) xs

pub length-keep_last : (n : ℕ) (xs : List Bytes) → length (keep_last n xs) ≤ n
length-keep_last n xs = omega (arith, length-drop (length xs - n) xs)

pub keep_last_short : (n : ℕ) (xs : List Bytes) → length xs ≤ n → keep_last n xs ≡ xs
keep_last_short n xs h = let zero_drop : length xs - n ≡ 0 = omega arith in rw zero_drop

-- A queue cut to its last `n` entries and then extended is cut as if it had been extended first.
pub keep_last-append :
    (n : ℕ) (xs ys : List Bytes) → keep_last n (keep_last n xs ++ ys) ≡ keep_last n (xs ++ ys)
keep_last-append n xs ys = rw (sym (drop-append (length xs - n) xs ys (omega arith))) (
    drop-drop _ (length xs - n) (xs ++ ys)
    ∙ ap (λ k. drop k (xs ++ ys))
        (omega (arith, length-drop (length xs - n) (xs ++ ys), length-append xs ys)))

pop_front_full :
    (n : ℕ) (queue : List Bytes) (packet : Bytes)
    → length queue ≡ suc n
    → pop_front queue ++ (packet ∷ []) ≡ keep_last (suc n) (queue ++ (packet ∷ []))
unfolding pop_front
pop_front_full n [] packet e = absurd (omega arith)
pop_front_full n (p ∷ queue) packet e =
    let one : suc (length (queue ++ (packet ∷ []))) - suc n ≡ 1 =
      omega (arith, length-append queue (packet ∷ [])) in
    rw one

-- `buffer` keeps the last 1000 packets.
pub buffer-keep_last :
    {K : Type 0} (queue : List Bytes) (packet : Bytes)
    → length queue ≤ max_packets_in_queue
    → buffer {K = K} queue packet ≡ (
      keep_last max_packets_in_queue (queue ++ (packet ∷ [])),
      if leb max_packets_in_queue (length queue)
          then no_action packet_queue_overflow ∷ no_action packet_buffered ∷ []
          else no_action packet_buffered ∷ [],
    )
unfolding buffer
buffer-keep_last queue packet h = elim (Bool-cases (leb max_packets_in_queue (length queue))) [
  | inl full ↦ rw full (cc (pop_front_full 999 queue packet (ground arith)))
  | inr room ↦ rw room (
      cc (
        keep_last_short max_packets_in_queue (queue ++ (packet ∷ []))
          (ground (arith, length-append queue (packet ∷ [])))))
]
