-- ===== src/Examples/Hosting.antt =====
-- The node 5 with its device, which is lost and made again (main.rs, tun.rs). Keys are numbers, and
-- a connection is named by its remote key.
use peer_to_peer_decentraliz.Base.{
  ℕ, ◌≡◌, ◌≤◌, refl, List, [], ◌∷◌, length, ℕ_discrete, All, ok, err, Returns,
}
use peer_to_peer_decentraliz.Packet.{Bytes}
use peer_to_peer_decentraliz.Vpn
use peer_to_peer_decentraliz.Vpn.{VpnCore}
use peer_to_peer_decentraliz.Vpn.Origins.{ForHost}
use peer_to_peer_decentraliz.Transport.{incoming_connection}
use peer_to_peer_decentraliz.Tun.{network_down, timed_out}
use peer_to_peer_decentraliz.Node.{
  coord_event, manager_action, manager_event, session_packet, start, final_mtu,
  intermod_channel_capacity,
}
use peer_to_peer_decentraliz.Node.Owing.{IsOutgoing}
use peer_to_peer_decentraliz.Host.{
  Round, inner, take_packet, create, reader_reads, writer_writes, stop_seen, rounds, beside,
}
use peer_to_peer_decentraliz.Host.Served.{IsRound}
use peer_to_peer_decentraliz.Host.Owing.{rounds-owing}
use peer_to_peer_decentraliz.Host.Standing.{gather}
use peer_to_peer_decentraliz.Host.Rounds.{reads_in, writes_in}
use peer_to_peer_decentraliz.Host.Refinement.{IsRun, MayCome, rounds-IsRun}
use peer_to_peer_decentraliz.Examples.Mesh.{
  nat_keys, remote, own, near, packet, packet-IsBytes, reply, reply-IsBytes,
}

abbrev happens : List (Round ℕ ℕ)
happens =
    create (err tt)
    ∷ create (ok tt)
    ∷ reader_reads (ok packet)
    ∷ take_packet
    ∷ inner (manager_event (incoming_connection 9))
    ∷ inner coord_event
    ∷ inner manager_action
    ∷ inner (session_packet reply 9)
    ∷ inner coord_event
    ∷ reader_reads (err network_down)
    ∷ writer_writes (err timed_out)
    ∷ stop_seen
    ∷ create (ok tt)
    ∷ []

abbrev Given : Bytes → Type 0
Given p = p ≡ packet

abbrev Read : Bytes → ℕ → Type 0
Read p k = (p ≡ reply) × (k ≡ 9)

happens-IsRound : All (IsRound nat_keys remote Given Read) happens
happens-IsRound = (
  tt,
  (
    tt,
    (
      (packet-IsBytes, refl),
      (
        tt,
        (
          (tt, tt),
          (
            (tt, tt),
            ((tt, tt), ((reply-IsBytes, (refl, refl)), ((tt, tt), (tt, (tt, (tt, (tt, tt))))))),
          ),
        ),
      ),
    ),
  ),
)

abbrev router : VpnCore ℕ
router = Vpn.new ℕ_discrete own ((near, 9) ∷ []) final_mtu

rounds-owing_example :
    Returns
      (λ h.
        All (ForHost ℕ_discrete Given Read router) h.written
        × All (IsOutgoing nat_keys remote Given Read router) h.node.out.to_iroh
        × (length h.from_tun ≤ intermod_channel_capacity))
      (rounds nat_keys remote
        (beside nat_keys remote (start nat_keys remote 5 own ((near, 9) ∷ [])))
        happens)
rounds-owing_example =
    rounds-owing nat_keys remote Given Read 5 own ((near, 9) ∷ []) happens happens-IsRound

happens-MayCome : All (MayCome nat_keys remote) happens
happens-MayCome = (
  tt,
  (
    tt,
    (
      (packet-IsBytes, tt),
      (
        tt,
        (
          (tt, tt),
          ((tt, tt), ((tt, tt), ((reply-IsBytes, tt), ((tt, tt), (tt, (tt, (tt, (tt, tt)))))))),
        ),
      ),
    ),
  ),
)

rounds-IsRun_example : Returns (IsRun (gather reads_in happens) (gather writes_in happens)) (
    rounds nat_keys remote
      (beside nat_keys remote (start nat_keys remote 5 own ((near, 9) ∷ [])))
      happens)
rounds-IsRun_example = rounds-IsRun nat_keys remote 5 own ((near, 9) ∷ []) happens happens-MayCome
