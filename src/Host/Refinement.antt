-- ===== src/Host/Refinement.antt =====
-- The rounds of the device beside its node refine the loop of `Tun::run` over whole turns.
use mathlib.Core.List.{append-nil, append_assoc, Sublist}
use mathlib.Core.List.Sublist
use peer_to_peer_decentraliz.Base.{
  ◌≡◌, refl, sym, subst, List, [], ◌∷◌, ◌++◌, All, Result, Returns, Returns-bind, Returns-mono,
}
use peer_to_peer_decentraliz.Packet.{Bytes, Ipv4Addr}
use peer_to_peer_decentraliz.Vpn
use peer_to_peer_decentraliz.Vpn.{VpnCore}
use peer_to_peer_decentraliz.Transport.{KeyOrder}
use peer_to_peer_decentraliz.Node.{start, final_mtu}
use peer_to_peer_decentraliz.Tun
use peer_to_peer_decentraliz.Tun.{ErrorKind}
use peer_to_peer_decentraliz.Tun.Conservation.{IsUnstopped}
use peer_to_peer_decentraliz.Host.{Host, Round, round, rounds, beside}
use peer_to_peer_decentraliz.Host.Served.{IsRound, IsServed, round-IsServed, beside-IsServed}
use peer_to_peer_decentraliz.Host.Standing.{
  gather, turn_reads, turn_writes, Standing-Led, progress_of,
}
use peer_to_peer_decentraliz.Host.Rounds.{
  reads_in, writes_in, Stands, round-Stands, Returns-Wherever,
}

-- The host has come where `Tun::run` comes by these turns, from a receiver that gives what the writer
-- has handed to the device and then what waits there still.
pub record IsRun {K C : Type 0} (reads : List (Result Bytes ErrorKind))
    (writes : List (Result (Unit {0}) ErrorKind)) (h : Host K C) : Type 0 where
  pub turns : List Tun.Turn
  pub runs :
      Tun.run (h.written ++ h.node.out.to_tun) turns
      ≡ (h.written, h.node.out.to_tun, progress_of h.phase)
  -- what the device answers there, it has answered
  pub of_reads : Sublist (gather turn_reads turns) reads
  pub of_writes : Sublist (gather turn_writes turns) writes
  pub unstopped : All IsUnstopped turns

module _ {K C : Type 0} (keys : KeyOrder K) (remote_id : C → K) where
  -- A round that may come to the host: only its own tasks take packets off its channels.
  abbrev pub MayCome : Round K C → Type 0
  MayCome = IsRound keys remote_id (λ _. Unit {0}) (λ _ _. Unit {0})

  abbrev Served : VpnCore K → Host K C → Type 0
  Served = IsServed keys remote_id (λ _. Unit {0}) (λ _ _. Unit {0})

  Stands-IsRun :
      (R : List (Result Bytes ErrorKind)) (W : List (Result (Unit {0}) ErrorKind)) (h : Host K C)
      → Stands keys remote_id R W h
      → IsRun R W h
  Stands-IsRun R W h s =
      let (ts, tries, answered) = Standing-Led s.used h.written h.phase s.stands in
      record {
        turns = ts;
        runs = tries h.node.out.to_tun;
        of_reads = subst (λ x. Sublist x R) (sym answered.reads) s.of_reads;
        of_writes = subst (λ x. Sublist x W) (sym answered.writes) s.of_writes;
        unstopped = answered.unstopped;
      }

  rounds-Stands :
      (c : VpnCore K) (h : Host K C) (rs : List (Round K C)) (R : List (Result Bytes ErrorKind))
      (W : List (Result (Unit {0}) ErrorKind))
      → All MayCome rs
      → Served c h
      → Stands keys remote_id R W h
      → Returns
          (Stands keys remote_id (R ++ gather reads_in rs) (W ++ gather writes_in rs))
          (rounds keys remote_id h rs)
  unfolding rounds
  rounds-Stands c h [] R W b v s =
      subst (λ x. Stands keys remote_id x (W ++ []) h) (sym (append-nil R))
        (subst (λ y. Stands keys remote_id R y h) (sym (append-nil W)) s)
  rounds-Stands c h (r ∷ rs) R W b v s =
      Returns-bind _ _ (round keys remote_id h r) _
        (Returns-Wherever _ _ (round keys remote_id h r)
          (round-IsServed keys remote_id (λ _. Unit {0}) (λ _ _. Unit {0}) c h r b.0 v)
          (round-Stands keys remote_id R W h r s))
        λ next now.
          Returns-mono _ _ (rounds keys remote_id next rs)
            (λ g last.
              subst (λ x. Stands keys remote_id x (W ++ gather writes_in (r ∷ rs)) g)
                (append_assoc R (reads_in r) (gather reads_in rs))
                (subst (λ y. Stands keys remote_id ((R ++ reads_in r) ++ gather reads_in rs) y g)
                  (append_assoc W (writes_in r) (gather writes_in rs)) last))
            (rounds-Stands c next rs (R ++ reads_in r) (W ++ writes_in r) b.1 now.0 now.1)

  -- Whatever the schedule of the device's task, of its two workers and of the node's tasks, and
  -- whatever the device answers, a started node beside its device comes, without a panic, where
  -- `Tun::run` comes by some turns: these try exactly the packets that the writer has handed to the
  -- device and leave exactly those that wait for it; the loop goes on, waits or has returned as the
  -- device's task does; the device answers there only what it has answered in these rounds, in their
  -- order; and no turn is ended first by a stop signal.
  pub rounds-IsRun :
      (id : K) (ip : Ipv4Addr) (table : List (Ipv4Addr × K)) (rs : List (Round K C))
      → All MayCome rs
      → Returns
          (IsRun (gather reads_in rs) (gather writes_in rs))
          (rounds keys remote_id (beside keys remote_id (start keys remote_id id ip table)) rs)
  unfolding Tun.run
  rounds-IsRun id ip table rs b =
      let h = beside keys remote_id (start keys remote_id id ip table) in
      Returns-mono _ _ (rounds keys remote_id h rs)
        (λ g s. Stands-IsRun (gather reads_in rs) (gather writes_in rs) g s)
        (rounds-Stands (Vpn.new keys.eq ip table final_mtu) h rs [] [] b
          (beside-IsServed keys remote_id (λ _. Unit {0}) (λ _ _. Unit {0}) id ip table)
          (record {
            used = record { reads = []; writes = [] };
            stands = ([], (λ left. refl), record { reads = refl; writes = refl; unstopped = tt });
            of_reads = Sublist.refl [];
            of_writes = Sublist.refl [];
          }))
