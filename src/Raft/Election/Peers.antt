-- ===== src/Raft/Election/Peers.antt =====
-- The counter `cur_peerId`: the threads of one round talk to each other peer once.
use projects_cpp.Prelude.{
  ℕ, zero, suc, ◌+◌, ◌-◌, ◌≤◌, ◌<◌, ◌≡◌, ◌≢◌, refl, ap, subst, List, [], ◌∷◌, arith, length,
}
use projects_cpp.Raft.State.{Raft}
use projects_cpp.Raft.Election.{pick_peer}

-- The targets of `k` threads one after the other, and the node behind them.
abbrev pub pick_peers : ℕ → Raft → List ℕ × Raft
pick_peers zero r = ([], r)
pick_peers (suc k) r =
    let (target, s) = pick_peer r in let (targets, t) = pick_peers k s in (target ∷ targets, t)

-- The numbers rise from `c` on, stay below `n` and leave `id` out.
abbrev pub RisesWithout : ℕ → ℕ → ℕ → List ℕ → Type 0
RisesWithout id n c [] = Unit
RisesWithout id n c (t ∷ ts) = (c ≤ t) × (t < n) × (t ≢ id) × RisesWithout id n (t + 1) ts

-- Node `id` of `n` has its counter at `c`, and `k` other peers are left from there on.
record IsLeft (id n c k : ℕ) (r : Raft) : Type 0 where
  is_id : r.peer_id ≡ id
  is_n : r.peers ≡ n
  at : r.cur_peer_id ≡ c
  own : id < n
  before : c ≤ id → c + k + 1 ≡ n
  behind : id < c → c + k ≡ n

-- One pick: the target, and what is left behind it.
record Picked (id n c k : ℕ) (r : Raft) : Type 0 where
  from : c ≤ (pick_peer r).0
  below : (pick_peer r).0 < n
  other : (pick_peer r).0 ≢ id
  last : k ≡ 0 → (pick_peer r).1.cur_peer_id ≡ 0
  more : 0 < k → IsLeft id n ((pick_peer r).0 + 1) k (pick_peer r).1

pick_peer-Picked : (id n c k : ℕ) (r : Raft) → IsLeft id n c (suc k) r → Picked id n c k r
unfolding pick_peer
pick_peer-Picked id n c k r h = ground arith

pick_peers-Rises :
    (k id n c : ℕ) (r : Raft)
    → IsLeft id n c (suc k) r
    → RisesWithout id n c (pick_peers (suc k) r).0 × ((pick_peers (suc k) r).1.cur_peer_id ≡ 0)
pick_peers-Rises zero id n c r h =
    let p = pick_peer-Picked id n c 0 r h in ((p.from, p.below, p.other, tt), p.last refl)
pick_peers-Rises (suc k) id n c r h =
    let p = pick_peer-Picked id n c (suc k) r h in
    let rest =
      pick_peers-Rises k id n ((pick_peer r).0 + 1) (pick_peer r).1 (p.more (omega arith)) in
    ((p.from, p.below, p.other, rest.0), rest.1)

length-pick_peers : (k : ℕ) (r : Raft) → length (pick_peers k r).0 ≡ k
length-pick_peers zero r = refl
length-pick_peers (suc k) r = ap suc (length-pick_peers k (pick_peer r).1)

-- In a cluster of at least two nodes the threads of one round, one for each other peer, take
-- rising targets below the number of nodes and never the node itself, and leave the counter at 0
-- for the next round.
pub pick_peers_round :
    (r : Raft)
    → 1 < r.peers
    → r.peer_id < r.peers
    → r.cur_peer_id ≡ 0
    → let (targets, s) = pick_peers (r.peers - 1) r in
      (length targets ≡ r.peers - 1)
      × RisesWithout r.peer_id r.peers 0 targets
      × (s.cur_peer_id ≡ 0)
pick_peers_round r many own start = (length-pick_peers (r.peers - 1) r, rises.0, rises.1)
  where
    e : suc (r.peers - 2) ≡ r.peers - 1
    e = omega arith

    rises :
        RisesWithout r.peer_id r.peers 0 (pick_peers (r.peers - 1) r).0
        × ((pick_peers (r.peers - 1) r).1.cur_peer_id ≡ 0)
    rises =
        subst
          (λ k.
            RisesWithout r.peer_id r.peers 0 (pick_peers k r).0
            × ((pick_peers k r).1.cur_peer_id ≡ 0))
          e
          (pick_peers-Rises (r.peers - 2) r.peer_id r.peers 0 r (record {
            is_id = refl;
            is_n = refl;
            at = start;
            own = own;
            before = λ h. omega arith;
            behind = λ h. omega arith;
          }))
