-- ===== src/Raft/Election/Quorum.antt =====
-- Who wins an election: the count of the votes that come back.
use projects_cpp.Prelude.{
  ℕ, ◌+◌, ◌*◌, ◌<◌, ◌≡◌, ◌↔◌, false, List, [], ◌∷◌, Option, none, some, arith, All, length,
  if◌then◌else◌,
}
use projects_cpp.Prelude.Int.{◌≤ℤ◌, succ_ℤ}
use projects_cpp.Prelude.Text.{Text}
use projects_cpp.Raft.State.{Raft, leader, candidate, RequestVoteReply, Timeval, set_broadcast_time}
use projects_cpp.Raft.Persist.{save_raft_state}
use projects_cpp.Raft.Election.{
  start_election, is_waiting, finish_election, become_leader, vote_reply,
}

-- The replies of the peers, one after the other.
abbrev pub vote_replies : Text → Raft → List RequestVoteReply → Option Raft
vote_replies behind r [] = some r
vote_replies behind r (e ∷ es) = elim (vote_reply behind r e) [
  | none ↦ none
  | some s ↦ vote_replies behind s es
]

abbrev pub granted : List RequestVoteReply → ℕ
granted [] = 0
granted (e ∷ es) = (if e.vote_granted then 1 else 0) + granted es

-- The counters behind a list of replies.
abbrev pub counted : Raft → ℕ → ℕ → Raft
counted r votes replies = record r {
  recv_votes = r.recv_votes + votes;
  finished_vote = r.finished_vote + replies;
}

vote_reply-counted :
    (behind : Text) (r : Raft) (e : RequestVoteReply)
    → e.term ≤ℤ r.cur_term
    → vote_reply behind r e ≡ some (counted r (if e.vote_granted then 1 else 0) 1)
unfolding vote_reply
vote_reply-counted behind r e h = ground arith

pub vote_replies-counted :
    (behind : Text) (r : Raft) (es : List RequestVoteReply)
    → All (λ e. e.term ≤ℤ r.cur_term) es
    → vote_replies behind r es ≡ some (counted r (granted es) (length es))
vote_replies-counted behind r [] h = ground arith
vote_replies-counted behind r (e ∷ es) h = ground (
  arith,
  vote_reply-counted behind r e h.0,
  vote_replies-counted behind (counted r (if e.vote_granted then 1 else 0) 1) es h.1,
)

pub won_iff :
    (now : Timeval) (s : Raft)
    → s.state ≡ candidate
    → ((finish_election now s).state ≡ leader) ↔ (s.peers < 2 * s.recv_votes)
unfolding finish_election become_leader set_broadcast_time
won_iff now s h = (λ e. ground arith, λ e. ground arith)

-- A candidate that starts an election and hears replies of terms not above its own becomes leader
-- exactly when its own vote and the granted ones are more than half of the peers; and once every
-- other peer has replied it no longer waits.
pub elected_iff :
    (behind : Text) (now now' : Timeval) (r : Raft) (es : List RequestVoteReply)
    → r.state ≡ candidate
    → All (λ e. e.term ≤ℤ succ_ℤ r.cur_term) es
    → (s : Raft) × (vote_replies behind (start_election now r) es ≡ some s)
      × (((finish_election now' s).state ≡ leader) ↔ (r.peers < 2 * (1 + granted es)))
      × (length es + 1 ≡ r.peers → is_waiting s ≡ false)
unfolding start_election save_raft_state is_waiting
elected_iff behind now now' r es c h = (
  counted (start_election now r) (granted es) (length es),
  vote_replies-counted behind (start_election now r) es h,
  won_iff now' (counted (start_election now r) (granted es) (length es)) c,
  λ e. ground arith,
)
