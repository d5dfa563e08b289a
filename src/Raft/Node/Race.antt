-- ===== src/Raft/Node/Race.antt =====
-- `requestVote` gives the lock up while it checks the log; here `electionLoop` runs in between.
use projects_cpp.Prelude.{ℕ, ◌≡◌, List}
use projects_cpp.Prelude.Int.{ℤ}
use projects_cpp.Prelude.Text.{Text}
use projects_cpp.Raft.State.{Raft, LogEntry, candidate}

-- A candidate of a term that has its own vote and no other.
record Runs (term : ℤ) (logs : List LogEntry) (peers : ℕ) (s : Raft) : Type 0 where
  state : s.state ≡ candidate
  cur_term : s.cur_term ≡ term
  recv_votes : s.recv_votes ≡ 1
  same_logs : s.logs ≡ logs
  same_peers : s.peers ≡ peers
