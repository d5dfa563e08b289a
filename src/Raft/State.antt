-- ===== src/Raft/State.antt =====
-- The data of 6.824/src/Raft/raft.cpp: log entries, messages, the node and its initial state.
-- A C `int` is an unbounded integer, a `string` a list of byte values. Sockets, thread handles and
-- locks are left out: each handler is one critical section of `m_lock`, and a handler that gives the
-- lock up in the middle is several definitions.
use projects_cpp.Prelude.{ℕ, ◌+◌, ◌-◌, List, [], Bool, false, Option, leb, replicate, if◌then◌else◌}
use projects_cpp.Prelude.Int.{ℤ, pos, minus_one, pred_ℤ}
use projects_cpp.Prelude.Text.{Text}

pub record Operation : Type 0 where
  pub op : Text
  pub key : Text
  pub value : Text
  pub client_id : ℤ
  pub request_id : ℤ

pub record StartRet : Type 0 where
  pub cmd_index : ℤ
  pub cur_term : ℤ
  pub is_leader : Bool

pub record LogEntry : Type 0 where
  pub command : Text
  pub term : ℤ

pub record Persister : Type 0 where
  pub logs : List LogEntry
  pub cur_term : ℤ
  pub voted_for : ℤ

pub record AppendEntriesArgs : Type 0 where
  pub term : ℤ
  pub leader_id : ℤ
  pub prev_log_index : ℤ
  pub prev_log_term : ℤ
  pub leader_commit : ℤ
  pub send_logs : Text

pub record AppendEntriesReply : Type 0 where
  pub term : ℤ
  pub success : Bool
  pub conflict_term : ℤ
  pub conflict_index : ℤ

pub record RequestVoteArgs : Type 0 where
  pub term : ℤ
  pub candidate_id : ℤ
  pub last_log_term : ℤ
  pub last_log_index : ℤ

pub record RequestVoteReply : Type 0 where
  pub term : ℤ
  pub vote_granted : Bool

-- `struct timeval`; what `gettimeofday` returns is an argument of the operations.
pub record Timeval : Type 0 where
  pub sec : ℤ
  pub usec : ℕ

pub data RaftState : Type 0 where
  leader candidate follower : RaftState

-- The members of class Raft. `file` is the content of the file persister-<id>, `none` while there
-- is no such file.
pub record Raft : Type 0 where
  pub peers : ℕ
  pub peer_id : ℕ
  pub dead : Bool
  pub cur_term : ℤ
  pub voted_for : ℤ
  pub logs : List LogEntry
  pub next_index : List ℤ
  pub match_index : List ℤ
  pub last_applied : ℤ
  pub commit_index : ℤ
  pub recv_votes : ℕ
  pub finished_vote : ℕ
  pub cur_peer_id : ℕ
  pub state : RaftState
  pub leader_id : ℤ
  pub last_wake_time : Timeval
  pub last_broadcast_time : Timeval
  pub persister : Persister
  pub file : Option Text

-- The state that the first lines of `Make` set, on a node with no members set before.
unfoldable pub fresh : ℕ → ℕ → Timeval → Option Text → Raft
fresh peers id now file = record {
  peers = peers;
  peer_id = id;
  dead = false;
  cur_term = pos 0;
  voted_for = minus_one;
  logs = [];
  next_index = replicate peers (pos 1);
  match_index = replicate peers (pos 0);
  last_applied = pos 0;
  commit_index = pos 0;
  recv_votes = 0;
  finished_vote = 0;
  cur_peer_id = 0;
  state = follower;
  leader_id = minus_one;
  last_wake_time = now;
  last_broadcast_time = record { sec = pos 0; usec = 0 };
  persister = record { logs = []; cur_term = pos 0; voted_for = minus_one };
  file = file;
}

-- `setBroadcastTime`: 200 ms before `now`.
unfoldable pub set_broadcast_time : Timeval → Raft → Raft
set_broadcast_time now r = record r {
  last_broadcast_time =
      if leb 200000 now.usec
      then record { sec = now.sec; usec = now.usec - 200000 }
      else record { sec = pred_ℤ now.sec; usec = now.usec + (1000000 - 200000) };
}
