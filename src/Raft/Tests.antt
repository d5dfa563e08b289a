-- ===== src/Raft/Tests.antt =====
-- Nodes of a small cluster, on which the theorems about 6.824/src/Raft/raft.cpp are tried out.
mod Votes
mod Logs
mod Files
use projects_cpp.Prelude.{ℕ, List, [], ◌∷◌, Bool, true, false, Option, none, some}
use projects_cpp.Prelude.Int.{ℤ, pos, minus_one}
use projects_cpp.Raft.State.{
  Raft, LogEntry, Persister, RequestVoteArgs, AppendEntriesArgs, Timeval, leader, candidate,
  follower,
}

abbrev pub noon : Timeval
noon = record { sec = pos 100; usec = 0 }

abbrev pub put_a : LogEntry
put_a = record { command = 97 ∷ []; term = pos 1 }

abbrev pub put_b : LogEntry
put_b = record { command = 98 ∷ []; term = pos 2 }

-- Node 0 of three, at the start.
abbrev pub blank : Raft
blank = record {
  peers = 3;
  peer_id = 0;
  dead = false;
  cur_term = pos 0;
  voted_for = minus_one;
  logs = [];
  next_index = pos 1 ∷ pos 1 ∷ pos 1 ∷ [];
  match_index = pos 0 ∷ pos 0 ∷ pos 0 ∷ [];
  last_applied = pos 0;
  commit_index = pos 0;
  recv_votes = 0;
  finished_vote = 0;
  cur_peer_id = 0;
  state = follower;
  leader_id = minus_one;
  last_wake_time = noon;
  last_broadcast_time = noon;
  persister = record { logs = []; cur_term = pos 0; voted_for = minus_one };
  file = none;
}

-- A follower that has the first of two entries.
abbrev pub behind : Raft
behind = record blank { cur_term = pos 1; logs = put_a ∷ [] }

-- The leader of term 2, whose log the follower 1 has up to the first entry.
abbrev pub ahead : Raft
ahead = record blank {
  cur_term = pos 2;
  state = leader;
  logs = put_a ∷ put_b ∷ [];
  next_index = pos 3 ∷ pos 2 ∷ pos 2 ∷ [];
}

-- Candidate 1 asks in term 1.
abbrev pub ask : RequestVoteArgs
ask = record { term = pos 1; candidate_id = pos 1; last_log_term = pos 0; last_log_index = pos 0 }

-- A message of term 2 behind entry 1, with no entries.
abbrev pub heartbeat : AppendEntriesArgs
heartbeat = record {
  term = pos 2;
  leader_id = pos 0;
  prev_log_index = pos 1;
  prev_log_term = pos 1;
  leader_commit = pos 0;
  send_logs = [];
}
