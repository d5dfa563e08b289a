-- ===== src/Raft/Election.antt =====
-- Elections in 6.824/src/Raft/raft.cpp: `getMyduration`, one pass of `electionLoop` up to its wait
-- and behind it, and the two critical sections of `callRequestVote`. The random timeout, the clock
-- and the peers' replies are arguments.
pub mod Quorum
pub mod Peers
pub mod Reread
use projects_cpp.Prelude.{
  ℕ, suc, ◌+◌, ◌-◌, ◌*◌, ◌/◌, List, [], ◌∷◌, Bool, true, false, ◌&&◌, ◌||◌, not, Option, none, some,
  length, replicate, ltb, leb, ◌==◌, if◌then◌else◌,
}
use projects_cpp.Prelude.Int.{ℤ, pos, sub_ℕ, pos_part, neg_part, ltb_ℤ, succ_ℤ, minus_one}
use projects_cpp.Prelude.Text.{Text}
use projects_cpp.Raft.State.{
  Raft, RaftState, leader, candidate, follower, LogEntry, RequestVoteArgs, RequestVoteReply,
  Timeval, set_broadcast_time,
}
use projects_cpp.Raft.Persist.{save_raft_state, read_raft_state}
use projects_cpp.Raft.Vote.{back}

-- `getMyduration`: microseconds from `last` to `now`.
unfoldable pub get_my_duration : Timeval → Timeval → ℤ
get_my_duration now last =
    sub_ℕ (pos_part now.sec * 1000000 + neg_part last.sec * 1000000 + now.usec)
      (pos_part last.sec * 1000000 + neg_part now.sec * 1000000 + last.usec)

abbrev pub is_leader : RaftState → Bool
is_leader leader = true
is_leader candidate = false
is_leader follower = false

abbrev pub is_candidate : RaftState → Bool
is_candidate leader = false
is_candidate candidate = true
is_candidate follower = false

abbrev pub is_follower : RaftState → Bool
is_follower leader = false
is_follower candidate = false
is_follower follower = true

-- The branch of a candidate whose timeout has passed, up to the wait for votes.
unfoldable pub start_election : Timeval → Raft → Raft
start_election now r =
    record (save_raft_state (record r {
      last_wake_time = now;
      cur_term = succ_ℤ r.cur_term;
      voted_for = pos r.peer_id;
    })) { recv_votes = 1; finished_vote = 1; cur_peer_id = 0 }

-- One pass of the inner loop up to the wait; the Boolean is `resetFlag`.
unfoldable pub election_tick : Timeval → ℕ → Raft → Raft × Bool
election_tick now time_out r =
    let elapsed : Bool = ltb_ℤ (pos time_out) (get_my_duration now r.last_wake_time) in
    let r1 : Raft = if is_follower r.state && elapsed then record r { state = candidate } else r in
    if is_candidate r1.state && elapsed then (start_election now r1, true) else (r1, false)

-- The candidate waits on as long as this holds.
unfoldable pub is_waiting : Raft → Bool
is_waiting r = leb r.recv_votes (r.peers / 2) && not (r.finished_vote == r.peers)

unfoldable pub become_leader : Timeval → Raft → Raft
become_leader now r = set_broadcast_time now (record r {
  state = leader;
  next_index = replicate r.peers (pos (length r.logs + 1));
  match_index = replicate r.peers (pos 0);
})

-- Behind the wait.
unfoldable pub finish_election : Timeval → Raft → Raft
finish_election now r =
    if is_candidate r.state
    then (if ltb (r.peers / 2) r.recv_votes then become_leader now r else r)
    else r

-- The peer that the next thread of `callRequestVote` or `sendAppendEntries` talks to, and the
-- counter behind it.
unfoldable pub pick_peer : Raft → ℕ × Raft
pick_peer r =
    let target : ℕ = if r.cur_peer_id == r.peer_id then r.cur_peer_id + 1 else r.cur_peer_id in
    let c : ℕ = target + 1 in
    (
      target,
      record r {
        cur_peer_id = if c == r.peers || (c == r.peers - 1 && r.peer_id == c) then 0 else c;
      },
    )

abbrev pub last_term : Option LogEntry → ℤ
last_term none = pos 0
last_term (some e) = e.term

-- The arguments that `callRequestVote` sends.
unfoldable pub vote_args : Raft → RequestVoteArgs
vote_args r = record {
  term = r.cur_term;
  candidate_id = pos r.peer_id;
  last_log_term = last_term (back r.logs);
  last_log_index = pos (length r.logs);
}

-- What `callRequestVote` does with the reply; `behind` is for `deserialize`. `none` is the fault of a
-- file that cannot be read.
unfoldable pub vote_reply : Text → Raft → RequestVoteReply → Option Raft
vote_reply behind r reply =
    let r1 : Raft = record r { finished_vote = r.finished_vote + 1 } in
    if ltb_ℤ r.cur_term reply.term
    then read_raft_state behind
        (record r1 { state = follower; cur_term = reply.term; voted_for = minus_one })
    else if reply.vote_granted
    then some (record r1 { recv_votes = r.recv_votes + 1 })
    else some r1
