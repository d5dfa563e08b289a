-- ===== src/Raft/Vote.antt =====
-- Voting in 6.824/src/Raft/raft.cpp: `checkLogUptodate` and `requestVote`. The handler gives `m_lock`
-- up while it checks the log, so it is two critical sections, `request_vote_begin` and
-- `request_vote_end`; `request_vote` is the handler when no other thread comes between them.
pub mod Rules
use projects_cpp.Prelude.{
  ℕ, List, [], ◌∷◌, Bool, true, false, ◌&&◌, ◌||◌, Option, none, some, length, leb, if◌then◌else◌,
}
use projects_cpp.Prelude.Int.{ℤ, pos, negsuc, ltb_ℤ, eqb_ℤ, minus_one}
use projects_cpp.Raft.State.{Raft, LogEntry, RequestVoteArgs, RequestVoteReply, Timeval, follower}
use projects_cpp.Raft.Persist.{save_raft_state}

-- `m_logs.back()`
abbrev pub back : List LogEntry → Option LogEntry
back [] = none
back (e ∷ []) = some e
back (e ∷ (f ∷ es)) = back (f ∷ es)

-- `index >= m_logs.size()`: the `int` is converted to `size_t`, and a negative one is huge.
abbrev pub int_ge_size : ℤ → ℕ → Bool
int_ge_size (pos i) n = leb n i
int_ge_size (negsuc i) n = true

abbrev pub newer_than : ℤ → ℤ → ℕ → Option LogEntry → Bool
newer_than term index size none = true
newer_than term index size (some last) =
    ltb_ℤ last.term term || (eqb_ℤ term last.term && int_ge_size index size)

-- `checkLogUptodate`
unfoldable pub check_log_uptodate : Raft → ℤ → ℤ → Bool
check_log_uptodate r term index = newer_than term index (length r.logs) (back r.logs)

-- Where the first critical section of `requestVote` ends: in a `return`, or at the check.
pub data VoteBegun : Type 0 where
  returned : Raft → RequestVoteReply → VoteBegun
  checking : Raft → RequestVoteReply → VoteBegun

-- A higher term is adopted, and the vote is free again.
abbrev pub adopt_term : Raft → ℤ → Raft
adopt_term r term =
    if ltb_ℤ r.cur_term term
    then record r { state = follower; cur_term = term; voted_for = minus_one }
    else r

unfoldable pub request_vote_begin : Raft → RequestVoteArgs → VoteBegun
request_vote_begin r args =
    let reply : RequestVoteReply = record { term = r.cur_term; vote_granted = false } in
    let r1 : Raft = adopt_term r args.term in
    if ltb_ℤ args.term r.cur_term
    then returned r reply
    else if eqb_ℤ r1.voted_for minus_one || eqb_ℤ r1.voted_for args.candidate_id
    then checking r1 reply
    else returned (save_raft_state r1) reply

-- Behind the check, under the lock again.
unfoldable pub request_vote_end :
    Timeval → Raft → RequestVoteArgs → RequestVoteReply → Raft × RequestVoteReply
request_vote_end now r args reply = (
  save_raft_state (record r { voted_for = args.candidate_id; last_wake_time = now }),
  record reply { vote_granted = true },
)

-- The rest of the handler from the check of the log on, which takes the lock again.
abbrev pub request_vote_resume :
    Timeval → Raft → RequestVoteArgs → RequestVoteReply → Raft × RequestVoteReply
request_vote_resume now r args reply =
    if check_log_uptodate r args.last_log_term args.last_log_index
    then request_vote_end now r args reply
    else (r, reply)

abbrev pub request_vote_checked : Timeval → RequestVoteArgs → VoteBegun → Raft × RequestVoteReply
request_vote_checked now args (returned r reply) = (r, reply)
request_vote_checked now args (checking r reply) = request_vote_resume now r args reply

unfoldable pub request_vote : Timeval → Raft → RequestVoteArgs → Raft × RequestVoteReply
request_vote now r args = request_vote_checked now args (request_vote_begin r args)
