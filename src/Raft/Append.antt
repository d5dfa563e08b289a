-- ===== src/Raft/Append.antt =====
-- The follower's side of log replication in 6.824/src/Raft/raft.cpp: `appendEntries`.
pub mod Accept
pub mod Gaps
use projects_cpp.Prelude.{
  ℕ, zero, suc, ◌+◌, List, [], ◌∷◌, ◌++◌, Bool, true, false, Option, none, some, length, take,
  get_elem?, ltb, if◌then◌else◌,
}
use projects_cpp.Prelude.Int.{ℤ, pos, negsuc, ltb_ℤ, eqb_ℤ, minus_one, min_ℤ}
use projects_cpp.Raft.State.{
  Raft, LogEntry, AppendEntriesArgs, AppendEntriesReply, Timeval, follower,
}
use projects_cpp.Raft.Codec.{get_cmd_and_term}
use projects_cpp.Raft.Persist.{save_raft_state}

-- The commit index follows the leader's, as far as the log goes.
abbrev pub follow_commit : ℤ → Raft → Raft
follow_commit leader_commit r = record r {
  commit_index =
      if ltb_ℤ r.commit_index leader_commit
      then min_ℤ leader_commit (pos (length r.logs))
      else r.commit_index;
}

-- The loop over the entries 1 to `prevLogIndex` for the first one of a term.
unfoldable pub first_of_term : ℤ → ℕ → List LogEntry → ℤ
first_of_term t i [] = minus_one
first_of_term t i (e ∷ es) =
    let rest = first_of_term t (i + 1) es in if eqb_ℤ e.term t then pos i else rest

-- The log is cut behind the first `n` entries, the received ones follow.
unfoldable pub store_entries : ℕ → List LogEntry → ℤ → Raft → Raft
store_entries n recv leader_commit r =
    follow_commit leader_commit (save_raft_state (record r { logs = take n r.logs ++ recv }))

-- The entry in front of the new ones has another term: what the reply tells of it.
unfoldable pub conflict_reply : ℕ → ℤ → List LogEntry → AppendEntriesReply → AppendEntriesReply
conflict_reply prev term logs reply = record reply {
  conflict_term = term;
  conflict_index = first_of_term term 1 (take prev logs);
}

abbrev pub check_prev :
    ℕ
    → Option LogEntry
    → List LogEntry
    → AppendEntriesArgs
    → AppendEntriesReply
    → Raft
    → Option (Raft × AppendEntriesReply)
check_prev prev none recv args reply r = none
check_prev prev (some e) recv args reply r =
    if eqb_ℤ e.term args.prev_log_term
    then some (store_entries prev recv args.leader_commit r, record reply { success = true })
    else some (r, conflict_reply prev e.term r.logs reply)

-- `m_logs.size() < args.m_prevLogIndex`: the log is too short; a negative index is converted to a
-- huge `size_t`.
abbrev pub too_short : Raft → AppendEntriesReply → Option (Raft × AppendEntriesReply)
too_short r reply = some (r, record reply { conflict_index = pos (length r.logs) })

-- A log that is not empty, by `prevLogIndex`.
unfoldable pub append_after :
    ℤ
    → List LogEntry
    → AppendEntriesArgs
    → AppendEntriesReply
    → Raft
    → Option (Raft × AppendEntriesReply)
append_after (negsuc n) recv args reply r = too_short r reply
append_after (pos zero) recv args reply r =
    some (store_entries 0 recv args.leader_commit r, record reply { success = true })
append_after (pos (suc k)) recv args reply r =
    if ltb (length r.logs) (suc k)
    then too_short r reply
    else check_prev (suc k) (get_elem? r.logs k) recv args reply r

-- An empty log takes what it is sent, whatever `prevLogIndex` says.
unfoldable pub append_by_log :
    List LogEntry
    → List LogEntry
    → AppendEntriesArgs
    → AppendEntriesReply
    → Raft
    → Option (Raft × AppendEntriesReply)
append_by_log [] recv args reply r = some (
  follow_commit args.leader_commit (save_raft_state (record r { logs = recv })),
  record reply { success = true },
)
append_by_log (e ∷ es) recv args reply r = append_after args.prev_log_index recv args reply r

-- A term that is not lower is adopted. The state is saved before the new term is set.
unfoldable pub accept_term : Timeval → ℤ → Raft → Raft
accept_term now term r =
    let r1 : Raft =
      if ltb_ℤ r.cur_term term then save_raft_state (record r { voted_for = minus_one }) else r in
    record r1 { cur_term = term; state = follower; last_wake_time = now }

-- The reply before anything is decided.
abbrev pub initial_reply : Raft → AppendEntriesReply
initial_reply r = record {
  term = r.cur_term;
  success = false;
  conflict_term = minus_one;
  conflict_index = minus_one;
}

-- The handler on the entries that it has read from the message.
unfoldable pub append_decoded :
    Timeval → Raft → AppendEntriesArgs → List LogEntry → Option (Raft × AppendEntriesReply)
append_decoded now r args recv =
    if ltb_ℤ args.term r.cur_term
    then some (r, initial_reply r)
    else append_by_log r.logs recv args (initial_reply r) (accept_term now args.term r)

abbrev pub append_read :
    Timeval → Raft → AppendEntriesArgs → Option (List LogEntry) → Option (Raft × AppendEntriesReply)
append_read now r args none = none
append_read now r args (some recv) = append_decoded now r args recv

-- `appendEntries`. `none` is a fault: entries that cannot be read.
unfoldable pub append_entries :
    Timeval → Raft → AppendEntriesArgs → Option (Raft × AppendEntriesReply)
append_entries now r args = append_read now r args (get_cmd_and_term args.send_logs)
