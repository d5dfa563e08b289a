-- ===== src/Raft/Append/Gaps.antt =====
-- What `appendEntries` does with the commit index, with an empty log, and with the vote.
use projects_cpp.Prelude.{
  ℕ, zero, suc, ◌+◌, ◌≤◌, ◌<◌, ◌≡◌, ◌≢◌, refl, ap, true, false, List, [], ◌∷◌, some, arith, length,
  take, length-append, length-take, get_elem?-lt, lt→ltb,
}
use projects_cpp.Prelude.Int.{ℤ, pos, negsuc, ◌≤ℤ◌, ◌<ℤ◌, minus_one}
use projects_cpp.Raft.State.{Raft, LogEntry, AppendEntriesArgs, AppendEntriesReply, Timeval}
use projects_cpp.Raft.Persist.{save_raft_state}
use projects_cpp.Raft.Append.{
  append_decoded, append_by_log, append_after, accept_term, store_entries, initial_reply, too_short,
  follow_commit,
}
use projects_cpp.Raft.Append.Accept.{HasPrev, kept, taken, append_decoded-accepts, taken_fields}

kept-le : (logs : List LogEntry) (prev term : ℤ) → HasPrev logs prev term → kept prev ≤ length logs
kept-le logs (pos zero) term h = omega arith
kept-le logs (pos (suc k)) term (e, found, same) = get_elem?-lt logs k found
kept-le logs (negsuc n) term h = absurd h

length-taken :
    (now : Timeval) (r : Raft) (args : AppendEntriesArgs) (recv : List LogEntry)
    → HasPrev r.logs args.prev_log_index args.prev_log_term
    → length (taken now r args recv).logs ≡ kept args.prev_log_index + length recv
length-taken now r args recv h = omega (
  arith,
  ap length (taken_fields now r args recv).0,
  length-append (take (kept args.prev_log_index) r.logs) recv,
  length-take (kept args.prev_log_index) r.logs,
  kept-le r.logs args.prev_log_index args.prev_log_term h,
)

commit_index-taken :
    (now : Timeval) (r : Raft) (args : AppendEntriesArgs) (recv : List LogEntry)
    → let s = taken now r args recv in
      r.commit_index ≤ℤ pos (length s.logs)
      → (r.commit_index ≤ℤ s.commit_index) × (s.commit_index ≤ℤ pos (length s.logs))
unfolding store_entries save_raft_state accept_term
commit_index-taken now r args recv h = ground arith

-- A message that is taken and that does not cut the log below the commit index: the commit index
-- does not fall, and stays within the log.
pub commit_index_follows :
    (now : Timeval) (r : Raft) (args : AppendEntriesArgs) (recv : List LogEntry)
    → r.cur_term ≤ℤ args.term
    → HasPrev r.logs args.prev_log_index args.prev_log_term
    → r.commit_index ≤ℤ pos (kept args.prev_log_index + length recv)
    → (s : Raft) × (reply : AppendEntriesReply) × (append_decoded now r args recv ≡ some (s, reply))
      × (r.commit_index ≤ℤ s.commit_index)
      × (s.commit_index ≤ℤ pos (length s.logs))
commit_index_follows now r args recv term prev within =
    let bounds =
      commit_index-taken now r args recv (omega (arith, length-taken now r args recv prev)) in
    (
      taken now r args recv,
      record (initial_reply r) { success = true },
      append_decoded-accepts now r args recv term prev,
      bounds.0,
      bounds.1,
    )

-- A late message that ends below the commit index is taken all the same, and cuts entries off that
-- were committed.
pub late_message_cuts :
    (now : Timeval) (r : Raft) (args : AppendEntriesArgs) (recv : List LogEntry)
    → r.cur_term ≤ℤ args.term
    → HasPrev r.logs args.prev_log_index args.prev_log_term
    → pos (kept args.prev_log_index + length recv) <ℤ r.commit_index
    → (s : Raft) × (reply : AppendEntriesReply) × (append_decoded now r args recv ≡ some (s, reply))
      × (reply.success ≡ true)
      × (pos (length s.logs) <ℤ r.commit_index)
late_message_cuts now r args recv term prev below = (
  taken now r args recv,
  record (initial_reply r) { success = true },
  append_decoded-accepts now r args recv term prev,
  refl,
  omega (arith, length-taken now r args recv prev),
)

-- An empty log takes every message of a term that is not lower, also one that leaves a gap in front
-- of its entries, and reports success.
pub empty_log_accepts :
    (now : Timeval) (r : Raft) (args : AppendEntriesArgs) (recv : List LogEntry)
    → r.logs ≡ []
    → r.cur_term ≤ℤ args.term
    → (s : Raft) × (reply : AppendEntriesReply) × (append_decoded now r args recv ≡ some (s, reply))
      × (reply.success ≡ true)
      × (reply.term ≡ r.cur_term)
      × (s.logs ≡ recv)
unfolding append_decoded append_by_log save_raft_state
empty_log_accepts now r args recv e h = (
  follow_commit args.leader_commit
      (save_raft_state (record (accept_term now args.term r) { logs = recv })),
  record (initial_reply r) { success = true },
  ground arith,
  refl,
  refl,
  refl,
)

append_by_log-full :
    (log recv : List LogEntry) (args : AppendEntriesArgs) (reply : AppendEntriesReply) (r : Raft)
    → log ≢ []
    → append_by_log log recv args reply r ≡ append_after args.prev_log_index recv args reply r
unfolding append_by_log
append_by_log-full [] recv args reply r h = absurd (h refl)
append_by_log-full (x ∷ log) recv args reply r h = refl

append_after-short :
    (n : ℕ) (recv : List LogEntry) (args : AppendEntriesArgs) (reply : AppendEntriesReply)
    (r : Raft)
    → length r.logs < n
    → append_after (pos n) recv args reply r ≡ too_short r reply
unfolding append_after
append_after-short zero recv args reply r h = elim h [ ]
append_after-short (suc k) recv args reply r h = ground arith

accept_term-higher :
    (now : Timeval) (term : ℤ) (r : Raft)
    → r.cur_term <ℤ term
    → let s = accept_term now term r in
      (s.logs ≡ r.logs)
      × (s.persister ≡ record { logs = r.logs; cur_term = r.cur_term; voted_for = minus_one })
      × (s.file ≡ (save_raft_state (record r { voted_for = minus_one })).file)
unfolding accept_term save_raft_state
accept_term-higher now term r h = rw (lt→ltb _ _ h) (refl, refl, refl)

-- A refused message of a higher term: in memory the node has the new term, and on disk it has the
-- old term with the vote that it gave there erased.
pub refused_erases_vote :
    (now : Timeval) (r : Raft) (args : AppendEntriesArgs) (recv : List LogEntry) (n : ℕ)
    → r.cur_term <ℤ args.term
    → r.logs ≢ []
    → args.prev_log_index ≡ pos n
    → length r.logs < n
    → (s : Raft) × (reply : AppendEntriesReply) × (append_decoded now r args recv ≡ some (s, reply))
      × (reply.success ≡ false)
      × (s.cur_term ≡ args.term)
      × (s.persister ≡ record { logs = r.logs; cur_term = r.cur_term; voted_for = minus_one })
      × (s.file ≡ (save_raft_state (record r { voted_for = minus_one })).file)
unfolding append_decoded
refused_erases_vote now r args recv n higher full at short =
    let fields = accept_term-higher now args.term r higher in
    (
      accept_term now args.term r,
      record (initial_reply r) { conflict_index = pos (length r.logs) },
      ground (
        arith,
        append_by_log-full r.logs recv args (initial_reply r) (accept_term now args.term r) full,
        append_after-short n recv args (initial_reply r) (accept_term now args.term r),
        fields.0,
      ),
      refl,
      unfold accept_term in refl,
      fields.1,
      fields.2,
    )
