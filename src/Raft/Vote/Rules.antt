-- ===== src/Raft/Vote/Rules.antt =====
-- When `requestVote` grants a vote, and what the node holds afterwards.
use projects_cpp.Prelude.{
  ℕ, ◌≡◌, refl, ◌⊎◌, inl, inr, ◌↔◌, true, List, Option, none, some, arith, length,
}
use projects_cpp.Prelude.Int.{ℤ, ◌<ℤ◌, eqb_ℤ→eq, minus_one}
use projects_cpp.Raft.State.{Raft, LogEntry, RequestVoteArgs, Timeval}
use projects_cpp.Raft.Persist.{save_raft_state}
use projects_cpp.Raft.Vote.{
  back, int_ge_size, newer_than, check_log_uptodate, request_vote_begin, request_vote_end,
  request_vote,
}

-- The log of a candidate, by its last term and its length, is at least as new as `logs`.
abbrev pub IsUpToDate : ℤ → ℤ → List LogEntry → Type 0
IsUpToDate term index logs =
    (back logs ≡ none)
    ⊎ ((e : LogEntry) × (back logs ≡ some e)
        × ((e.term <ℤ term) ⊎ ((term ≡ e.term) × (int_ge_size index (length logs) ≡ true))))

newer_than_iff :
    (term index : ℤ) (size : ℕ) (last : LogEntry)
    → (newer_than term index size (some last) ≡ true)
      ↔ ((last.term <ℤ term) ⊎ ((term ≡ last.term) × (int_ge_size index size ≡ true)))
newer_than_iff term index size last =
    (λ h. ground (arith, eqb_ℤ→eq term last.term), λ h. ground arith)

-- The node may vote: the request's term is not lower, and in that term the vote is free or the
-- candidate's already.
abbrev pub MayVote : Raft → RequestVoteArgs → Type 0
MayVote r args =
    (r.cur_term <ℤ args.term)
    ⊎ ((r.cur_term ≡ args.term) × ((r.voted_for ≡ minus_one) ⊎ (r.voted_for ≡ args.candidate_id)))

newer_than_Option_iff :
    (term index : ℤ) (size : ℕ) (o : Option LogEntry)
    → (newer_than term index size o ≡ true) ↔ (
        (o ≡ none)
        ⊎ ((e : LogEntry) × (o ≡ some e)
            × ((e.term <ℤ term) ⊎ ((term ≡ e.term) × (int_ge_size index size ≡ true)))))
newer_than_Option_iff term index size none = (λ h. inl refl, λ h. refl)
newer_than_Option_iff term index size (some last) = (
  λ h. inr (last, refl, (newer_than_iff term index size last).0 h),
  elim [ inl e ↦ cc | inr (e, q, d) ↦ ground (arith, (newer_than_iff term index size last).1) ],
)

pub check_log_uptodate_iff :
    (r : Raft) (term index : ℤ)
    → (check_log_uptodate r term index ≡ true) ↔ IsUpToDate term index r.logs
unfolding check_log_uptodate
check_log_uptodate_iff r term index = newer_than_Option_iff term index (length r.logs) (back r.logs)

granted_of :
    (now : Timeval) (r : Raft) (args : RequestVoteArgs)
    → MayVote r args
    → check_log_uptodate r args.last_log_term args.last_log_index ≡ true
    → (request_vote now r args).1.vote_granted ≡ true
unfolding request_vote request_vote_begin request_vote_end check_log_uptodate
granted_of now r args may h = ground arith

pub of_granted :
    (now : Timeval) (r : Raft) (args : RequestVoteArgs)
    → (request_vote now r args).1.vote_granted ≡ true
    → MayVote r args × (check_log_uptodate r args.last_log_term args.last_log_index ≡ true)
unfolding request_vote request_vote_begin request_vote_end check_log_uptodate
of_granted now r args h = ground (
  arith,
  eqb_ℤ→eq r.cur_term args.term,
  eqb_ℤ→eq r.voted_for minus_one,
  eqb_ℤ→eq r.voted_for args.candidate_id,
)

-- `requestVote` grants its vote exactly when the node may vote for the candidate and the
-- candidate's log is at least as new as the node's.
pub granted_iff :
    (now : Timeval) (r : Raft) (args : RequestVoteArgs)
    → ((request_vote now r args).1.vote_granted ≡ true)
      ↔ (MayVote r args × IsUpToDate args.last_log_term args.last_log_index r.logs)
granted_iff now r args = (
  λ h.
      let (may, newer) = of_granted now r args h in
      (may, (check_log_uptodate_iff r args.last_log_term args.last_log_index).0 newer),
  λ h.
      granted_of now r args h.0
        ((check_log_uptodate_iff r args.last_log_term args.last_log_index).1 h.1),
)

-- A granted vote is on disk before the reply is sent: the node is in the state that `saveRaftState`
-- leaves, in the term of the request and with the vote given to the candidate, its log unchanged.
pub granted-saved :
    (now : Timeval) (r : Raft) (args : RequestVoteArgs)
    → (request_vote now r args).1.vote_granted ≡ true
    → let r' = (request_vote now r args).0 in
      (r'.cur_term ≡ args.term)
      × (r'.voted_for ≡ args.candidate_id)
      × (r'.logs ≡ r.logs)
      × (r'.persister
          ≡ record { logs = r.logs; cur_term = args.term; voted_for = args.candidate_id })
      × (r'.file
          ≡ (save_raft_state
              (record r { cur_term = args.term; voted_for = args.candidate_id })).file)
unfolding request_vote request_vote_begin request_vote_end save_raft_state
granted-saved now r args h = ground (arith, eqb_ℤ→eq r.cur_term args.term)
