-- ===== src/Raft/Tests/Votes.antt =====
-- Votes and elections on the nodes of `Tests`.
use projects_cpp.Prelude.{
  ◌+◌, ◌*◌, ◌<◌, ◌≡◌, refl, ap, ◌↔◌, inl, [], ◌∷◌, true, false, some, arith, length,
}
use projects_cpp.Prelude.Int.{pos, neg_part}
use projects_cpp.Raft.State.{Raft, RequestVoteArgs, RequestVoteReply, Timeval, candidate, leader}
use projects_cpp.Raft.Tests.{noon, blank, ask}
use projects_cpp.Raft.Vote.{request_vote, request_vote_begin, request_vote_end, check_log_uptodate}
use projects_cpp.Raft.Vote.Rules.{granted_iff, MayVote, IsUpToDate, granted-saved}
use projects_cpp.Raft.Persist.{save_raft_state}
use projects_cpp.Raft.Election.{start_election, finish_election, is_waiting}
use projects_cpp.Raft.Election.Quorum.{vote_replies, granted, elected_iff}
use projects_cpp.Raft.Election.Peers.{pick_peers, RisesWithout, pick_peers_round}
use projects_cpp.Raft.Leader.{apply_log}
use projects_cpp.Raft.Node.{Steps, here, next, handle, apply_pass}
use projects_cpp.Raft.Node.OneVote.{one_vote_per_term}

granted_iff_example :
    ((request_vote noon blank ask).1.vote_granted ≡ true)
    ↔ (MayVote blank ask × IsUpToDate ask.last_log_term ask.last_log_index blank.logs)
granted_iff_example = granted_iff noon blank ask

ask_granted : (request_vote noon blank ask).1.vote_granted ≡ true
ask_granted = (granted_iff noon blank ask).1 (inl (omega arith), inl refl)

granted-saved_example :
    let r = (request_vote noon blank ask).0 in
    (r.cur_term ≡ ask.term)
    × (r.voted_for ≡ ask.candidate_id)
    × (r.logs ≡ blank.logs)
    × (r.persister
        ≡ record { logs = blank.logs; cur_term = ask.term; voted_for = ask.candidate_id })
    × (r.file
        ≡ (save_raft_state
            (record blank { cur_term = ask.term; voted_for = ask.candidate_id })).file)
granted-saved_example = granted-saved noon blank ask ask_granted

-- The node after its vote and a pass of its apply loop.
abbrev voted : Raft
voted = apply_log (request_vote noon blank ask).0

voted_run : Steps (request_vote noon blank ask).0 voted
unfolding handle
voted_run = next apply_pass here tt refl

-- The same candidate asks again.
asked_again : (request_vote noon voted ask).1.vote_granted ≡ true
unfolding request_vote request_vote_begin request_vote_end check_log_uptodate save_raft_state
    apply_log
asked_again = refl

one_vote_per_term_example : ask.candidate_id ≡ ask.candidate_id
one_vote_per_term_example =
    one_vote_per_term noon noon blank voted ask ask ask_granted voted_run asked_again refl
      (λ e. omega (arith, ap neg_part e))

abbrev yes_vote : RequestVoteReply
yes_vote = record { term = pos 1; vote_granted = true }

abbrev running : Raft
running = record blank { state = candidate }

pick_peers_round_example :
    let (targets, s) = pick_peers 2 blank in
    (length targets ≡ 2) × RisesWithout 0 3 0 targets × (s.cur_peer_id ≡ 0)
pick_peers_round_example = pick_peers_round blank (omega arith) (omega arith) refl

elected_iff_example :
    (s : Raft) × (vote_replies [] (start_election noon running) (yes_vote ∷ []) ≡ some s)
    × (((finish_election noon s).state ≡ leader) ↔ (3 < 2 * (1 + granted (yes_vote ∷ []))))
    × (length (yes_vote ∷ []) + 1 ≡ 3 → is_waiting s ≡ false)
elected_iff_example = elected_iff [] noon noon running (yes_vote ∷ []) refl (omega arith)

-- Candidate 1 again, in the next term.
abbrev ask_next : RequestVoteArgs
ask_next = record ask { term = pos 2 }

-- Node 0 while it checks the log for candidate 1.
abbrev asked : Raft
asked = record blank { cur_term = pos 1 }

abbrev not_yet : RequestVoteReply
not_yet = record { term = pos 0; vote_granted = false }

-- The time when its timer has run out.
abbrev evening : Timeval
evening = record { sec = pos 50000; usec = 0 }

abbrev yes_again : RequestVoteReply
yes_again = record { term = pos 2; vote_granted = true }
