-- ===== src/Raft/Tests/Logs.antt =====
-- Replication on the nodes of `Tests`.
use projects_cpp.Prelude.{
  ℕ, zero, suc, ◌≤◌, ◌≡◌, refl, ◌↔◌, [], ◌∷◌, true, false, some, arith, length, set, get_elem?,
}
use projects_cpp.Prelude.Int.{pos, minus_one, ◌≤ℤ◌, ◌<ℤ◌, ◌+ℤ◌}
use projects_cpp.Raft.State.{Raft, AppendEntriesArgs, AppendEntriesReply}
use projects_cpp.Raft.Tests.{noon, blank, behind, ahead, heartbeat, put_a, put_b}
use projects_cpp.Raft.Codec.{encode, get_cmd_and_term, read_entries, split_loop}
use projects_cpp.Raft.Codec.RoundTrip.{get_cmd_and_term-encode}
use projects_cpp.Raft.Persist.{save_raft_state}
use projects_cpp.Raft.Append.{
  append_entries, append_decoded, append_by_log, append_after, initial_reply, accept_term,
  follow_commit,
}
use projects_cpp.Raft.Append.Accept.{HasPrev, accepts_iff, taken, append_decoded-accepts}
use projects_cpp.Raft.Append.Gaps.{commit_index_follows, late_message_cuts, refused_erases_vote}
use projects_cpp.Raft.Leader.{
  append_args, append_reply, reply_success, majority_index, sort, insert_sorted,
}
use projects_cpp.Raft.Leader.Replicate.{replicate, sent}
use projects_cpp.Raft.Leader.BackOff.Progress.{refusal_goes_back, HasTerms}
use projects_cpp.Raft.Leader.BackOff.Rounds.{TakesWithin, back_off_ends}
use projects_cpp.Raft.Leader.Commit.Quorum.{CommitStep, append_reply_commits}
use projects_cpp.Raft.Leader.Commit.Phantom.{empty_follower_matched}

get_cmd_and_term-encode_example :
    get_cmd_and_term (encode 59 (put_a ∷ put_b ∷ [])) ≡ some (put_a ∷ put_b ∷ [])
get_cmd_and_term-encode_example = get_cmd_and_term-encode (put_a ∷ put_b ∷ []) (omega arith)

replicate_example :
    (args : AppendEntriesArgs) × (f : Raft) × (reply : AppendEntriesReply) × (append_args ahead 1
      ≡ some args)
    × (append_entries noon behind args ≡ some (f, reply))
    × (reply.success ≡ true)
    × (f.logs ≡ ahead.logs)
    × (f.cur_term ≡ ahead.cur_term)
replicate_example =
    replicate noon ahead behind 1 1 refl (omega arith) (omega arith) refl (omega arith)

-- The heartbeat at the node that has the entry in front of it.
behind_takes :
    append_decoded noon behind heartbeat []
    ≡ some (taken noon behind heartbeat [], record (initial_reply behind) { success = true })
behind_takes = append_decoded-accepts noon behind heartbeat [] (omega arith) (put_a, refl, refl)

accepts_iff_example : (true ≡ true) ↔ (
    (behind.cur_term ≤ℤ heartbeat.term)
    × HasPrev behind.logs heartbeat.prev_log_index heartbeat.prev_log_term)
accepts_iff_example = accepts_iff noon behind _ heartbeat [] _ (λ e. cc) behind_takes

commit_index_follows_example :
    (s : Raft) × (reply : AppendEntriesReply) × (append_decoded noon behind heartbeat []
      ≡ some (s, reply))
    × (behind.commit_index ≤ℤ s.commit_index)
    × (s.commit_index ≤ℤ pos (length s.logs))
commit_index_follows_example =
    commit_index_follows noon behind heartbeat [] (omega arith) (put_a, refl, refl) (omega arith)

-- Both entries are there and committed.
abbrev committed : Raft
committed = record behind { logs = put_a ∷ put_b ∷ []; commit_index = pos 2 }

late_message_cuts_example :
    (s : Raft) × (reply : AppendEntriesReply) × (append_decoded noon committed heartbeat []
      ≡ some (s, reply))
    × (reply.success ≡ true)
    × (pos (length s.logs) <ℤ committed.commit_index)
late_message_cuts_example =
    late_message_cuts noon committed heartbeat [] (omega arith) (put_a, refl, refl) (omega arith)

-- A message behind entry 3, which the node does not have.
abbrev too_far : AppendEntriesArgs
too_far = record heartbeat { prev_log_index = pos 3 }

refused_erases_vote_example :
    (s : Raft) × (reply : AppendEntriesReply) × (append_decoded noon behind too_far []
      ≡ some (s, reply))
    × (reply.success ≡ false)
    × (s.cur_term ≡ too_far.term)
    × (s.persister
        ≡ record { logs = behind.logs; cur_term = behind.cur_term; voted_for = minus_one })
    × (s.file ≡ (save_raft_state (record behind { voted_for = minus_one })).file)
refused_erases_vote_example =
    refused_erases_vote noon behind too_far [] 3 (omega arith) (λ e. cc) refl (omega arith)

-- A message behind entry 2, which the node does not have.
abbrev one_too_far : AppendEntriesArgs
one_too_far = record heartbeat { prev_log_index = pos 2; prev_log_term = pos 2 }

abbrev refusal : AppendEntriesReply
refusal = record (initial_reply behind) { conflict_index = pos 1 }

behind_refuses :
    append_decoded noon behind one_too_far [] ≡ some (accept_term noon (pos 2) behind, refusal)
unfolding append_decoded append_by_log append_after accept_term save_raft_state
behind_refuses = refl

behind-HasTerms : HasTerms behind.logs
behind-HasTerms zero e found = λ q. ground arith
behind-HasTerms (suc k) e found = λ q. cc

-- The leader of term 2 just after its election.
abbrev elected : Raft
elected = record ahead { next_index = pos 3 ∷ pos 3 ∷ pos 3 ∷ [] }

refusal_goes_back_example :
    (l' : Raft) × (m : ℕ) × (append_reply elected 1 one_too_far refusal ≡ some l')
    × (get_elem? l'.next_index 1 ≡ some (pos m))
    × (1 ≤ m)
    × (m ≤ 2)
refusal_goes_back_example =
    refusal_goes_back noon elected behind _ 1 2 one_too_far [] refusal refl refl refl (omega arith)
      refl behind-HasTerms (omega arith) behind_refuses refl

-- The leader of two entries and the follower of the first, from next index 3 on.
back_off_ends_example : TakesWithin (λ i. noon) 1 0 2 elected behind
back_off_ends_example =
    back_off_ends (λ i. noon) 1 0 2 elected behind refl (omega arith) behind-HasTerms (omega arith)
      (omega arith)

-- The leader when follower 2 has both entries.
abbrev half_way : Raft
half_way = record ahead {
  next_index = pos 3 ∷ pos 3 ∷ pos 3 ∷ [];
  match_index = pos 0 ∷ pos 0 ∷ pos 2 ∷ [];
}

abbrev at_end : AppendEntriesArgs
at_end = record heartbeat { prev_log_index = pos 2; prev_log_term = pos 2 }

abbrev success : AppendEntriesReply
success = record {
  term = pos 2;
  success = true;
  conflict_term = minus_one;
  conflict_index = minus_one;
}

abbrev both_have : Raft
both_have =
    save_raft_state
      (record half_way { match_index = pos 0 ∷ pos 2 ∷ pos 2 ∷ []; commit_index = pos 2 })

commits : append_reply half_way 1 at_end success ≡ some both_have
unfolding append_reply reply_success get_cmd_and_term read_entries split_loop ◌+ℤ◌ majority_index
    sort insert_sorted
commits = refl

append_reply_commits_example : CommitStep (pos 0) both_have
append_reply_commits_example = append_reply_commits half_way both_have 1 at_end success commits

abbrev first_message : AppendEntriesArgs
first_message = sent elected 2 (pos 2)

abbrev empty_answer : AppendEntriesReply
empty_answer = record (initial_reply blank) { success = true }

abbrev still_empty : Raft
still_empty =
    follow_commit (pos 0) (save_raft_state (record (accept_term noon (pos 2) blank) { logs = [] }))

abbrev counted : Raft
counted = save_raft_state (record elected { match_index = pos 0 ∷ pos 2 ∷ pos 0 ∷ [] })

message_made : append_args elected 1 ≡ some first_message
unfolding append_args
message_made = refl

message_taken : append_entries noon blank first_message ≡ some (still_empty, empty_answer)
unfolding append_entries append_decoded append_by_log get_cmd_and_term read_entries split_loop
    encode save_raft_state accept_term
message_taken = refl

answer_counted : append_reply elected 1 first_message empty_answer ≡ some counted
unfolding append_reply reply_success get_cmd_and_term read_entries split_loop encode ◌+ℤ◌
    majority_index sort insert_sorted
answer_counted = refl

empty_follower_matched_example :
    (empty_answer.success ≡ true)
    × (still_empty.logs ≡ [])
    × (counted.match_index ≡ set elected.match_index 1 (pos 2))
empty_follower_matched_example =
    empty_follower_matched noon elected blank still_empty counted 1 first_message empty_answer refl
      refl (omega arith) message_made message_taken answer_counted
