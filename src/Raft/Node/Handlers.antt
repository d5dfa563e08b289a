-- ===== src/Raft/Node/Handlers.antt =====
-- The term and the vote behind each handler.
use projects_cpp.Prelude.{
  ℕ, zero, suc, ◌≡◌, refl, inl, inr, false, List, [], ◌∷◌, length, get_elem?, Option, none, some,
  arith, Bool-cases, subst,
}
use mathlib.Core.Option.{some-injective}
use projects_cpp.Prelude.Int.{ℤ, pos, negsuc, ◌≤ℤ◌, ◌+ℤ◌, ltb_ℤ, eqb_ℤ→eq, minus_one}
use projects_cpp.Prelude.Text.{Text}
use projects_cpp.Raft.State.{
  Raft, LogEntry, RequestVoteArgs, RequestVoteReply, Timeval, AppendEntriesArgs, AppendEntriesReply,
  Operation, set_broadcast_time,
}
use projects_cpp.Raft.Codec.{get_cmd_and_term}
use projects_cpp.Raft.Persist.{save_raft_state}
use projects_cpp.Raft.Vote.{request_vote, request_vote_begin, request_vote_end}
use projects_cpp.Raft.Election.{
  start_election, election_tick, finish_election, become_leader, pick_peer, vote_reply,
}
use projects_cpp.Raft.Append.{
  append_entries, append_decoded, append_by_log, append_after, accept_term, store_entries,
  append_read, initial_reply,
}
use projects_cpp.Raft.Leader.{
  start, process_entries, append_reply, reply_success, advance_commit, matched, and_save, back_off,
  next_after_conflict, apply_log, kill,
}
use projects_cpp.Raft.Node.{
  Event, handle, state_of, vote_request, append_request, election_pass, election_end, peer_picked,
  vote_result, heartbeat_pass, append_result, client_call, apply_pass, killed, IsOrdinary,
}
use projects_cpp.Raft.Node.Advance.{Advance, Advance-trans, lt_succ, raise, stay}

request_vote-Advance :
    (now : Timeval) (r : Raft) (args : RequestVoteArgs) → Advance r (request_vote now r args).0
unfolding request_vote request_vote_begin request_vote_end save_raft_state
request_vote-Advance now r args =
    ground (arith, eqb_ℤ→eq r.voted_for minus_one, eqb_ℤ→eq r.voted_for args.candidate_id)

election_tick-Advance :
    (now : Timeval) (time_out : ℕ) (r : Raft) → Advance r (election_tick now time_out r).0
unfolding election_tick start_election save_raft_state
election_tick-Advance now time_out r = ground (arith, lt_succ r.cur_term)

finish_election-Advance : (now : Timeval) (r : Raft) → Advance r (finish_election now r)
unfolding finish_election become_leader set_broadcast_time
finish_election-Advance now r = ground arith

pick_peer-Advance : (r : Raft) → Advance r (pick_peer r).1
unfolding pick_peer
pick_peer-Advance r = stay refl refl

process_entries-Advance : (now : Timeval) (r : Raft) → Advance r (process_entries now r).0
unfolding process_entries
process_entries-Advance now r = ground arith

-- The term and the vote of two states are the same.
abbrev pub SameVote : Raft → Raft → Type 0
SameVote r s = (s.cur_term ≡ r.cur_term) × (s.voted_for ≡ r.voted_for)

append_after-SameVote :
    (prev : ℤ) (recv : List LogEntry) (args : AppendEntriesArgs) (reply : AppendEntriesReply)
    (r s : Raft) (answer : AppendEntriesReply)
    → append_after prev recv args reply r ≡ some (s, answer)
    → SameVote r s
unfolding append_after store_entries save_raft_state
append_after-SameVote (negsuc n) recv args reply r s answer e = ground arith
append_after-SameVote (pos zero) recv args reply r s answer e = ground arith
append_after-SameVote (pos (suc k)) recv args reply r s answer e = ground arith

append_by_log-SameVote :
    (log recv : List LogEntry) (args : AppendEntriesArgs) (reply : AppendEntriesReply) (r s : Raft)
    (answer : AppendEntriesReply)
    → append_by_log log recv args reply r ≡ some (s, answer)
    → SameVote r s
unfolding append_by_log save_raft_state
append_by_log-SameVote [] recv args reply r s answer e = ground arith
append_by_log-SameVote (x ∷ log) recv args reply r s answer e =
    append_after-SameVote args.prev_log_index recv args reply r s answer e

accept_term-Advance :
    (now : Timeval) (term : ℤ) (r : Raft)
    → ltb_ℤ term r.cur_term ≡ false
    → Advance r (accept_term now term r)
unfolding accept_term save_raft_state
accept_term-Advance now term r h = ground arith

append_decoded-Advance :
    (now : Timeval) (r s : Raft) (args : AppendEntriesArgs) (recv : List LogEntry)
    (answer : AppendEntriesReply)
    → append_decoded now r args recv ≡ some (s, answer)
    → Advance r s
unfolding append_decoded
append_decoded-Advance now r s args recv answer e = elim (Bool-cases (ltb_ℤ args.term r.cur_term)) [
  | inl stale ↦ stay (ground arith) (ground arith)
  | inr fresh ↦
      let same =
        append_by_log-SameVote r.logs recv args (initial_reply r) (accept_term now args.term r) s
          answer (rw fresh at e) in
      Advance-trans (accept_term-Advance now args.term r fresh) (stay same.0 same.1)
]

-- `Advance` to the state that a handler returns, if it returns one.
abbrev AdvanceTo : Raft → Option Raft → Type 0
AdvanceTo r o = (s : Raft) → o ≡ some s → Advance r s

state_of-Advance {ℓ} :
    {A : Type ℓ} (r : Raft) (o : Option (Raft × A))
    → ((s : Raft) (a : A) → o ≡ some (s, a) → Advance r s)
    → AdvanceTo r (state_of o)
state_of-Advance r none h s e = cc
state_of-Advance r (some (m, a)) h s e = subst (Advance r) (some-injective _ _ e) (h m a refl)

append_read-Advance :
    (now : Timeval) (r : Raft) (args : AppendEntriesArgs) (o : Option (List LogEntry))
    → AdvanceTo r (state_of (append_read now r args o))
append_read-Advance now r args none = λ s e. cc
append_read-Advance now r args (some recv) =
    state_of-Advance r (append_decoded now r args recv)
      λ s answer e. append_decoded-Advance now r s args recv answer e

advance_commit-SameVote : (r s : Raft) (o : Option ℤ) → advance_commit r o ≡ some s → SameVote r s
advance_commit-SameVote r s none e = cc
advance_commit-SameVote r s (some (pos zero)) e = ground arith
advance_commit-SameVote r s (some (pos (suc k))) e = ground arith
advance_commit-SameVote r s (some (negsuc n)) e = ground arith

reply_success-SameVote :
    (r s : Raft) (peer : ℕ) (next : Option ℤ) (sent : Option (List LogEntry))
    → reply_success r peer next sent ≡ some s
    → SameVote r s
unfolding reply_success
reply_success-SameVote r s peer none sent e = cc
reply_success-SameVote r s peer (some n) none e = cc
reply_success-SameVote r s peer (some n) (some sent) e =
    advance_commit-SameVote (matched r peer (n +ℤ pos (length sent))) s _ e

and_save-SameVote :
    (r : Raft) (o : Option Raft)
    → ((s : Raft) → o ≡ some s → SameVote r s)
    → (s : Raft) → and_save o ≡ some s
    → SameVote r s
unfolding save_raft_state
and_save-SameVote r none h s e = cc
and_save-SameVote r (some m) h s e = ground (arith, h m refl)

back_off-SameVote :
    (r : Raft) (peer : ℕ) (o : Option ℤ) (s : Raft) → back_off r peer o ≡ some s → SameVote r s
back_off-SameVote r peer none s e = cc
back_off-SameVote r peer (some n) s e = ground arith

append_reply-Advance :
    (r : Raft) (peer : ℕ) (args : AppendEntriesArgs) (reply : AppendEntriesReply)
    → AdvanceTo r (append_reply r peer args reply)
unfolding append_reply save_raft_state
append_reply-Advance r peer args reply s e = elim (Bool-cases (ltb_ℤ r.cur_term reply.term)) [
  | inl higher ↦ raise (ground arith)
  | inr _ ↦ elim (Bool-cases reply.success) [
    | inl won ↦ ground (arith, taken s)
    | inr lost ↦ ground (arith, refused s)
  ]
]
  where
    taken :
        (s : Raft)
        → and_save
            (reply_success r peer (get_elem? r.next_index peer) (get_cmd_and_term args.send_logs))
          ≡ some s
        → SameVote r s
    taken = and_save-SameVote r _ λ m. reply_success-SameVote r m peer _ _

    refused :
        (s : Raft)
        → and_save (back_off r peer (next_after_conflict r.logs args reply)) ≡ some s
        → SameVote r s
    refused = and_save-SameVote r _ (back_off-SameVote r peer _)

vote_reply-Advance :
    (behind : Text) (r : Raft) (reply : RequestVoteReply)
    → reply.term ≤ℤ r.cur_term
    → AdvanceTo r (vote_reply behind r reply)
unfolding vote_reply
vote_reply-Advance behind r reply h s e = ground arith

start-Advance : (r : Raft) (op : Operation) → Advance r (start r op).0
unfolding start
start-Advance r op = ground arith

exactly : {r s t : Raft} → Advance r t → some t ≡ some s → Advance r s
exactly {r} a e = subst (Advance r) (some-injective _ _ e) a

-- Every ordinary event keeps the term from falling and the vote of a term from changing.
pub handle-Advance : (e : Event) (r : Raft) → IsOrdinary e r → AdvanceTo r (handle e r)
unfolding handle append_entries apply_log kill
handle-Advance (vote_request now args) r o s q = exactly (request_vote-Advance now r args) q
handle-Advance (append_request now args) r o s q =
    append_read-Advance now r args (get_cmd_and_term args.send_logs) s q
handle-Advance (election_pass now time_out) r o s q =
    exactly (election_tick-Advance now time_out r) q
handle-Advance (election_end now) r o s q = exactly (finish_election-Advance now r) q
handle-Advance peer_picked r o s q = exactly (pick_peer-Advance r) q
handle-Advance (vote_result behind reply) r o s q = vote_reply-Advance behind r reply o s q
handle-Advance (heartbeat_pass now) r o s q = exactly (process_entries-Advance now r) q
handle-Advance (append_result peer args reply) r o s q = append_reply-Advance r peer args reply s q
handle-Advance (client_call op) r o s q = exactly (start-Advance r op) q
handle-Advance apply_pass r o s q = exactly (stay refl refl) q
handle-Advance killed r o s q = exactly (stay refl refl) q
