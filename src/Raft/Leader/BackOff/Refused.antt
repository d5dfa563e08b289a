-- ===== src/Raft/Leader/BackOff/Refused.antt =====
-- What a refusal by `appendEntries` tells the leader.
use projects_cpp.Prelude.{
  ℕ, zero, suc, ◌<◌, ◌≡◌, ◌≢◌, refl, subst, inl, inr, false, List, [], ◌∷◌, some, arith, length,
  take, get_elem?, ltb, Option-cases, Bool-cases,
}
use projects_cpp.Prelude.Int.{ℤ, pos, negsuc, ◌≤ℤ◌, eqb_ℤ→ne, minus_one}
use projects_cpp.Raft.State.{Raft, LogEntry, AppendEntriesArgs, AppendEntriesReply, Timeval}
use projects_cpp.Raft.Append.{
  append_decoded, append_by_log, append_after, first_of_term, conflict_reply, initial_reply,
  accept_term,
}
use projects_cpp.Raft.Append.Accept.{logs-accept_term}

-- What a refusal for `prevLogIndex` n tells: the log is too short, or its entry n has another term.
pub data Refused (logs : List LogEntry) (n : ℕ) (args : AppendEntriesArgs)
    (reply : AppendEntriesReply) : Type 0 where
  short :
      reply.conflict_term ≡ minus_one
      → reply.conflict_index ≡ pos (length logs)
      → length logs < n
      → Refused logs n args reply
  conflict :
      (k : ℕ) (e : LogEntry)
      → n ≡ suc k
      → get_elem? logs k ≡ some e
      → e.term ≢ args.prev_log_term
      → reply.conflict_term ≡ e.term
      → reply.conflict_index ≡ first_of_term e.term 1 (take n logs)
      → Refused logs n args reply

append_after-Refused :
    (n : ℕ) (recv : List LogEntry) (args : AppendEntriesArgs) (reply : AppendEntriesReply)
    (r s : Raft) (answer : AppendEntriesReply)
    → append_after (pos n) recv args reply r ≡ some (s, answer)
    → reply.conflict_term ≡ minus_one
    → answer.success ≡ false
    → Refused r.logs n args answer
unfolding append_after conflict_reply
append_after-Refused zero recv args reply r s answer e old lost = absurd (ground arith)
append_after-Refused (suc k) recv args reply r s answer e old lost =
    elim (Bool-cases (ltb (length r.logs) (suc k))) [
      | inl few ↦ short (ground arith) (ground arith) (ground arith)
      | inr fits ↦ elim (Option-cases (get_elem? r.logs k)) [
        | inl missing ↦ absurd (ground arith)
        | inr (x, found) ↦
            conflict k x refl found (eqb_ℤ→ne x.term args.prev_log_term (ground arith))
              (ground arith) (ground arith)
      ]
    ]

append_by_log-Refused :
    (log : List LogEntry) (n : ℕ) (recv : List LogEntry) (args : AppendEntriesArgs)
    (reply : AppendEntriesReply) (r s : Raft) (answer : AppendEntriesReply)
    → args.prev_log_index ≡ pos n
    → append_by_log log recv args reply r ≡ some (s, answer)
    → reply.conflict_term ≡ minus_one
    → answer.success ≡ false
    → Refused r.logs n args answer
unfolding append_by_log
append_by_log-Refused [] n recv args reply r s answer at e old lost = absurd (ground arith)
append_by_log-Refused (x ∷ log) n recv args reply r s answer at e old lost =
    append_after-Refused n recv args reply r s answer
      (subst (λ p. append_after p recv args reply r ≡ some (s, answer)) at e) old lost

pub append_decoded-Refused :
    (now : Timeval) (r s : Raft) (args : AppendEntriesArgs) (recv : List LogEntry) (n : ℕ)
    (reply : AppendEntriesReply)
    → args.prev_log_index ≡ pos n
    → r.cur_term ≤ℤ args.term
    → append_decoded now r args recv ≡ some (s, reply)
    → reply.success ≡ false
    → Refused r.logs n args reply
unfolding append_decoded
append_decoded-Refused now r s args recv n reply at term e lost =
    subst (λ l. Refused l n args reply) (logs-accept_term now args.term r)
      (append_by_log-Refused r.logs n recv args (initial_reply r) (accept_term now args.term r) s
        reply at (ground arith) refl lost)

append_after-term :
    (prev : ℤ) (recv : List LogEntry) (args : AppendEntriesArgs) (reply : AppendEntriesReply)
    (r s : Raft) (answer : AppendEntriesReply)
    → append_after prev recv args reply r ≡ some (s, answer)
    → answer.term ≡ reply.term
unfolding append_after conflict_reply
append_after-term (negsuc n) recv args reply r s answer e = ground arith
append_after-term (pos zero) recv args reply r s answer e = ground arith
append_after-term (pos (suc k)) recv args reply r s answer e =
    elim (Option-cases (get_elem? r.logs k)) [
      | inl missing ↦ ground arith
      | inr (x, found) ↦ ground arith
    ]

append_by_log-term :
    (log recv : List LogEntry) (args : AppendEntriesArgs) (reply : AppendEntriesReply) (r s : Raft)
    (answer : AppendEntriesReply)
    → append_by_log log recv args reply r ≡ some (s, answer)
    → answer.term ≡ reply.term
unfolding append_by_log
append_by_log-term [] recv args reply r s answer e = ground arith
append_by_log-term (x ∷ log) recv args reply r s answer e =
    append_after-term args.prev_log_index recv args reply r s answer e

-- The reply carries the term that the node had before.
pub append_decoded-term :
    (now : Timeval) (r s : Raft) (args : AppendEntriesArgs) (recv : List LogEntry)
    (reply : AppendEntriesReply)
    → r.cur_term ≤ℤ args.term
    → append_decoded now r args recv ≡ some (s, reply)
    → reply.term ≡ r.cur_term
unfolding append_decoded
append_decoded-term now r s args recv reply term e =
    append_by_log-term r.logs recv args (initial_reply r) (accept_term now args.term r) s reply
      (ground arith)
