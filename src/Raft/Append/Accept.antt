-- ===== src/Raft/Append/Accept.antt =====
-- When `appendEntries` takes the entries of a message, and the log that it then has.
use projects_cpp.Prelude.{
  ℕ, zero, suc, ◌≡◌, ◌≢◌, refl, sym, ap, ◌∙◌, inl, inr, ◌↔◌, true, false, List, [], ◌∷◌, ◌++◌, some,
  arith, take, get_elem?, Bool-cases, Option-cases, subst, get_elem?-lt, take-nil,
}
use projects_cpp.Prelude.Int.{ℤ, pos, negsuc, ◌≤ℤ◌, ltb_ℤ, eqb_ℤ→eq}
use projects_cpp.Raft.State.{Raft, LogEntry, AppendEntriesArgs, AppendEntriesReply, Timeval}
use projects_cpp.Raft.Persist.{save_raft_state}
use projects_cpp.Raft.Append.{
  append_decoded, append_by_log, append_after, accept_term, store_entries, initial_reply,
  follow_commit, conflict_reply,
}

-- The log has the entry in front of the new ones, in the leader's term.
abbrev pub HasPrev : List LogEntry → ℤ → ℤ → Type 0
HasPrev logs (pos zero) term = Unit
HasPrev logs (pos (suc k)) term = (e : LogEntry) × (get_elem? logs k ≡ some e) × (e.term ≡ term)
HasPrev logs (negsuc n) term = ⊥

-- The number of entries that stay.
abbrev pub kept : ℤ → ℕ
kept (pos n) = n
kept (negsuc n) = 0

-- The handler's result for a message that is taken.
abbrev pub taken : Timeval → Raft → AppendEntriesArgs → List LogEntry → Raft
taken now r args recv =
    store_entries (kept args.prev_log_index) recv args.leader_commit (accept_term now args.term r)

pub logs-accept_term :
    (now : Timeval) (term : ℤ) (r : Raft) → (accept_term now term r).logs ≡ r.logs
unfolding accept_term save_raft_state
logs-accept_term now term r = ground arith

append_after-accepts :
    (prev : ℤ) (recv : List LogEntry) (args : AppendEntriesArgs) (reply : AppendEntriesReply)
    (r : Raft)
    → HasPrev r.logs prev args.prev_log_term
    → append_after prev recv args reply r
      ≡ some (store_entries (kept prev) recv args.leader_commit r, record reply { success = true })
unfolding append_after
append_after-accepts (negsuc n) recv args reply r h = absurd h
append_after-accepts (pos zero) recv args reply r h = refl
append_after-accepts (pos (suc k)) recv args reply r (e, found, same) =
    ground (arith, get_elem?-lt r.logs k found, same)

-- An empty log passes only with nothing in front of the new entries.
append_by_log-accepts :
    (log recv : List LogEntry) (args : AppendEntriesArgs) (reply : AppendEntriesReply) (r : Raft)
    → r.logs ≡ log
    → HasPrev log args.prev_log_index args.prev_log_term
    → append_by_log log recv args reply r
      ≡ some (
        store_entries (kept args.prev_log_index) recv args.leader_commit r,
        record reply { success = true },
      )
unfolding append_by_log
append_by_log-accepts (x ∷ log) recv args reply r e h =
    append_after-accepts args.prev_log_index recv args reply r (rw e h)
append_by_log-accepts [] recv args reply r e h =
    unfold store_entries in
    ap
      (λ l. some (
        follow_commit args.leader_commit (save_raft_state (record r { logs = l ++ recv })),
        record reply { success = true },
      ))
      (sym (ap (take (kept args.prev_log_index)) e ∙ take-nil (kept args.prev_log_index)))

-- A message of a term that is not lower, for which the log has the entry in front of the new ones,
-- is taken: the reply says so, and the log is the kept entries and the new ones.
pub append_decoded-accepts :
    (now : Timeval) (r : Raft) (args : AppendEntriesArgs) (recv : List LogEntry)
    → r.cur_term ≤ℤ args.term
    → HasPrev r.logs args.prev_log_index args.prev_log_term
    → append_decoded now r args recv
      ≡ some (taken now r args recv, record (initial_reply r) { success = true })
unfolding append_decoded
append_decoded-accepts now r args recv h prev = ground (
  arith,
  append_by_log-accepts r.logs recv args (initial_reply r) (accept_term now args.term r)
      (logs-accept_term now args.term r) prev,
)

-- What a message that is taken leaves.
pub taken_fields :
    (now : Timeval) (r : Raft) (args : AppendEntriesArgs) (recv : List LogEntry)
    → let s = taken now r args recv in
      (s.logs ≡ take (kept args.prev_log_index) r.logs ++ recv)
      × (s.cur_term ≡ args.term)
      × (s.persister.logs ≡ s.logs)
      × (s.persister.cur_term ≡ args.term)
unfolding store_entries save_raft_state accept_term
taken_fields now r args recv = ground arith

append_after-needs :
    (prev : ℤ) (recv : List LogEntry) (args : AppendEntriesArgs) (reply : AppendEntriesReply)
    (r s : Raft) (answer : AppendEntriesReply)
    → append_after prev recv args reply r ≡ some (s, answer)
    → reply.success ≡ false
    → answer.success ≡ true
    → HasPrev r.logs prev args.prev_log_term
unfolding append_after conflict_reply
append_after-needs (negsuc n) recv args reply r s answer e old new = ground arith
append_after-needs (pos zero) recv args reply r s answer e old new = tt
append_after-needs (pos (suc k)) recv args reply r s answer e old new =
    elim (Option-cases (get_elem? r.logs k)) [
      | inl q ↦ ground arith
      | inr (x, q) ↦ (x, q, ground (arith, eqb_ℤ→eq x.term args.prev_log_term))
    ]

append_by_log-needs :
    (log recv : List LogEntry) (args : AppendEntriesArgs) (reply : AppendEntriesReply) (r s : Raft)
    (answer : AppendEntriesReply)
    → log ≢ []
    → append_by_log log recv args reply r ≡ some (s, answer)
    → reply.success ≡ false
    → answer.success ≡ true
    → HasPrev r.logs args.prev_log_index args.prev_log_term
unfolding append_by_log
append_by_log-needs [] recv args reply r s answer full e old new = absurd (full refl)
append_by_log-needs (x ∷ log) recv args reply r s answer full e old new =
    append_after-needs args.prev_log_index recv args reply r s answer e old new

append_decoded-needs :
    (now : Timeval) (r s : Raft) (args : AppendEntriesArgs) (recv : List LogEntry)
    (reply : AppendEntriesReply)
    → r.logs ≢ []
    → append_decoded now r args recv ≡ some (s, reply)
    → reply.success ≡ true
    → (r.cur_term ≤ℤ args.term) × HasPrev r.logs args.prev_log_index args.prev_log_term
unfolding append_decoded
append_decoded-needs now r s args recv reply full e ok =
    elim (Bool-cases (ltb_ℤ args.term r.cur_term)) [
      | inl stale ↦ absurd (ground arith)
      | inr fresh ↦ (
        ground arith,
        subst (λ l. HasPrev l args.prev_log_index args.prev_log_term)
            (logs-accept_term now args.term r)
            (append_by_log-needs r.logs recv args (initial_reply r) (accept_term now args.term r) s
              reply full (rw fresh at e) refl ok),
      )
    ]

-- A node whose log is not empty takes the entries of a message exactly when the message's term is
-- not lower than its own and its log has the entry in front of the new ones.
pub accepts_iff :
    (now : Timeval) (r s : Raft) (args : AppendEntriesArgs) (recv : List LogEntry)
    (reply : AppendEntriesReply)
    → r.logs ≢ []
    → append_decoded now r args recv ≡ some (s, reply)
    → (reply.success ≡ true)
      ↔ ((r.cur_term ≤ℤ args.term) × HasPrev r.logs args.prev_log_index args.prev_log_term)
accepts_iff now r s args recv reply full e = (
  append_decoded-needs now r s args recv reply full e,
  λ h. ground (arith, append_decoded-accepts now r args recv h.0 h.1),
)
