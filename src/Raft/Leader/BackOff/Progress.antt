-- ===== src/Raft/Leader/BackOff/Progress.antt =====
-- A refusal and what the leader makes of it.
use projects_cpp.Prelude.{
  ℕ, suc, ◌+◌, ◌≤◌, ◌≡◌, ◌≢◌, refl, sym, ap, ◌∙◌, subst, inl, inr, false, List, Option, some, arith,
  length, take, get_elem?, get_elem?-take, set, get_elem?-set_self, get_elem?-lt,
}
use mathlib.Core.Option.{some-injective}
use projects_cpp.Prelude.Int.{ℤ, pos, ◌≤ℤ◌, eqb_ℤ-ne, minus_one}
use projects_cpp.Raft.State.{Raft, LogEntry, AppendEntriesArgs, AppendEntriesReply, Timeval}
use projects_cpp.Raft.Append.{append_decoded}
use projects_cpp.Raft.Leader.{
  find_down, next_after_conflict, term_of, prev_term, next_of_search, append_reply,
}
use projects_cpp.Raft.Persist.{save_raft_state}
use projects_cpp.Raft.Leader.BackOff.{first_of_term-range, find_down-range}
use projects_cpp.Raft.Leader.BackOff.Refused.{
  Refused, short, conflict, append_decoded-Refused, append_decoded-term,
}

-- No entry has the term -1 that stands for "none" in a reply.
abbrev pub HasTerms : List LogEntry → Type 0
HasTerms logs = (k : ℕ) (e : LogEntry) → get_elem? logs k ≡ some e → e.term ≢ minus_one

-- The next index after a refusal: between 1 and the `prevLogIndex` that was refused.
abbrev pub Smaller : ℕ → Option ℤ → Type 0
Smaller n o = (m : ℕ) × (o ≡ some (pos m)) × (1 ≤ m) × (m ≤ n)

next_after_conflict-search :
    (logs : List LogEntry) (args : AppendEntriesArgs) (reply : AppendEntriesReply) (n : ℕ) (t : ℤ)
    → reply.conflict_term ≡ t
    → t ≢ minus_one
    → args.prev_log_index ≡ pos n
    → next_after_conflict logs args reply ≡ next_of_search reply.conflict_index (find_down t logs n)
unfolding next_after_conflict
next_after_conflict-search logs args reply n t e set at = ground (arith, eqb_ℤ-ne t minus_one set)

conflict-Smaller :
    (logs theirs : List LogEntry) (k j : ℕ) (t before index : ℤ)
    → suc k ≤ length logs
    → term_of (get_elem? logs k) ≡ some before
    → t ≢ before
    → index ≡ pos j
    → 1 ≤ j
    → j ≤ suc k
    → Smaller (suc k) (next_of_search index (find_down t logs (suc k)))
conflict-Smaller logs theirs k j t before index within ours other at low high =
    elim (find_down-range t logs (suc k) within) [
      | inl nowhere ↦ (j, rw nowhere (ap some at), low, high)
      | inr (i, e, below, same) ↦
          let ne : i ≢ k = λ q.
            other (some-injective _ _ (sym same ∙ ap (λ x. term_of (get_elem? logs x)) q ∙ ours)) in
          (i + 2, rw e (ground arith), omega arith, omega arith)
    ]

Refused-Smaller :
    (logs theirs : List LogEntry) (n : ℕ) (args : AppendEntriesArgs) (reply : AppendEntriesReply)
    → args.prev_log_index ≡ pos n
    → n ≤ length logs
    → prev_term (pos n) logs ≡ some args.prev_log_term
    → HasTerms theirs
    → Refused theirs n args reply
    → Smaller n (next_after_conflict logs args reply)
unfolding next_after_conflict
Refused-Smaller logs theirs n args reply at within ours terms (short unset size few) =
    (length theirs + 1, ground arith, omega arith, omega arith)
Refused-Smaller logs theirs n args reply at within ours terms (conflict k e is found other ct ci) =
    let (j, first, low, high) =
      first_of_term-range e.term 1 k (take n theirs) e
        (get_elem?-take n theirs k (omega arith) ∙ found) refl in
    rw (next_after_conflict-search logs args reply n e.term ct (terms k e found) at) (
      subst (λ m. Smaller m (next_of_search reply.conflict_index (find_down e.term logs m)))
        (sym is)
        (conflict-Smaller logs theirs k j e.term args.prev_log_term reply.conflict_index
          (omega arith) (subst (λ m. prev_term (pos m) logs ≡ some args.prev_log_term) is ours)
          other (ci ∙ first) low (omega arith)))

-- A refusal of no higher term sets the peer's next index, and the state is saved.
append_reply-backs_off :
    (l : Raft) (peer m : ℕ) (args : AppendEntriesArgs) (reply : AppendEntriesReply)
    → reply.term ≤ℤ l.cur_term
    → reply.success ≡ false
    → next_after_conflict l.logs args reply ≡ some (pos m)
    → append_reply l peer args reply
      ≡ some (save_raft_state (record l { next_index = set l.next_index peer (pos m) }))
unfolding append_reply
append_reply-backs_off l peer m args reply low lost e = ground arith

-- Handling a refusal sets the peer's next index to a number between 1 and the refused n.
pub refusal-sets_next :
    (now : Timeval) (l f f' : Raft) (peer n : ℕ) (args : AppendEntriesArgs) (recv : List LogEntry)
    (reply : AppendEntriesReply)
    → args.term ≡ l.cur_term
    → args.prev_log_index ≡ pos n
    → n ≤ length l.logs
    → prev_term (pos n) l.logs ≡ some args.prev_log_term
    → HasTerms f.logs
    → f.cur_term ≤ℤ args.term
    → append_decoded now f args recv ≡ some (f', reply)
    → reply.success ≡ false
    → (m : ℕ) × (append_reply l peer args reply
        ≡ some (save_raft_state (record l { next_index = set l.next_index peer (pos m) })))
      × (1 ≤ m)
      × (m ≤ n)
refusal-sets_next now l f f' peer n args recv reply mine at within ours terms term e lost =
    let (m, found, low, high) =
      Refused-Smaller l.logs f.logs n args reply at within ours terms
        (append_decoded-Refused now f f' args recv n reply at term e lost) in
    (
      m,
      append_reply-backs_off l peer m args reply
          (subst (λ z. z ≤ℤ l.cur_term) (sym (append_decoded-term now f f' args recv reply term e))
            (subst (λ z. f.cur_term ≤ℤ z) mine term))
          lost found,
      low,
      high,
    )

-- A leader whose next index for a peer is n + 1, for an entry n of its log or n = 0, has sent the
-- peer a message behind entry n in its present term, and a node of no higher term with no entry of
-- term -1 refuses it: handling the reply makes the peer's next index a number between 1 and n.
pub refusal_goes_back :
    (now : Timeval) (l f f' : Raft) (peer n : ℕ) (args : AppendEntriesArgs) (recv : List LogEntry)
    (reply : AppendEntriesReply)
    → args.term ≡ l.cur_term
    → get_elem? l.next_index peer ≡ some (pos (suc n))
    → args.prev_log_index ≡ pos n
    → n ≤ length l.logs
    → prev_term (pos n) l.logs ≡ some args.prev_log_term
    → HasTerms f.logs
    → f.cur_term ≤ℤ args.term
    → append_decoded now f args recv ≡ some (f', reply)
    → reply.success ≡ false
    → (l' : Raft) × (m : ℕ) × (append_reply l peer args reply ≡ some l')
      × (get_elem? l'.next_index peer ≡ some (pos m))
      × (1 ≤ m)
      × (m ≤ n)
unfolding save_raft_state
refusal_goes_back now l f f' peer n args recv reply mine next at within ours terms term e lost =
    let (m, handled, low, high) =
      refusal-sets_next now l f f' peer n args recv reply mine at within ours terms term e lost in
    (
      save_raft_state (record l { next_index = set l.next_index peer (pos m) }),
      m,
      handled,
      get_elem?-set_self l.next_index peer (pos m) (get_elem?-lt l.next_index peer next),
      low,
      high,
    )
