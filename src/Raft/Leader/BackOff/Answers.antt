-- ===== src/Raft/Leader/BackOff/Answers.antt =====
-- What a node makes of a leader's message.
use projects_cpp.Prelude.{
  ℕ, zero, suc, ◌≡◌, ◌⊎◌, refl, ap, ◌∙◌, inl, inr, true, false, List, [], ◌∷◌, some, arith, length,
  drop, get_elem?-some, ltb, Bool-cases, All-drop,
}
use projects_cpp.Prelude.Int.{ℤ, pos, ◌≤ℤ◌, eqb_ℤ}
use projects_cpp.Raft.State.{Raft, LogEntry, AppendEntriesArgs, AppendEntriesReply, Timeval}
use projects_cpp.Raft.Codec.RoundTrip.{IsEncodable, get_cmd_and_term-encode}
use projects_cpp.Raft.Append.{
  append_entries, append_read, append_decoded, append_by_log, append_after, conflict_reply,
  initial_reply, accept_term, store_entries,
}
use projects_cpp.Raft.Leader.Replicate.{sent}

-- What is left when the entries have been compared: a message taken, or a node as it was.
abbrev pub IsDecided : Raft → Raft → AppendEntriesReply → Type 0
IsDecided r s answer = (answer.success ≡ true) ⊎ ((answer.success ≡ false) × (s ≡ r))

append_after-total :
    (n : ℕ) (recv : List LogEntry) (args : AppendEntriesArgs) (reply : AppendEntriesReply)
    (r : Raft)
    → reply.success ≡ false
    → (s : Raft) × (answer : AppendEntriesReply) × (append_after (pos n) recv args reply r
        ≡ some (s, answer))
      × IsDecided r s answer
unfolding append_after conflict_reply
append_after-total zero recv args reply r old = (_, _, refl, inl refl)
append_after-total (suc k) recv args reply r old = elim (Bool-cases (ltb (length r.logs) (suc k))) [
  | inl few ↦
      (r, record reply { conflict_index = pos (length r.logs) }, rw few refl, inr (old, refl))
  | inr fits ↦
      let (x, found) = get_elem?-some r.logs k (ground arith) in
      elim (Bool-cases (eqb_ℤ x.term args.prev_log_term)) [
        | inl same ↦ (
          store_entries (suc k) recv args.leader_commit r,
          record reply { success = true },
          rw (fits, found, same) refl,
          inl refl,
        )
        | inr other ↦ (
          r,
          conflict_reply (suc k) x.term r.logs reply,
          rw (fits, found, other) refl,
          inr (old, refl),
        )
      ]
]

append_by_log-total :
    (log : List LogEntry) (n : ℕ) (recv : List LogEntry) (args : AppendEntriesArgs)
    (reply : AppendEntriesReply) (r : Raft)
    → args.prev_log_index ≡ pos n
    → reply.success ≡ false
    → (s : Raft) × (answer : AppendEntriesReply) × (append_by_log log recv args reply r
        ≡ some (s, answer))
      × IsDecided r s answer
unfolding append_by_log
append_by_log-total [] n recv args reply r at old = (_, _, refl, inl refl)
append_by_log-total (x ∷ log) n recv args reply r at old =
    let (s, answer, e, decided) = append_after-total n recv args reply r old in
    (s, answer, ap (λ p. append_after p recv args reply r) at ∙ e, decided)

-- What a node makes of a leader's message: it takes it, or it refuses it in the leader's term with
-- its log as it was.
pub append_entries-total :
    (now : Timeval) (l f : Raft) (n : ℕ) (term : ℤ)
    → f.cur_term ≤ℤ l.cur_term
    → IsEncodable 59 l.logs
    → (f1 : Raft) × (reply : AppendEntriesReply) × (append_entries now f (sent l n term)
        ≡ some (f1, reply))
      × (append_decoded now f (sent l n term) (drop n l.logs) ≡ some (f1, reply))
      × IsDecided (accept_term now l.cur_term f) f1 reply
unfolding append_entries append_decoded
append_entries-total now l f n term low plain =
    let (s, answer, e, decided) =
      append_by_log-total f.logs n (drop n l.logs) (sent l n term) (initial_reply f)
        (accept_term now l.cur_term f) refl refl in
    let decoded : append_decoded now f (sent l n term) (drop n l.logs) ≡ some (s, answer) =
      ground (arith, e) in
    (
      s,
      answer,
      ap (append_read now f (sent l n term))
            (get_cmd_and_term-encode (drop n l.logs) (All-drop _ n l.logs plain))
          ∙ decoded,
      decoded,
      decided,
    )
