-- ===== src/Raft/Leader/Commit/Quorum.antt =====
-- Which entries a leader commits: `tmpIndex[tmpIndex.size() / 2]` of the sorted match indices.
use projects_cpp.Prelude.{
  ℕ, ◌+◌, ◌/◌, ◌≤◌, ◌≡◌, refl, ap, ◌∙◌, ◌⊎◌, inl, inr, Bool, true, false, List, Option, none, some,
  arith, length, get_elem?, if◌then◌else◌, Bool-cases, subst,
}
use mathlib.Core.Option.{some-injective}
use projects_cpp.Prelude.Int.{ℤ, pos, ◌<ℤ◌, ltb_ℤ, eqb_ℤ, eqb_ℤ→eq, ◌+ℤ◌}
use projects_cpp.Raft.State.{Raft, LogEntry, AppendEntriesArgs, AppendEntriesReply}
use projects_cpp.Raft.Persist.{save_raft_state}
use projects_cpp.Raft.Codec.{get_cmd_and_term}
use projects_cpp.Raft.Leader.{
  sort, majority_index, term_at, advance_commit, commit_if, reply_success, matched, append_reply,
  and_save, back_off, next_after_conflict,
}
use projects_cpp.Raft.Leader.Commit.Sorted.{
  count_from, sort-IsRising, count_from-sort, length-sort, count_from-place,
}

-- The commit index stays at `c`, or it moves up to an entry of the present term that at least
-- `n - n / 2` of the `n` match indices reach.
abbrev pub CommitStep : ℤ → Raft → Type 0
CommitStep c s =
    (s.commit_index ≡ c)
    ⊎ ((c <ℤ s.commit_index)
        × (length s.match_index
            ≤ count_from s.commit_index s.match_index + length s.match_index / 2)
        × (term_at s.commit_index s.logs ≡ some s.cur_term))

majority_index-quorum :
    (matches : List ℤ) (i : ℤ)
    → majority_index matches ≡ some i
    → length matches ≤ count_from i matches + length matches / 2
unfolding majority_index
majority_index-quorum matches i e = omega (
  arith,
  count_from-place i (sort matches) (length matches / 2) (sort-IsRising matches) e,
  count_from-sort i matches,
  length-sort matches,
)

commit_if-CommitStep :
    (r s : Raft) (i : ℤ) (o : Option ℤ)
    → r.commit_index <ℤ i
    → length r.match_index ≤ count_from i r.match_index + length r.match_index / 2
    → term_at i r.logs ≡ o
    → commit_if r i o ≡ some s
    → CommitStep r.commit_index s
commit_if-CommitStep r s i none lt many at e = cc
commit_if-CommitStep r s i (some t) lt many at e = elim (Bool-cases (eqb_ℤ t r.cur_term)) [
  | inl same ↦
      subst (CommitStep r.commit_index) (some-injective _ _ (rw same at e))
        (inr (lt, many, at ∙ ap some (eqb_ℤ→eq t r.cur_term same)))
  | inr other ↦ subst (CommitStep r.commit_index) (some-injective _ _ (rw other at e)) (inl refl)
]

advance_commit-CommitStep :
    (r s : Raft) (o : Option ℤ)
    → majority_index r.match_index ≡ o
    → advance_commit r o ≡ some s
    → CommitStep r.commit_index s
advance_commit-CommitStep r s none at e = cc
advance_commit-CommitStep r s (some i) at e = elim (Bool-cases (ltb_ℤ r.commit_index i)) [
  | inl lt ↦
      commit_if-CommitStep r s i (term_at i r.logs) (ground arith)
        (majority_index-quorum r.match_index i at) refl (rw lt at e)
  | inr low ↦ subst (CommitStep r.commit_index) (some-injective _ _ (rw low at e)) (inl refl)
]

reply_success-CommitStep :
    (r s : Raft) (peer : ℕ) (next : Option ℤ) (sent : Option (List LogEntry))
    → reply_success r peer next sent ≡ some s
    → CommitStep r.commit_index s
unfolding reply_success
reply_success-CommitStep r s peer none sent e = cc
reply_success-CommitStep r s peer (some n) none e = cc
reply_success-CommitStep r s peer (some n) (some sent) e =
    advance_commit-CommitStep (matched r peer (n +ℤ pos (length sent))) s _ refl e

and_save-CommitStep :
    (c : ℤ) (o : Option Raft)
    → ((s : Raft) → o ≡ some s → CommitStep c s)
    → (s : Raft) → and_save o ≡ some s
    → CommitStep c s
and_save-CommitStep c none h s e = cc
and_save-CommitStep c (some m) h s e =
    subst (CommitStep c) (some-injective _ _ e) (unfold save_raft_state in h m refl)

back_off-CommitStep :
    (r : Raft) (peer : ℕ) (o : Option ℤ) (s : Raft)
    → back_off r peer o ≡ some s
    → CommitStep r.commit_index s
back_off-CommitStep r peer none s e = cc
back_off-CommitStep r peer (some n) s e =
    subst (CommitStep r.commit_index) (some-injective _ _ e) (inl refl)

-- What a leader does with a reply to `sendAppendEntries` leaves its commit index alone, or raises it
-- to an entry of its present term that at least `n - n / 2` of its `n` match indices reach.
pub append_reply_commits :
    (r s : Raft) (peer : ℕ) (args : AppendEntriesArgs) (reply : AppendEntriesReply)
    → append_reply r peer args reply ≡ some s
    → CommitStep r.commit_index s
unfolding append_reply
append_reply_commits r s peer args reply e = elim (Bool-cases (ltb_ℤ r.cur_term reply.term)) [
  | inl higher ↦
      subst (CommitStep r.commit_index) (some-injective _ _ (rw higher at e))
        (unfold save_raft_state in inl refl)
  | inr low ↦ answered reply.success refl (rw low at e)
]
  where
    answered :
        (ok : Bool)
        → reply.success ≡ ok
        → (if reply.success
            then and_save (
                reply_success r peer
                  (get_elem? r.next_index peer)
                  (get_cmd_and_term args.send_logs))
            else and_save (back_off r peer (next_after_conflict r.logs args reply)))
          ≡ some s
        → CommitStep r.commit_index s
    answered true won q =
        and_save-CommitStep r.commit_index _ (λ m. reply_success-CommitStep r m peer _ _) s
          (rw won at q)
    answered false lost q =
        and_save-CommitStep r.commit_index _ (back_off-CommitStep r peer _) s (rw lost at q)
