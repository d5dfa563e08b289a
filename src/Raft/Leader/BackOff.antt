-- ===== src/Raft/Leader/BackOff.antt =====
-- The two searches behind a refused message: the follower's for the first entry of the term in
-- conflict, and the leader's for its last entry of that term.
pub mod Refused
pub mod Progress
pub mod Answers
pub mod Rounds
use projects_cpp.Prelude.{
  ℕ, zero, suc, ◌+◌, ◌≤◌, ◌<◌, ◌≡◌, ◌≢◌, refl, sym, ap, ◌∙◌, ◌⊎◌, inl, inr, Bool, true, false, List,
  [], ◌∷◌, ◌++◌, Option, none, some, arith, length, take, get_elem?, ltb, Option-cases,
  get_elem?-some, Bool-cases,
}
use projects_cpp.Prelude.Int.{
  ℤ, pos, negsuc, pos_part, neg_part, ◌≤ℤ◌, ◌<ℤ◌, ltb_ℤ, eqb_ℤ, eqb_ℤ→eq, eqb_ℤ→ne, minus_one,
}
use projects_cpp.Raft.State.{Raft, LogEntry, AppendEntriesArgs, AppendEntriesReply, Timeval}
use projects_cpp.Raft.Append.{
  append_decoded, append_by_log, append_after, first_of_term, conflict_reply, initial_reply,
}
use projects_cpp.Raft.Leader.{find_down, next_after_conflict, term_of, search_term, next_of_search}

-- The first entry of a term among those from index `i` on, if one of them has it.
pub first_of_term-range :
    (t : ℤ) (i k : ℕ) (es : List LogEntry) (e : LogEntry)
    → get_elem? es k ≡ some e
    → e.term ≡ t
    → (j : ℕ) × (first_of_term t i es ≡ pos j) × (i ≤ j) × (j ≤ i + k)
unfolding first_of_term
first_of_term-range t i k [] e found same = absurd (ground arith)
first_of_term-range t i zero (x ∷ es) e found same = (i, ground arith, omega arith, omega arith)
first_of_term-range t i (suc k) (x ∷ es) e found same =
    let (j, at, low, high) = first_of_term-range t (i + 1) k es e found same in
    elim (Bool-cases (eqb_ℤ x.term t)) [
      | inl hit ↦ (i, rw hit, omega arith, omega arith)
      | inr miss ↦ (j, rw miss at, omega arith, omega arith)
    ]

find_down-hit :
    (t : ℤ) (logs : List LogEntry) (n : ℕ) (e : LogEntry)
    → get_elem? logs n ≡ some e
    → eqb_ℤ e.term t ≡ true
    → find_down t logs (suc n) ≡ some (pos (suc n))
unfolding find_down
find_down-hit t logs n e found hit = ground arith

find_down-miss :
    (t : ℤ) (logs : List LogEntry) (n : ℕ) (e : LogEntry)
    → get_elem? logs n ≡ some e
    → eqb_ℤ e.term t ≡ false
    → find_down t logs (suc n) ≡ find_down t logs n
unfolding find_down
find_down-miss t logs n e found miss = ground arith

-- The search from entry `n` down ends with -1 or with an entry of the term, not above `n`.
pub find_down-range :
    (t : ℤ) (logs : List LogEntry) (n : ℕ)
    → n ≤ length logs
    → (find_down t logs n ≡ some minus_one)
      ⊎ ((k : ℕ) × (find_down t logs n ≡ some (pos (suc k)))
          × (k < n)
          × (term_of (get_elem? logs k) ≡ some t))
unfolding find_down
find_down-range t logs zero h = inl refl
find_down-range t logs (suc n) h =
    let (e, found) = get_elem?-some logs n h in
    elim (Bool-cases (eqb_ℤ e.term t)) [
      | inl hit ↦ inr (
        n,
        find_down-hit t logs n e found hit,
        omega arith,
        ap term_of found ∙ ap some (eqb_ℤ→eq e.term t hit),
      )
      | inr miss ↦
          rw (find_down-miss t logs n e found miss)
            (weaken (find_down-range t logs n (omega arith)))
    ]
  where
    weaken :
        (find_down t logs n ≡ some minus_one)
          ⊎ ((k : ℕ) × (find_down t logs n ≡ some (pos (suc k)))
              × (k < n)
              × (term_of (get_elem? logs k) ≡ some t))
        → (find_down t logs n ≡ some minus_one)
          ⊎ ((k : ℕ) × (find_down t logs n ≡ some (pos (suc k)))
              × (k < suc n)
              × (term_of (get_elem? logs k) ≡ some t))
    weaken (inl p) = inl p
    weaken (inr (k, p, q, u)) = inr (k, p, omega arith, u)
