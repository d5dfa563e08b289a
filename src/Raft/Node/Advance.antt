-- ===== src/Raft/Node/Advance.antt =====
-- The relation from a state of a node to a later one, by the term and the vote.
use projects_cpp.Prelude.{zero, suc, ◌≡◌, refl, sym, ◌∙◌, ap, ◌⊎◌, inl, inr, arith}
use projects_cpp.Prelude.Int.{
  ℤ, pos, negsuc, pos_part, neg_part, ◌≤ℤ◌, ◌<ℤ◌, eq_of_parts, succ_ℤ, minus_one,
}
use projects_cpp.Raft.State.{Raft}

-- From `r` to `s` the term does not fall; where it stays, a vote that was given stays.
pub record Advance (r s : Raft) : Type 0 where
  pub term_le : r.cur_term ≤ℤ s.cur_term
  pub vote_kept : r.cur_term ≡ s.cur_term → (r.voted_for ≡ minus_one) ⊎ (s.voted_for ≡ r.voted_for)

pub Advance-refl : (r : Raft) → Advance r r
Advance-refl r = record { term_le = omega arith; vote_kept = λ e. inr refl }

pub Advance-trans : {r s t : Raft} → Advance r s → Advance s t → Advance r t
Advance-trans {r} {s} {t} a b = record {
  term_le = omega (arith, a.term_le, b.term_le);
  vote_kept = λ e. vote (a.vote_kept (same e)) (b.vote_kept (sym (same e) ∙ e));
}
  where
    same : r.cur_term ≡ t.cur_term → r.cur_term ≡ s.cur_term
    same e =
        eq_of_parts r.cur_term s.cur_term
          (omega (arith, a.term_le, b.term_le, ap pos_part e, ap neg_part e))

    vote :
        (r.voted_for ≡ minus_one) ⊎ (s.voted_for ≡ r.voted_for)
        → (s.voted_for ≡ minus_one) ⊎ (t.voted_for ≡ s.voted_for)
        → (r.voted_for ≡ minus_one) ⊎ (t.voted_for ≡ r.voted_for)
    vote (inl p) q = inl p
    vote (inr p) (inl q) = inl (sym p ∙ q)
    vote (inr p) (inr q) = inr (q ∙ p)

pub lt_succ : (z : ℤ) → z <ℤ succ_ℤ z
lt_succ (pos n) = omega arith
lt_succ (negsuc zero) = omega arith
lt_succ (negsuc (suc n)) = omega arith

-- A step into a higher term.
pub raise : {r s : Raft} → r.cur_term <ℤ s.cur_term → Advance r s
raise {r} {s} h = record {
  term_le = omega arith;
  vote_kept = λ e. absurd (omega (arith, h, ap pos_part e, ap neg_part e));
}

-- A step that leaves the term and the vote alone.
pub stay : {r s : Raft} → s.cur_term ≡ r.cur_term → s.voted_for ≡ r.voted_for → Advance r s
stay {r} {s} e v = record { term_le = rw e (omega arith); vote_kept = λ _. inr v }
