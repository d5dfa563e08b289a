-- ===== src/Raft/Node/OneVote.antt =====
-- The votes of a node over the histories of `Node`.
use projects_cpp.Prelude.{◌≡◌, sym, ◌∙◌, ap, ◌≢◌, inl, inr, true, arith}
use projects_cpp.Prelude.Int.{ℤ, pos_part, neg_part, minus_one}
use projects_cpp.Raft.State.{Raft, RequestVoteArgs, Timeval}
use projects_cpp.Raft.Vote.{request_vote}
use projects_cpp.Raft.Vote.Rules.{MayVote, of_granted, granted-saved}
use projects_cpp.Raft.Node.{Steps, here, next}
use projects_cpp.Raft.Node.Advance.{Advance, Advance-refl, Advance-trans}
use projects_cpp.Raft.Node.Handlers.{handle-Advance}

-- Over every history of ordinary events, in which no event comes between the sections of a
-- `requestVote`, the term does not fall, and where it stays a vote that was given stays.
Steps-Advance : {r s : Raft} → Steps r s → Advance r s
Steps-Advance {r} here = Advance-refl r
Steps-Advance (next {s = m} {t = t} e run o q) =
    Advance-trans (Steps-Advance run) (handle-Advance e m o t q)

-- After a vote for `a` in a term, a later vote in that term is for `a`.
same_candidate :
    {r s : Raft} (args : RequestVoteArgs) {term a : ℤ}
    → r.cur_term ≡ term
    → r.voted_for ≡ a
    → Advance r s
    → MayVote s args
    → args.term ≡ term
    → a ≢ minus_one
    → args.candidate_id ≡ a
same_candidate args in_term voted adv (inl lower) same real = absurd (
    omega (
      arith,
      adv.term_le,
      lower,
      ap pos_part in_term,
      ap neg_part in_term,
      ap pos_part same,
      ap neg_part same,
    ))
same_candidate args in_term voted adv (inr (e, free)) same real =
    ground (arith, real, adv.vote_kept (in_term ∙ sym same ∙ sym e))

-- A node that granted a candidate (not -1) its vote in a term grants no other candidate a vote in
-- that term, whatever ordinary events come between, each `requestVote` without a break; ordinary are
-- all events but a vote reply of a higher term.
pub one_vote_per_term :
    (now now' : Timeval) (r s : Raft) (args args' : RequestVoteArgs)
    → (request_vote now r args).1.vote_granted ≡ true
    → Steps (request_vote now r args).0 s
    → (request_vote now' s args').1.vote_granted ≡ true
    → args'.term ≡ args.term
    → args.candidate_id ≢ minus_one
    → args'.candidate_id ≡ args.candidate_id
one_vote_per_term now now' r s args args' first run second same real =
    same_candidate args' (granted-saved now r args first).0 (granted-saved now r args first).1
      (Steps-Advance run) (of_granted now' s args' second).0 same real
