-- ===== src/Raft/Leader/Commit/Phantom.antt =====
-- A follower with an empty log and the match index that the leader gives it.
use projects_cpp.Prelude.{
  ℕ, zero, suc, ◌≤◌, ◌≡◌, refl, sym, ap, ◌∙◌, true, List, [], Option, none, some, arith, length,
  drop, drop-eq-nil, get_elem?, get_elem?-some, set, subst,
}
use mathlib.Core.Option.{some-injective}
use projects_cpp.Prelude.Int.{ℤ, pos, negsuc, ◌≤ℤ◌, ◌+ℤ◌, pred_ℤ}
use projects_cpp.Raft.Persist.{save_raft_state}
use projects_cpp.Raft.State.{Raft, LogEntry, AppendEntriesArgs, AppendEntriesReply, Timeval}
use projects_cpp.Raft.Codec.{encode, get_cmd_and_term, read_entries, split_loop}
use projects_cpp.Raft.Append.{append_entries, append_decoded}
use projects_cpp.Raft.Append.Gaps.{empty_log_accepts}
use projects_cpp.Raft.Leader.{
  append_args, args_for, make_args, prev_term, term_of, matched, reply_success, append_reply,
  and_save, advance_commit, majority_index,
}
use projects_cpp.Raft.Leader.Replicate.{sent}

last_term_found :
    (logs : List LogEntry) (n : ℕ)
    → n ≤ length logs
    → (term : ℤ) × (prev_term (pos n) logs ≡ some term)
last_term_found logs zero h = (_, refl)
last_term_found logs (suc k) h =
    let (x, found) = get_elem?-some logs k h in (x.term, ap term_of found)

-- Reading the text of no entries.
decoded-nil :
    (logs : List LogEntry) → get_cmd_and_term (encode 59 (drop (length logs) logs)) ≡ some []
unfolding get_cmd_and_term read_entries split_loop encode
decoded-nil logs = rw (drop-eq-nil (length logs) logs (omega arith))

advance_commit-match :
    (r s : Raft) (o : Option ℤ) → advance_commit r o ≡ some s → s.match_index ≡ r.match_index
advance_commit-match r s none e = cc
advance_commit-match r s (some (pos zero)) e = ground arith
advance_commit-match r s (some (pos (suc k))) e = ground arith
advance_commit-match r s (some (negsuc n)) e = ground arith

-- A success with no entries sent makes the match index the next index less one.
reply_success-match :
    (r s : Raft) (peer n : ℕ) (next : Option ℤ)
    → next ≡ some (pos (suc n))
    → and_save (reply_success r peer next (some [])) ≡ some s
    → s.match_index ≡ set r.match_index peer (pos n)
unfolding reply_success
reply_success-match r s peer n none at e = cc
reply_success-match r s peer n (some m) at e =
    saved (advance_commit r1 (majority_index r1.match_index)) refl e
    ∙ ap (set r.match_index peer) less
  where
    r1 : Raft
    r1 = matched r peer (m +ℤ pos 0)

    less : pred_ℤ (m +ℤ pos 0) ≡ pos n
    less = rw (some-injective _ _ at) (unfold ◌+ℤ◌ in ground arith)

    saved :
        (o : Option Raft)
        → advance_commit r1 (majority_index r1.match_index) ≡ o
        → and_save o ≡ some s
        → s.match_index ≡ r1.match_index
    saved none q e' = cc
    saved (some t) q e' =
        ap (λ x. x.match_index) (sym (some-injective _ _ e'))
        ∙ (unfold save_raft_state in advance_commit-match r1 t _ q)

sent_to_empty :
    (now : Timeval) (l f f' s : Raft) (peer : ℕ) (t : ℤ) (reply : AppendEntriesReply)
    → get_elem? l.next_index peer ≡ some (pos (suc (length l.logs)))
    → f.logs ≡ []
    → f.cur_term ≤ℤ l.cur_term
    → append_entries now f (sent l (length l.logs) t) ≡ some (f', reply)
    → append_reply l peer (sent l (length l.logs) t) reply ≡ some s
    → (reply.success ≡ true)
      × (f'.logs ≡ [])
      × (s.match_index ≡ set l.match_index peer (pos (length l.logs)))
unfolding append_entries append_reply
sent_to_empty now l f f' s peer t reply next empty term e q = (won, left, counted)
  where
    args : AppendEntriesArgs
    args = sent l (length l.logs) t

    decided : append_decoded now f args [] ≡ some (f', reply)
    decided = rw (decoded-nil l.logs) at e

    won : reply.success ≡ true
    won =
        let (m, a, made, ok, _, _) = empty_log_accepts now f args [] empty term in
        ground (arith, made, decided)

    left : f'.logs ≡ []
    left =
        let (m, a, made, _, _, none_left) = empty_log_accepts now f args [] empty term in
        ground (arith, made, decided)

    same_term : reply.term ≡ f.cur_term
    same_term =
        let (m, a, made, _, in_term, _) = empty_log_accepts now f args [] empty term in
        ground (arith, made, decided)

    taken :
        and_save
          (reply_success l peer (get_elem? l.next_index peer) (get_cmd_and_term args.send_logs))
        ≡ some s
    taken = ground (arith, same_term, won)

    counted : s.match_index ≡ set l.match_index peer (pos (length l.logs))
    counted =
        reply_success-match l s peer (length l.logs) (get_elem? l.next_index peer) next
          (rw (decoded-nil l.logs) at taken)

-- A leader whose next index for a peer is its log's length + 1, as after its election, and a
-- follower of no higher term with an empty log. The first message, which holds no entry, is taken,
-- the follower's log stays empty, and the leader sets the peer's match index to the length of its
-- own log.
pub empty_follower_matched :
    (now : Timeval) (l f f' s : Raft) (peer : ℕ) (args : AppendEntriesArgs)
    (reply : AppendEntriesReply)
    → get_elem? l.next_index peer ≡ some (pos (suc (length l.logs)))
    → f.logs ≡ []
    → f.cur_term ≤ℤ l.cur_term
    → append_args l peer ≡ some args
    → append_entries now f args ≡ some (f', reply)
    → append_reply l peer args reply ≡ some s
    → (reply.success ≡ true)
      × (f'.logs ≡ [])
      × (s.match_index ≡ set l.match_index peer (pos (length l.logs)))
unfolding append_args
empty_follower_matched now l f f' s peer args reply next empty term made e q =
    let (t, before) = last_term_found l.logs (length l.logs) (omega arith) in
    let same : args ≡ sent l (length l.logs) t =
      some-injective _ _
        (sym made ∙ ap (args_for l) next ∙ ap (make_args l (pos (length l.logs))) before) in
    sent_to_empty now l f f' s peer t reply next empty term
      (subst (λ a. append_entries now f a ≡ some (f', reply)) same e)
      (subst (λ a. append_reply l peer a reply ≡ some s) same q)
