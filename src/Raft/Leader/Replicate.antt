-- ===== src/Raft/Leader/Replicate.antt =====
-- One round of `sendAppendEntries` and `appendEntries`, from the leader's log to the follower's.
use projects_cpp.Prelude.{
  ℕ, zero, suc, ◌≤◌, ◌≡◌, refl, sym, ap, ◌∙◌, true, List, ◌++◌, some, arith, length, take, drop,
  get_elem?, get_elem?-some, get_elem?-take, take-append-drop, All-drop,
}
use projects_cpp.Prelude.Int.{ℤ, pos, ◌≤ℤ◌}
use projects_cpp.Raft.State.{Raft, LogEntry, AppendEntriesArgs, AppendEntriesReply, Timeval}
use projects_cpp.Raft.Codec.{encode}
use projects_cpp.Raft.Codec.RoundTrip.{IsEncodable, get_cmd_and_term-encode}
use projects_cpp.Raft.Append.{append_entries, append_read, initial_reply}
use projects_cpp.Raft.Append.Accept.{HasPrev, taken, taken_fields, append_decoded-accepts}
use projects_cpp.Raft.Leader.{append_args, args_for, make_args, prev_term, term_of}

-- What the leader sends to a peer whose next index is n + 1.
abbrev pub sent : Raft → ℕ → ℤ → AppendEntriesArgs
sent l n term = record {
  term = l.cur_term;
  leader_id = pos l.peer_id;
  prev_log_index = pos n;
  prev_log_term = term;
  leader_commit = l.commit_index;
  send_logs = encode 59 (drop n l.logs);
}

-- The first `n` entries of both logs are the same, so the leader's `prevLogTerm` is there and the
-- follower has the entry.
prev_in_both :
    (n : ℕ) (ours theirs : List LogEntry)
    → n ≤ length ours
    → take n theirs ≡ take n ours
    → (term : ℤ) × (prev_term (pos n) ours ≡ some term) × HasPrev theirs (pos n) term
prev_in_both zero ours theirs h e = (_, refl, tt)
prev_in_both (suc k) ours theirs h e =
    let (x, found) = get_elem?-some ours k h in
    let same : get_elem? theirs k ≡ some x =
      sym (get_elem?-take (suc k) theirs k (omega arith))
      ∙ ap (λ l. get_elem? l k) e
      ∙ get_elem?-take (suc k) ours k (omega arith)
      ∙ found in
    (x.term, ap term_of found, (x, same, refl))

append_entries-sent :
    (now : Timeval) (l f : Raft) (n : ℕ) (term : ℤ)
    → f.cur_term ≤ℤ l.cur_term
    → IsEncodable 59 l.logs
    → HasPrev f.logs (pos n) term
    → append_entries now f (sent l n term)
      ≡ some
          (taken now f (sent l n term) (drop n l.logs), record (initial_reply f) { success = true })
unfolding append_entries
append_entries-sent now l f n term h plain prev =
    ap (append_read now f (sent l n term))
      (get_cmd_and_term-encode (drop n l.logs) (All-drop _ n l.logs plain))
    ∙ append_decoded-accepts now f (sent l n term) (drop n l.logs) h prev

-- A leader whose next index for a peer is n + 1, and a follower of no higher term whose first `n`
-- entries are the leader's: the message can be made, the follower takes it, and then has the
-- leader's whole log and term. No command holds a comma or a semicolon.
pub replicate :
    (now : Timeval) (l f : Raft) (peer n : ℕ)
    → get_elem? l.next_index peer ≡ some (pos (suc n))
    → n ≤ length l.logs
    → f.cur_term ≤ℤ l.cur_term
    → take n f.logs ≡ take n l.logs
    → IsEncodable 59 l.logs
    → (args : AppendEntriesArgs) × (f' : Raft) × (reply : AppendEntriesReply) × (append_args l peer
        ≡ some args)
      × (append_entries now f args ≡ some (f', reply))
      × (reply.success ≡ true)
      × (f'.logs ≡ l.logs)
      × (f'.cur_term ≡ l.cur_term)
unfolding append_args
replicate now l f peer n at within term same plain =
    let (t, ours, theirs) = prev_in_both n l.logs f.logs within same in
    let left = taken_fields now f (sent l n t) (drop n l.logs) in
    (
      sent l n t,
      taken now f (sent l n t) (drop n l.logs),
      record (initial_reply f) { success = true },
      ap (args_for l) at ∙ ap (make_args l (pos n)) ours,
      append_entries-sent now l f n t term plain theirs,
      refl,
      left.0 ∙ ap (λ p. p ++ drop n l.logs) same ∙ take-append-drop n l.logs,
      left.1,
    )
