-- ===== src/Raft/Leader.antt =====
-- The leader's side of 6.824/src/Raft/raft.cpp: `start`, `processEntriesLoop`, the two critical
-- sections of `sendAppendEntries`, `applyLogLoop`, `getState` and `kill`.
pub mod Replicate
pub mod Commit
pub mod BackOff
use projects_cpp.Prelude.{
  ℕ, zero, suc, ◌+◌, ◌-◌, ◌/◌, List, [], ◌∷◌, ◌++◌, Bool, true, false, ◌&&◌, not, Option, none,
  some, length, drop, get_elem?, set, if◌then◌else◌,
}
use projects_cpp.Prelude.Int.{ℤ, pos, negsuc, ◌+ℤ◌, ltb_ℤ, leb_ℤ, eqb_ℤ, succ_ℤ, pred_ℤ, minus_one}
use projects_cpp.Raft.State.{
  Raft, LogEntry, Operation, StartRet, AppendEntriesArgs, AppendEntriesReply, Timeval, follower,
}
use projects_cpp.Raft.Codec.{get_cmd, encode, get_cmd_and_term}
use projects_cpp.Raft.Persist.{save_raft_state}
use projects_cpp.Raft.Election.{is_leader, get_my_duration, last_term}

-- `start`: the leader appends the client's operation; any other node refuses.
unfoldable pub start : Raft → Operation → Raft × StartRet
start r op =
    if not (is_leader r.state)
    then (r, record { cmd_index = minus_one; cur_term = minus_one; is_leader = false })
    else (
      record r { logs = r.logs ++ (record { command = get_cmd op; term = r.cur_term }) ∷ [] },
      record { cmd_index = pos (length r.logs); cur_term = r.cur_term; is_leader = true },
    )

-- One pass of `processEntriesLoop`; the Boolean says that a round of `sendAppendEntries` begins.
unfoldable pub process_entries : Timeval → Raft → Raft × Bool
process_entries now r =
    if not (is_leader r.state)
    then (r, false)
    else if ltb_ℤ (get_my_duration now r.last_broadcast_time) (pos 100000)
    then (r, false)
    else (record r { last_broadcast_time = now }, true)

-- The entries from index `prevLogIndex` on; a negative start is converted to a huge `size_t`.
abbrev pub entries_from : ℤ → List LogEntry → List LogEntry
entries_from (pos n) logs = drop n logs
entries_from (negsuc n) logs = []

abbrev pub head_term : List LogEntry → ℤ
head_term [] = pos 0
head_term (e ∷ es) = e.term

abbrev pub term_of : Option LogEntry → Option ℤ
term_of none = none
term_of (some e) = some e.term

-- `prevLogTerm`. `none` is a read out of range.
abbrev pub prev_term : ℤ → List LogEntry → Option ℤ
prev_term (pos zero) logs = some (head_term logs)
prev_term (pos (suc k)) logs = term_of (get_elem? logs k)
prev_term (negsuc n) logs = none

abbrev pub make_args : Raft → ℤ → Option ℤ → Option AppendEntriesArgs
make_args r prev none = none
make_args r prev (some term) = some (record {
  term = r.cur_term;
  leader_id = pos r.peer_id;
  prev_log_index = prev;
  prev_log_term = term;
  leader_commit = r.commit_index;
  send_logs = encode b';' (entries_from prev r.logs);
})

abbrev pub args_for : Raft → Option ℤ → Option AppendEntriesArgs
args_for r none = none
args_for r (some next) = make_args r (pred_ℤ next) (prev_term (pred_ℤ next) r.logs)

-- The arguments for a peer. `none` is a read out of range.
unfoldable pub append_args : Raft → ℕ → Option AppendEntriesArgs
append_args r peer = args_for r (get_elem? r.next_index peer)

-- `std::sort` on integers.
unfoldable pub insert_sorted : ℤ → List ℤ → List ℤ
insert_sorted x [] = x ∷ []
insert_sorted x (y ∷ ys) =
    let rest = insert_sorted x ys in if leb_ℤ x y then x ∷ (y ∷ ys) else y ∷ rest

unfoldable pub sort : List ℤ → List ℤ
sort [] = []
sort (x ∷ xs) = insert_sorted x (sort xs)

-- `realMajorityMatchIndex`
unfoldable pub majority_index : List ℤ → Option ℤ
majority_index matches = get_elem? (sort matches) (length matches / 2)

abbrev pub term_at : ℤ → List LogEntry → Option ℤ
term_at (pos (suc k)) logs = term_of (get_elem? logs k)
term_at (pos zero) logs = none
term_at (negsuc n) logs = none

abbrev pub commit_if : Raft → ℤ → Option ℤ → Option Raft
commit_if r index none = none
commit_if r index (some term) =
    some (if eqb_ℤ term r.cur_term then record r { commit_index = index } else r)

-- Entries that enough followers have are committed, if the last of them is of the present term.
abbrev pub advance_commit : Raft → Option ℤ → Option Raft
advance_commit r none = none
advance_commit r (some index) =
    if ltb_ℤ r.commit_index index then commit_if r index (term_at index r.logs) else some r

abbrev pub matched : Raft → ℕ → ℤ → Raft
matched r peer next = record r {
  next_index = set r.next_index peer next;
  match_index = set r.match_index peer (pred_ℤ next);
}

-- The peer took the entries that were sent.
unfoldable pub reply_success : Raft → ℕ → Option ℤ → Option (List LogEntry) → Option Raft
reply_success r peer none sent = none
reply_success r peer (some next) none = none
reply_success r peer (some next) (some sent) =
    let r1 : Raft = matched r peer (next +ℤ pos (length sent)) in
    advance_commit r1 (majority_index r1.match_index)

-- The last of the entries `n`, …, 1 that has the term, -1 if there is none.
unfoldable pub find_down : ℤ → List LogEntry → ℕ → Option ℤ
find_down t logs zero = some minus_one
find_down t logs (suc k) = elim (get_elem? logs k) [
  | none ↦ none
  | some e ↦ let rest = find_down t logs k in if eqb_ℤ e.term t then some (pos (suc k)) else rest
]

abbrev pub search_term : ℤ → List LogEntry → ℤ → Option ℤ
search_term t logs (pos n) = find_down t logs n
search_term t logs (negsuc n) = some minus_one

abbrev pub next_of_search : ℤ → Option ℤ → Option ℤ
next_of_search conflict none = none
next_of_search conflict (some index) =
    some (if eqb_ℤ index minus_one then conflict else succ_ℤ index)

-- The next index for a peer that refused.
unfoldable pub next_after_conflict :
    List LogEntry → AppendEntriesArgs → AppendEntriesReply → Option ℤ
next_after_conflict logs args reply =
    if eqb_ℤ reply.conflict_term minus_one
    then some (succ_ℤ reply.conflict_index)
    else next_of_search reply.conflict_index
        (search_term reply.conflict_term logs args.prev_log_index)

abbrev pub back_off : Raft → ℕ → Option ℤ → Option Raft
back_off r peer none = none
back_off r peer (some next) = some (record r { next_index = set r.next_index peer next })

abbrev pub and_save : Option Raft → Option Raft
and_save none = none
and_save (some r) = some (save_raft_state r)

-- What `sendAppendEntries` does with the reply of `peer` to `args`. `none` is a fault: an access out
-- of range or entries that cannot be read.
unfoldable pub append_reply : Raft → ℕ → AppendEntriesArgs → AppendEntriesReply → Option Raft
append_reply r peer args reply =
    if ltb_ℤ r.cur_term reply.term
    then some (
        save_raft_state
          (record r { state = follower; cur_term = reply.term; voted_for = minus_one }))
    else if reply.success
    then and_save
        (reply_success r peer (get_elem? r.next_index peer) (get_cmd_and_term args.send_logs))
    else and_save (back_off r peer (next_after_conflict r.logs args reply))

-- One pass of `applyLogLoop`.
unfoldable pub apply_log : Raft → Raft
apply_log r = record r { last_applied = r.commit_index }

-- `getState`
unfoldable pub get_state : Raft → ℤ × Bool
get_state r = (r.cur_term, is_leader r.state)

-- `kill`
unfoldable pub kill : Raft → Raft
kill r = record r { dead = true }
