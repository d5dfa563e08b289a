-- ===== src/Raft/Node.antt =====
-- A node of 6.824/src/Raft/raft.cpp as a state machine: an event is what runs under `m_lock` without
-- a break, with what comes from outside (clock, messages, replies, client calls) as its data. One
-- event is more: `vote_request` joins the sections of `requestVote`, which gives the lock up while it
-- checks the log, so the histories are those in which no other event comes between these sections.
pub mod Advance
pub mod Handlers
pub mod OneVote
pub mod Race
use projects_cpp.Prelude.{ℕ, Option, none, some, Bool, true, false, ◌≡◌}
use projects_cpp.Prelude.Int.{ℤ, ◌≤ℤ◌, pos_part, neg_part}
use projects_cpp.Prelude.Text.{Text}
use projects_cpp.Raft.State.{
  Raft, Timeval, RequestVoteArgs, RequestVoteReply, AppendEntriesArgs, AppendEntriesReply,
  Operation,
}
use projects_cpp.Raft.Vote.{request_vote}
use projects_cpp.Raft.Election.{election_tick, finish_election, pick_peer, vote_reply}
use projects_cpp.Raft.Append.{append_entries}
use projects_cpp.Raft.Leader.{start, process_entries, append_reply, apply_log, kill}

pub data Event : Type 0 where
  vote_request : Timeval → RequestVoteArgs → Event
  append_request : Timeval → AppendEntriesArgs → Event
  election_pass : Timeval → ℕ → Event
  election_end : Timeval → Event
  peer_picked : Event
  vote_result : Text → RequestVoteReply → Event
  heartbeat_pass : Timeval → Event
  append_result : ℕ → AppendEntriesArgs → AppendEntriesReply → Event
  client_call : Operation → Event
  apply_pass : Event
  killed : Event

abbrev pub state_of {ℓ} : {A : Type ℓ} → Option (Raft × A) → Option Raft
state_of none = none
state_of (some (r, a)) = some r

-- The state behind an event; `none` is a fault of the code.
unfoldable pub handle : Event → Raft → Option Raft
handle (vote_request now args) r = some (request_vote now r args).0
handle (append_request now args) r = state_of (append_entries now r args)
handle (election_pass now time_out) r = some (election_tick now time_out r).0
handle (election_end now) r = some (finish_election now r)
handle peer_picked r = some (pick_peer r).1
handle (vote_result behind reply) r = vote_reply behind r reply
handle (heartbeat_pass now) r = some (process_entries now r).0
handle (append_result peer args reply) r = append_reply r peer args reply
handle (client_call op) r = some (start r op).0
handle apply_pass r = some (apply_log r)
handle killed r = some (kill r)

-- A vote reply of a higher term makes the node read its file again; every other event is ordinary.
abbrev pub IsOrdinary : Event → Raft → Type 0
IsOrdinary (vote_result behind reply) r = reply.term ≤ℤ r.cur_term
IsOrdinary (vote_request now args) r = Unit
IsOrdinary (append_request now args) r = Unit
IsOrdinary (election_pass now time_out) r = Unit
IsOrdinary (election_end now) r = Unit
IsOrdinary peer_picked r = Unit
IsOrdinary (heartbeat_pass now) r = Unit
IsOrdinary (append_result peer args reply) r = Unit
IsOrdinary (client_call op) r = Unit
IsOrdinary apply_pass r = Unit
IsOrdinary killed r = Unit

-- Histories of ordinary events.
pub data Steps (r : Raft) : Raft → Type 0 where
  here : Steps r r
  next : {s t : Raft} (e : Event) → Steps r s → IsOrdinary e s → handle e s ≡ some t → Steps r t
