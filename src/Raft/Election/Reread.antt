-- ===== src/Raft/Election/Reread.antt =====
-- A vote reply of a higher term: `callRequestVote` sets the new term and then calls
-- `readRaftState`, which is meant for the start of a node.
use projects_cpp.Prelude.{◌≡◌, refl, ◌++◌, ◌+◌, some, arith}
use projects_cpp.Prelude.Int.{◌<ℤ◌}
use projects_cpp.Prelude.Text.{Text}
use projects_cpp.Raft.State.{Raft, Persister, RequestVoteReply, follower}
use projects_cpp.Raft.Persist.{persist_text, read_raft_state, deserialize_file}
use projects_cpp.Raft.Persist.Stored.{IsStorable, IsHarmless}
use projects_cpp.Raft.Persist.Restart.{parse_persister-persist_text}
use projects_cpp.Raft.Election.{vote_reply}

-- A vote reply of a higher term makes the node a follower in the term and with the vote of its
-- file, not of the reply, with the entries of the file a second time behind its log, if the file is
-- the whole text of a persister whose commands hold no comma, full stop, semicolon or NUL, and the
-- bytes behind the buffer hold no full stop and no semicolon up to the first NUL.
pub vote_reply-rereads :
    (behind : Text) (r : Raft) (p : Persister) (reply : RequestVoteReply)
    → r.cur_term <ℤ reply.term
    → IsStorable p.logs
    → IsHarmless behind
    → r.file ≡ some (persist_text p)
    → (s : Raft) × (vote_reply behind r reply ≡ some s)
      × (s.state ≡ follower)
      × (s.cur_term ≡ p.cur_term)
      × (s.voted_for ≡ p.voted_for)
      × (s.logs ≡ r.logs ++ p.logs)
unfolding vote_reply read_raft_state deserialize_file
vote_reply-rereads behind r p reply h ok quiet e = (
  record r {
    finished_vote = r.finished_vote + 1;
    state = follower;
    cur_term = p.cur_term;
    voted_for = p.voted_for;
    logs = r.logs ++ p.logs;
    persister = p;
  },
  ground (arith, parse_persister-persist_text p behind ok quiet),
  refl,
  refl,
  refl,
  refl,
)
