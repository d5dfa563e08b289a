-- ===== src/Raft/Tests/Files.antt =====
-- The persister's file on the nodes of `Tests`.
use projects_cpp.Prelude.{◌≡◌, refl, [], ◌∷◌, false, some, arith}
use projects_cpp.Prelude.Int.{pos, minus_one}
use projects_cpp.Prelude.Text.{Text}
use projects_cpp.Raft.State.{Raft, RequestVoteReply, follower}
use projects_cpp.Raft.Tests.{blank, behind, ahead, put_a, put_b}
use projects_cpp.Raft.Persist.{save_raft_state, read_raft_state, up_to_nul, persist_text, persisted}
use projects_cpp.Raft.Persist.Stored.{IsHarmless}
use projects_cpp.Raft.Persist.Restart.{
  read_raft_state-save_raft_state, file-save_raft_state_truncated,
}
use projects_cpp.Raft.Election.{vote_reply}
use projects_cpp.Raft.Election.Reread.{vote_reply-rereads}

-- Behind the buffer an x stands in memory, and then a NUL.
abbrev garbage : Text
garbage = b'x' ∷ 0 ∷ b';' ∷ []

garbage-IsHarmless : IsHarmless garbage
unfolding up_to_nul
garbage-IsHarmless = omega arith

-- Node 0 starting again on the file that the leader left.
abbrev restarted : Raft
restarted = record blank { file = (save_raft_state ahead).file }

read_raft_state-save_raft_state_example :
    read_raft_state garbage restarted
    ≡ some (record restarted {
      persister = (save_raft_state ahead).persister;
      cur_term = ahead.cur_term;
      voted_for = ahead.voted_for;
      logs = ahead.logs;
    })
read_raft_state-save_raft_state_example =
    read_raft_state-save_raft_state garbage ahead restarted (omega arith) garbage-IsHarmless
      (omega arith) refl refl

-- One entry in memory, two in the file.
abbrev cut_back : Raft
cut_back = record behind {
  file = some (persist_text (record (persisted behind) { logs = put_a ∷ put_b ∷ [] }));
}

file-save_raft_state_truncated_example : (save_raft_state cut_back).file ≡ cut_back.file
file-save_raft_state_truncated_example = file-save_raft_state_truncated cut_back (put_b ∷ []) refl

-- A node of term 1 with its state in the file.
abbrev on_disk : Raft
on_disk = record behind { file = some (persist_text (persisted behind)) }

abbrev higher_term : RequestVoteReply
higher_term = record { term = pos 5; vote_granted = false }

vote_reply-rereads_example :
    (s : Raft) × (vote_reply garbage on_disk higher_term ≡ some s)
    × (s.state ≡ follower)
    × (s.cur_term ≡ pos 1)
    × (s.voted_for ≡ minus_one)
    × (s.logs ≡ put_a ∷ put_a ∷ [])
vote_reply-rereads_example =
    vote_reply-rereads garbage on_disk (persisted behind) higher_term (omega arith) (omega arith)
      garbage-IsHarmless refl
