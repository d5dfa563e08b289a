-- ===== src/Raft/Persist.antt =====
-- Persistence in 6.824/src/Raft/raft.cpp: `serialize`, `deserialize`, `saveRaftState`,
-- `readRaftState`. The file is the text that the node's `file` holds; opening, reading and writing
-- it are taken to succeed. `deserialize` makes a string from a buffer of the file's length with no
-- NUL at its end: the bytes that stand behind the buffer in memory are the argument `behind`.
pub mod Stored
pub mod Restart
use projects_cpp.Prelude.{
  List, [], ◌∷◌, ◌++◌, ◌==◌, if◌then◌else◌, ℕ, Bool, true, false, Option, none, some, length, drop,
}
use projects_cpp.Prelude.Text.{Text, to_string, atoi}
use projects_cpp.Raft.State.{Raft, Persister, LogEntry}
use projects_cpp.Raft.Codec.{encode, split_loop, push_nonempty, read_entries}

-- "term;votedFor;" and the entries, each as "command,term."
unfoldable pub persist_text : Persister → Text
persist_text p =
    to_string p.cur_term ++ (b';' ∷ (to_string p.voted_for ++ (b';' ∷ encode b'.' p.logs)))

-- The file is opened with O_WRONLY | O_CREAT and without O_TRUNC: the bytes of an older, longer
-- content stay behind the new ones.
abbrev pub write_over : Option Text → Text → Text
write_over none str = str
write_over (some old) str = str ++ drop (length str) old

unfoldable pub serialize : Raft → Raft
serialize r = record r { file = some (write_over r.file (persist_text r.persister)) }

-- What `saveRaftState` copies into the persister, and the text of it.
abbrev pub persisted : Raft → Persister
persisted r = record { logs = r.logs; cur_term = r.cur_term; voted_for = r.voted_for }

abbrev pub saved_text : Raft → Text
saved_text r = persist_text (persisted r)

unfoldable pub save_raft_state : Raft → Raft
unfolding serialize
save_raft_state r = serialize (record r { persister = persisted r })

abbrev pub persister_of : Text → Text → Option (List LogEntry) → Option Persister
persister_of term vote none = none
persister_of term vote (some logs) =
    some (record { logs = logs; cur_term = atoi term; voted_for = atoi vote })

-- Fields 0, 1 and 2 of the cut text; with fewer the code reads past its vector: `none`.
unfoldable pub read_fields : List Text → Option Persister
read_fields (term ∷ vote ∷ logs ∷ more) =
    persister_of term vote (read_entries (split_loop b'.' [] [] logs).0)
read_fields _ = none

unfoldable pub parse_persister : Text → Option Persister
unfolding read_fields
parse_persister content =
    let (persist, tmp) = split_loop b';' [] [] content in read_fields (persist ++ tmp ∷ [])

abbrev pub with_persister : Raft → Option Persister → Option (Raft × Bool)
with_persister r none = none
with_persister r (some p) = some (record r { persister = p }, true)

-- `string content(buf)`: the bytes up to the first NUL.
unfoldable pub up_to_nul : Text → Text
up_to_nul [] = []
up_to_nul (c ∷ s) = let rest = up_to_nul s in if c == 0 then [] else c ∷ rest

-- `deserialize` on the file's bytes; the Boolean is its result.
unfoldable pub deserialize_file : Text → Raft → Option Text → Option (Raft × Bool)
deserialize_file behind r none = some (r, false)
deserialize_file behind r (some buf) =
    with_persister r (parse_persister (up_to_nul (buf ++ behind)))

abbrev pub adopt_persister : Option (Raft × Bool) → Option Raft
adopt_persister none = none
adopt_persister (some (r, false)) = some r
adopt_persister (some (r, true)) = some (record r {
  cur_term = r.persister.cur_term;
  voted_for = r.persister.voted_for;
  logs = r.logs ++ r.persister.logs;
})

-- `readRaftState` appends the entries of the file to those that the node has.
unfoldable pub read_raft_state : Text → Raft → Option Raft
unfolding deserialize_file
read_raft_state behind r = adopt_persister (deserialize_file behind r r.file)
