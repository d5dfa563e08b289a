-- ===== src/Raft/Codec.antt =====
-- The text form of log entries in 6.824/src/Raft/raft.cpp: `sendAppendEntries` writes a list of
-- entries as "command,term;" each and `getCmdAndTerm` reads it; the persister's file uses the same
-- form with '.' for ';'.
pub mod RoundTrip
use projects_cpp.Prelude.{List, [], ◌∷◌, ◌++◌, ℕ, Option, none, some, ◌==◌, if◌then◌else◌}
use projects_cpp.Prelude.Text.{Text, to_string, atoi}
use projects_cpp.Raft.State.{Operation, LogEntry}

-- `Operation::getCmd`
unfoldable pub get_cmd : Operation → Text
get_cmd o = o.op ++ (b' ' ∷ (o.key ++ (b' ' ∷ o.value)))

-- One entry and its terminator.
unfoldable pub entry : ℕ → LogEntry → Text
entry sep e = e.command ++ (b',' ∷ (to_string e.term ++ (sep ∷ [])))

unfoldable pub encode : ℕ → List LogEntry → Text
encode sep [] = []
encode sep (e ∷ es) = entry sep e ++ encode sep es

-- `if (tmp.size() != 0) str.push_back(tmp);`
abbrev pub push_nonempty : List Text → Text → List Text
push_nonempty strs [] = strs
push_nonempty strs (c ∷ s) = strs ++ (c ∷ s) ∷ []

-- The loop that cuts a text at each `sep`: the pieces found, and the text behind the last `sep`.
unfoldable pub split_loop : ℕ → List Text → Text → Text → List Text × Text
split_loop sep strs tmp [] = (strs, tmp)
split_loop sep strs tmp (c ∷ text) =
    split_loop sep (if c == sep then push_nonempty strs tmp else strs)
      (if c == sep then [] else tmp ++ c ∷ []) text

-- The command up to the first comma and the text behind it. With no comma the code makes a string
-- from an iterator past the end: `none`.
unfoldable pub cut : Text → Text → Option (Text × Text)
cut tmp [] = none
cut tmp (c ∷ s) = let rest = cut (tmp ++ c ∷ []) s in if c == b',' then some (tmp, s) else rest

abbrev pub entry_of_cut : Option (Text × Text) → Option LogEntry
entry_of_cut none = none
entry_of_cut (some (cmd, number)) = some (record { command = cmd; term = atoi number })

abbrev pub read_entry : Text → Option LogEntry
read_entry s = entry_of_cut (cut [] s)

abbrev pub and_cons : Option LogEntry → Option (List LogEntry) → Option (List LogEntry)
and_cons (some e) (some es) = some (e ∷ es)
and_cons none _ = none
and_cons (some e) none = none

-- The second loop of `getCmdAndTerm`.
unfoldable pub read_entries : List Text → Option (List LogEntry)
read_entries [] = some []
read_entries (s ∷ ss) = and_cons (read_entry s) (read_entries ss)

unfoldable pub get_cmd_and_term : Text → Option (List LogEntry)
get_cmd_and_term text = read_entries (split_loop b';' [] [] text).0
