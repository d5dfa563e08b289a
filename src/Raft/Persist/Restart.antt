-- ===== src/Raft/Persist/Restart.antt =====
-- What a node reads back from the file that it wrote.
use projects_cpp.Prelude.{
  ℕ, ◌≡◌, refl, ap, ◌∙◌, ◌≢◌, ◌≤◌, List, [], ◌∷◌, ◌++◌, append-nil, append_assoc, arith, map,
  Option, none, some, All, All-append, length, drop-append, drop-eq-nil, sym,
}
use mathlib.Core.Option
use projects_cpp.Prelude.Int.{ℤ}
use projects_cpp.Prelude.Text.{Text, to_string, atoi-to_string, to_string-IsNumeral, to_string-cons}
use projects_cpp.Raft.State.{Raft, LogEntry, Persister}
use projects_cpp.Raft.Codec.{entry, encode, split_loop, push_nonempty}
use projects_cpp.Raft.Codec.RoundTrip.{
  IsEncodable, IsPlain, semicolon, full_stop, body, split_loop-encode_then, split_loop-piece,
  split_loop-stop, read_entries-body, numeral-ne,
}
use projects_cpp.Raft.Persist.{
  persist_text, persisted, saved_text, write_over, save_raft_state, read_fields, parse_persister,
  with_persister, up_to_nul, deserialize_file, adopt_persister, read_raft_state,
}
use projects_cpp.Raft.Persist.Stored.{
  IsStored, IsStorable, IsHarmless, up_to_nul-append, persist_text-nonzero, harmless-ne,
}

command-IsPlain : (s : Text) → All IsStored s → All (IsPlain 46) s
command-IsPlain [] h = tt
command-IsPlain (c ∷ s) h = ((h.0.0, h.0.1), command-IsPlain s h.1)

command-ne : (s : Text) → All IsStored s → All (λ c. c ≢ 59) s
command-ne [] h = tt
command-ne (c ∷ s) h = (h.0.2, command-ne s h.1)

storable-IsEncodable : (es : List LogEntry) → IsStorable es → IsEncodable 46 es
storable-IsEncodable [] h = tt
storable-IsEncodable (e ∷ es) h = (command-IsPlain e.command h.0, storable-IsEncodable es h.1)

entry-ne : (e : LogEntry) → All (λ c. c ≢ 59) e.command → All (λ c. c ≢ 59) (entry 46 e)
unfolding entry
entry-ne e h =
    All-append (λ c. c ≢ 59) e.command (44 ∷ (to_string e.term ++ (46 ∷ []))) h
      (omega arith, All-append (λ c. c ≢ 59) (to_string e.term) (46 ∷ []) number (omega arith))
  where
    number : All (λ c. c ≢ 59) (to_string e.term)
    number = numeral-ne 59 semicolon (to_string e.term) (to_string-IsNumeral e.term)

encode-ne : (es : List LogEntry) → IsStorable es → All (λ c. c ≢ 59) (encode 46 es)
unfolding encode
encode-ne [] h = tt
encode-ne (e ∷ es) h =
    All-append (λ c. c ≢ 59) (entry 46 e) (encode 46 es) (entry-ne e (command-ne e.command h.0))
      (encode-ne es h.1)

-- A number and a semicolon become one field.
split_loop-number :
    (strs : List Text) (z : ℤ) (rest : Text)
    → split_loop 59 strs [] (to_string z ++ (59 ∷ rest))
      ≡ split_loop 59 (push_nonempty strs (to_string z)) [] rest
split_loop-number strs z rest =
    split_loop-piece 59 strs [] (to_string z) (59 ∷ rest)
      (numeral-ne 59 semicolon (to_string z) (to_string-IsNumeral z))
    ∙ split_loop-stop 59 strs (to_string z) rest

split_loop-last :
    (sep : ℕ) (strs : List Text) (s : Text)
    → All (λ c. c ≢ sep) s
    → split_loop sep strs [] s ≡ (strs, s)
split_loop-last sep strs s h =
    ap (split_loop sep strs []) (sym (append-nil s))
    ∙ split_loop-piece sep strs [] s [] h
    ∙ (unfold split_loop in refl)

push_nonempty-number :
    (strs : List Text) (z : ℤ) → push_nonempty strs (to_string z) ≡ strs ++ to_string z ∷ []
push_nonempty-number strs z = let (c, s, e) = to_string-cons z in rw e

split_loop-persist_text :
    (p : Persister) (rest : Text)
    → IsStorable p.logs
    → All (λ c. c ≢ 59) rest
    → split_loop 59 [] [] (persist_text p ++ rest)
      ≡ (to_string p.cur_term ∷ to_string p.voted_for ∷ [], encode 46 p.logs ++ rest)
unfolding persist_text
split_loop-persist_text p rest h k =
    ap (split_loop 59 [] []) (
      append_assoc (to_string p.cur_term) _ rest
      ∙ ap (λ s. to_string p.cur_term ++ (59 ∷ s)) (append_assoc (to_string p.voted_for) _ rest))
    ∙ split_loop-number [] p.cur_term _
    ∙ ap
        (λ strs. split_loop 59 strs [] (to_string p.voted_for ++ (59 ∷ (encode 46 p.logs ++ rest))))
        (push_nonempty-number [] p.cur_term)
    ∙ split_loop-number (to_string p.cur_term ∷ []) p.voted_for (encode 46 p.logs ++ rest)
    ∙ ap (λ strs. split_loop 59 strs [] (encode 46 p.logs ++ rest))
        (push_nonempty-number (to_string p.cur_term ∷ []) p.voted_for)
    ∙ split_loop-last 59 _ (encode 46 p.logs ++ rest)
        (All-append (λ c. c ≢ 59) (encode 46 p.logs) rest (encode-ne p.logs h) k)

-- What follows the last full stop of the entries is dropped.
split_loop-entries :
    (logs : List LogEntry) (rest : Text)
    → IsStorable logs
    → All (λ c. c ≢ 46) rest
    → (split_loop 46 [] [] (encode 46 logs ++ rest)).0 ≡ map body logs
split_loop-entries logs rest h k =
    ap (λ r. r.0)
      (split_loop-encode_then 46 full_stop [] logs rest (storable-IsEncodable logs h)
        ∙ split_loop-last 46 (map body logs) rest k)

read_fields-persisted :
    (p : Persister) (rest : Text)
    → IsStorable p.logs
    → All (λ c. c ≢ 46) rest
    → read_fields (to_string p.cur_term ∷ to_string p.voted_for ∷ (encode 46 p.logs ++ rest) ∷ [])
      ≡ some p
unfolding read_fields
read_fields-persisted p rest h k = rw (
  split_loop-entries p.logs rest h k,
  read_entries-body 46 p.logs (storable-IsEncodable p.logs h),
  atoi-to_string p.cur_term,
  atoi-to_string p.voted_for,
)

-- The file's text reads back as the term, the vote and the log that were written.
pub parse_persister-persist_text :
    (p : Persister) (behind : Text)
    → IsStorable p.logs
    → IsHarmless behind
    → parse_persister (up_to_nul (persist_text p ++ behind)) ≡ some p
unfolding parse_persister
parse_persister-persist_text p behind h k =
    let (stops, semicolons) = harmless-ne (up_to_nul behind) k in
    rw
      (
        up_to_nul-append (persist_text p) behind (persist_text-nonzero p h),
        split_loop-persist_text p (up_to_nul behind) h semicolons,
      )
      (read_fields-persisted p (up_to_nul behind) h stops)

write_over-short :
    (old : Option Text) (str : Text)
    → length (Option.get_or old []) ≤ length str
    → write_over old str ≡ str
write_over-short none str h = refl
write_over-short (some old) str h = rw (drop-eq-nil (length str) old h) (append-nil str)

-- A node with an empty log that reads the file of a save has the term, the vote and the log that
-- were saved, if the file before was no longer than the new text, no command holds a comma, a full
-- stop, a semicolon or a NUL, and the bytes behind the buffer, which the code reads up to the first
-- NUL, hold no full stop and no semicolon.
pub read_raft_state-save_raft_state :
    (behind : Text) (r r' : Raft)
    → IsStorable r.logs
    → IsHarmless behind
    → length (Option.get_or r.file []) ≤ length (saved_text r)
    → r'.logs ≡ []
    → r'.file ≡ (save_raft_state r).file
    → read_raft_state behind r'
      ≡ some (record r' {
        persister = (save_raft_state r).persister;
        cur_term = r.cur_term;
        voted_for = r.voted_for;
        logs = r.logs;
      })
unfolding read_raft_state save_raft_state
read_raft_state-save_raft_state behind r r' h k short new e =
    ap (λ f. adopt_persister (deserialize_file behind r' f))
      (e ∙ ap some (write_over-short r.file (saved_text r) short))
    ∙ (unfold deserialize_file in
        ap (λ o. adopt_persister (with_persister r' o))
          (parse_persister-persist_text (persisted r) behind h k))
    ∙ ap
        (λ l. some (record r' {
          persister = persisted r;
          cur_term = r.cur_term;
          voted_for = r.voted_for;
          logs = l ++ r.logs;
        }))
        new

encode-append :
    (sep : ℕ) (xs ys : List LogEntry) → encode sep (xs ++ ys) ≡ encode sep xs ++ encode sep ys
unfolding encode
encode-append sep [] ys = refl
encode-append sep (x ∷ xs) ys = simp (encode-append sep xs ys, append_assoc)

persist_text-append :
    (p : Persister) (extra : List LogEntry)
    → persist_text (record p { logs = p.logs ++ extra }) ≡ persist_text p ++ encode 46 extra
unfolding persist_text
persist_text-append p extra = simp (encode-append, append_assoc)

-- Entries that were cut from the log come back: if the file holds the present state with more
-- entries behind it, a save leaves the file as it is.
pub file-save_raft_state_truncated :
    (r : Raft) (extra : List LogEntry)
    → r.file ≡ some (persist_text (record (persisted r) { logs = r.logs ++ extra }))
    → (save_raft_state r).file ≡ r.file
unfolding save_raft_state
file-save_raft_state_truncated r extra h =
    ap (λ f. some (write_over f (saved_text r))) old
    ∙ ap (λ s. some (saved_text r ++ s)) (drop-append (saved_text r) (encode 46 extra))
    ∙ sym old
  where
    old : r.file ≡ some (saved_text r ++ encode 46 extra)
    old = h ∙ ap some (persist_text-append (persisted r) extra)
