-- ===== src/Raft/Codec/RoundTrip.antt =====
-- Reading back the text form of log entries.
use projects_cpp.Prelude.{
  ℕ, ◌≡◌, refl, ap, ◌∙◌, ◌≢◌, List, [], ◌∷◌, ◌++◌, append-nil, append_assoc, arith, map, some, All,
  All-append, sym,
}
use projects_cpp.Prelude.Text.{Text, to_string, atoi-to_string, to_string-IsNumeral, IsNumeral}
use projects_cpp.Raft.State.{LogEntry}
use projects_cpp.Raft.Codec.{
  entry, encode, push_nonempty, split_loop, cut, entry_of_cut, read_entry, read_entries,
  get_cmd_and_term,
}

-- A character of a command that survives: neither a comma nor the entry's terminator.
abbrev pub IsPlain : ℕ → ℕ → Type 0
IsPlain sep c = (c ≢ 44) × (c ≢ sep)

-- Every command of the log is made of such characters.
abbrev pub IsEncodable : ℕ → List LogEntry → Type 0
IsEncodable sep = All (λ e. All (IsPlain sep) e.command)

-- An entry without its terminator.
abbrev pub body : LogEntry → Text
body e = e.command ++ (44 ∷ to_string e.term)

-- A stretch without `sep` is taken into the running piece.
pub split_loop-piece :
    (sep : ℕ) (strs : List Text) (tmp s rest : Text)
    → All (λ c. c ≢ sep) s
    → split_loop sep strs tmp (s ++ rest) ≡ split_loop sep strs (tmp ++ s) rest
unfolding split_loop
split_loop-piece sep strs tmp [] rest h = simp append-nil
split_loop-piece sep strs tmp (c ∷ s) rest h =
    ground (
      arith,
      h.0,
      split_loop-piece sep strs (tmp ++ c ∷ []) s rest h.1,
      append_assoc tmp (c ∷ []) s,
    )

pub entry-eq-body :
    (sep : ℕ) (e : LogEntry) (rest : Text) → entry sep e ++ rest ≡ body e ++ (sep ∷ rest)
unfolding entry
entry-eq-body sep e rest = simp append_assoc

push_nonempty-body :
    (strs : List Text) (e : LogEntry) → push_nonempty strs (body e) ≡ strs ++ body e ∷ []
push_nonempty-body strs e = by_command e.command
  where
    by_command :
        (c : Text)
        → push_nonempty strs (c ++ (44 ∷ to_string e.term))
          ≡ strs ++ (c ++ (44 ∷ to_string e.term)) ∷ []
    by_command [] = refl
    by_command (x ∷ c) = refl

-- At the terminator the running piece is stored.
pub split_loop-stop :
    (sep : ℕ) (strs : List Text) (tmp rest : Text)
    → split_loop sep strs tmp (sep ∷ rest) ≡ split_loop sep (push_nonempty strs tmp) [] rest
unfolding split_loop
split_loop-stop sep strs tmp rest = ground arith

-- A terminator that no numeral holds and that is no comma.
pub record IsTerminator (sep : ℕ) : Type 0 where
  pub no_comma : sep ≢ 44
  pub no_numeral : (c : ℕ) → IsNumeral c → c ≢ sep

pub numeral-ne : (sep : ℕ) → IsTerminator sep → (s : Text) → All IsNumeral s → All (λ c. c ≢ sep) s
numeral-ne sep t [] h = tt
numeral-ne sep t (c ∷ s) h = (t.no_numeral c h.0, numeral-ne sep t s h.1)

plain-ne : (sep : ℕ) (s : Text) → All (IsPlain sep) s → All (λ c. c ≢ sep) s
plain-ne sep [] h = tt
plain-ne sep (c ∷ s) h = (h.0.1, plain-ne sep s h.1)

body-ne :
    (sep : ℕ)
    → IsTerminator sep
    → (e : LogEntry) → All (IsPlain sep) e.command
    → All (λ c. c ≢ sep) (body e)
body-ne sep t e h =
    All-append (λ c. c ≢ sep) e.command (44 ∷ to_string e.term) (plain-ne sep e.command h)
      ((λ q. t.no_comma (sym q)), numeral-ne sep t (to_string e.term) (to_string-IsNumeral e.term))

-- Cutting the text of a log at the terminators gives one piece for each entry, whatever follows.
pub split_loop-encode_then :
    (sep : ℕ)
    → IsTerminator sep
    → (strs : List Text) (es : List LogEntry) (rest : Text) → IsEncodable sep es
    → split_loop sep strs [] (encode sep es ++ rest) ≡ split_loop sep (strs ++ map body es) [] rest
unfolding encode
split_loop-encode_then sep t strs [] rest h = simp append-nil
split_loop-encode_then sep t strs (e ∷ es) rest h = rw (
  append_assoc (entry sep e) (encode sep es) rest,
  entry-eq-body sep e (encode sep es ++ rest),
  split_loop-piece sep strs [] (body e) (sep ∷ (encode sep es ++ rest)) (body-ne sep t e h.0),
  split_loop-stop sep strs (body e) (encode sep es ++ rest),
  push_nonempty-body strs e,
  split_loop-encode_then sep t (strs ++ body e ∷ []) es rest h.1,
  append_assoc strs (body e ∷ []) (map body es),
)

pub split_loop-encode :
    (sep : ℕ)
    → IsTerminator sep
    → (strs : List Text) (es : List LogEntry) → IsEncodable sep es
    → split_loop sep strs [] (encode sep es) ≡ (strs ++ map body es, [])
split_loop-encode sep t strs es h =
    ap (split_loop sep strs []) (sym (append-nil (encode sep es)))
    ∙ split_loop-encode_then sep t strs es [] h
    ∙ (unfold split_loop in refl)

cut-plain :
    (sep : ℕ) (tmp s rest : Text)
    → All (IsPlain sep) s
    → cut tmp (s ++ (44 ∷ rest)) ≡ some (tmp ++ s, rest)
unfolding cut
cut-plain sep tmp [] rest h = simp append-nil
cut-plain sep tmp (c ∷ s) rest h =
    ground (arith, h.0.0, cut-plain sep (tmp ++ c ∷ []) s rest h.1, append_assoc tmp (c ∷ []) s)

read_entry-body :
    (sep : ℕ) (e : LogEntry) → All (IsPlain sep) e.command → read_entry (body e) ≡ some e
read_entry-body sep e h =
    ap entry_of_cut (cut-plain sep [] e.command (to_string e.term) h)
    ∙ ap (λ t. some (record { command = e.command; term = t })) (atoi-to_string e.term)

pub read_entries-body :
    (sep : ℕ) (es : List LogEntry) → IsEncodable sep es → read_entries (map body es) ≡ some es
unfolding read_entries
read_entries-body sep [] h = refl
read_entries-body sep (e ∷ es) h = rw (read_entry-body sep e h.0, read_entries-body sep es h.1)

pub semicolon : IsTerminator 59
semicolon = record { no_comma = omega arith; no_numeral = λ c h. omega arith }

pub full_stop : IsTerminator 46
full_stop = record { no_comma = omega arith; no_numeral = λ c h. omega arith }

-- What the leader sends, `getCmdAndTerm` reads back entry by entry, if no command holds a comma or
-- a semicolon.
pub get_cmd_and_term-encode :
    (es : List LogEntry) → IsEncodable 59 es → get_cmd_and_term (encode 59 es) ≡ some es
unfolding get_cmd_and_term
get_cmd_and_term-encode es h =
    rw (split_loop-encode 59 semicolon [] es h) (read_entries-body 59 es h)
