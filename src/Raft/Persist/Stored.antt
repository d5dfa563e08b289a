-- ===== src/Raft/Persist/Stored.antt =====
-- Which commands and which bytes behind the buffer `deserialize` reads back, and where it stops.
use projects_cpp.Prelude.{ℕ, ◌≡◌, refl, ◌≢◌, List, [], ◌∷◌, ◌++◌, arith, All, All-append}
use projects_cpp.Prelude.Int.{ℤ}
use projects_cpp.Prelude.Text.{Text, to_string, to_string-IsNumeral, IsNumeral}
use projects_cpp.Raft.State.{LogEntry, Persister}
use projects_cpp.Raft.Codec.{entry, encode}
use projects_cpp.Raft.Persist.{persist_text, up_to_nul}

-- A character that `deserialize` keeps: no comma, full stop, semicolon or NUL.
abbrev pub IsStored : ℕ → Type 0
IsStored c = (c ≢ 44) × (c ≢ 46) × (c ≢ 59) × (c ≢ 0)

-- No command holds a comma, a full stop, a semicolon or a NUL.
abbrev pub IsStorable : List LogEntry → Type 0
IsStorable = All (λ e. All IsStored e.command)

-- Up to the first NUL, the bytes behind the buffer hold no full stop and no semicolon.
abbrev pub IsHarmless : Text → Type 0
IsHarmless behind = All (λ c. (c ≢ 46) × (c ≢ 59)) (up_to_nul behind)

pub up_to_nul-append :
    (s rest : Text) → All (λ c. c ≢ 0) s → up_to_nul (s ++ rest) ≡ s ++ up_to_nul rest
unfolding up_to_nul
up_to_nul-append [] rest h = refl
up_to_nul-append (c ∷ s) rest h = ground (arith, h.0, up_to_nul-append s rest h.1)

numeral-nonzero : (s : Text) → All IsNumeral s → All (λ c. c ≢ 0) s
numeral-nonzero [] h = tt
numeral-nonzero (c ∷ s) h = (ground (arith, h.0), numeral-nonzero s h.1)

command-nonzero : (s : Text) → All IsStored s → All (λ c. c ≢ 0) s
command-nonzero [] h = tt
command-nonzero (c ∷ s) h = (h.0.3, command-nonzero s h.1)

number-nonzero :
    (z : ℤ) (rest : Text) → All (λ c. c ≢ 0) rest → All (λ c. c ≢ 0) (to_string z ++ rest)
number-nonzero z rest h =
    All-append (λ c. c ≢ 0) (to_string z) rest
      (numeral-nonzero (to_string z) (to_string-IsNumeral z)) h

encode-nonzero : (es : List LogEntry) → IsStorable es → All (λ c. c ≢ 0) (encode 46 es)
unfolding encode entry
encode-nonzero [] h = tt
encode-nonzero (e ∷ es) h =
    All-append (λ c. c ≢ 0) (entry 46 e) (encode 46 es)
      (All-append (λ c. c ≢ 0) e.command (44 ∷ (to_string e.term ++ (46 ∷ [])))
        (command-nonzero e.command h.0)
        (omega arith, number-nonzero e.term (46 ∷ []) (omega arith)))
      (encode-nonzero es h.1)

pub persist_text-nonzero : (p : Persister) → IsStorable p.logs → All (λ c. c ≢ 0) (persist_text p)
unfolding persist_text
persist_text-nonzero p h =
    number-nonzero p.cur_term _
      (omega arith, number-nonzero p.voted_for _ (omega arith, encode-nonzero p.logs h))

pub harmless-ne :
    (s : Text) → All (λ c. (c ≢ 46) × (c ≢ 59)) s → All (λ c. c ≢ 46) s × All (λ c. c ≢ 59) s
harmless-ne [] h = (tt, tt)
harmless-ne (c ∷ s) h = let (k, l) = harmless-ne s h.1 in ((h.0.0, k), (h.0.1, l))
