-- ===== src/KvServer/Snapshot/Pairs.antt =====
-- Reading the pairs of a snapshot back.
use projects_cpp.Prelude.{
  ℕ, ◌≡◌, ◌≢◌, refl, sym, ap, ap₂, ◌∙◌, some, List, [], ◌∷◌, ◌++◌, map, append-nil, append_assoc,
  arith, All, All-append,
}
use projects_cpp.Prelude.Int.{ℤ}
use projects_cpp.Prelude.Maps.{keys, put, DistinctKeys, put-absent, AreNew, AreNew-snoc}
use projects_cpp.Prelude.Text.{Text, to_string, atoi-to_string, IsNumeral, to_string-IsNumeral}
use projects_cpp.Prelude.TextMaps.{
  texts, DistinctTexts, put_text-absent, AreNewTexts, AreNewTexts-snoc,
}
use projects_cpp.Raft.Codec.{split_loop}
use projects_cpp.ShardMaster.Codec.{closed}
use projects_cpp.ShardMaster.Codec.RoundTrip.{IsPart, All-weaken, All-closed}
use projects_cpp.KvServer.Snapshot.{
  pair_text, seq_text, cut_pair, put_pair, put_seq, read_data, read_seqs,
}

-- A character of a value, which separates no parts, and one of a key.
abbrev pub IsPlain : ℕ → Type 0
IsPlain c = (c ≢ 46) × (c ≢ 59)

abbrev pub IsWord : ℕ → Type 0
IsWord c = (c ≢ 32) × IsPlain c

abbrev pub IsPair : Text × Text → Type 0
IsPair (k, v) = All IsWord k × All IsPlain v

numeral-IsWord : (c : ℕ) → IsNumeral c → IsWord c
numeral-IsWord c h = ground arith

word-IsPlain : (c : ℕ) → IsWord c → IsPlain c
word-IsPlain c h = h.1

seq-IsPair : (client request : ℤ) → IsPair (to_string client, to_string request)
seq-IsPair client request = (
  All-weaken numeral-IsWord (to_string client) (to_string-IsNumeral client),
  All-weaken (λ c h. (numeral-IsWord c h).1) (to_string request) (to_string-IsNumeral request),
)

-- A pair is cut at the space behind its key.
cut_pair-plain : (tmp k v : Text) → All IsWord k → cut_pair tmp (k ++ (32 ∷ v)) ≡ some (tmp ++ k, v)
unfolding cut_pair
cut_pair-plain tmp [] v h = simp append-nil
cut_pair-plain tmp (c ∷ k) v h =
    ground (arith, h.0.0, cut_pair-plain (tmp ++ c ∷ []) k v h.1, append_assoc tmp (c ∷ []) k)

pair-IsPlain : (p : Text × Text) → IsPair p → All IsPlain (pair_text p)
pair-IsPlain (k, v) h =
    All-append IsPlain k (32 ∷ v) (All-weaken word-IsPlain k h.0) (omega arith, h.1)

pub cons-ne {ℓ} : {A : Type ℓ} (x : A) (xs : List A) → x ∷ xs ≢ []
cons-ne x xs e = cc

pub append-ne : (p q : Text) → p ≢ [] → p ++ q ≢ []
append-ne [] q h e = h refl
append-ne (c ∷ p) q h e = cons-ne c (p ++ q) e

pair-some : (p : Text × Text) → pair_text p ≢ []
pair-some ([], v) = cons-ne 32 v
pair-some (c ∷ k, v) = cons-ne c (k ++ (32 ∷ v))

pub split_loop-end :
    (sep : ℕ) (strs : List Text) (tmp : Text) → split_loop sep strs tmp [] ≡ (strs, tmp)
unfolding split_loop
split_loop-end sep strs tmp = refl

-- Pairs with new and distinct keys are read back behind those that are there.
pub read_data-pairs :
    (ps acc : List (Text × Text))
    → All IsPair ps
    → DistinctTexts (texts ps)
    → AreNewTexts acc (texts ps)
    → read_data (map pair_text ps) (some acc) ≡ some (acc ++ ps)
unfolding read_data
read_data-pairs [] acc plain distinct new = ap some (sym (append-nil acc))
read_data-pairs ((k, v) ∷ ps) acc plain distinct new =
    ap (λ o. read_data (map pair_text ps) (put_pair o acc)) (cut_pair-plain [] k v plain.0.0)
    ∙ ap (λ l. read_data (map pair_text ps) (some l)) (put_text-absent k v acc new.0)
    ∙ read_data-pairs ps (acc ++ (k, v) ∷ []) plain.1 distinct.1
        (AreNewTexts-snoc acc k v (texts ps) new.1 distinct.0)
    ∙ ap some (append_assoc acc ((k, v) ∷ []) ps)

pub read_seqs-pairs :
    (ps acc : List (ℤ × ℤ))
    → DistinctKeys (keys ps)
    → AreNew acc (keys ps)
    → read_seqs (map seq_text ps) (some acc) ≡ some (acc ++ ps)
unfolding read_seqs
read_seqs-pairs [] acc distinct new = ap some (sym (append-nil acc))
read_seqs-pairs ((client, request) ∷ ps) acc distinct new =
    ap (λ o. read_seqs (map seq_text ps) (put_seq o acc))
      (cut_pair-plain [] (to_string client) (to_string request) (seq-IsPair client request).0)
    ∙ ap₂ (λ x y. read_seqs (map seq_text ps) (some (put x y acc))) (atoi-to_string client)
        (atoi-to_string request)
    ∙ ap (λ l. read_seqs (map seq_text ps) (some l)) (put-absent client request acc new.0)
    ∙ read_seqs-pairs ps (acc ++ (client, request) ∷ []) distinct.1
        (AreNew-snoc acc client request (keys ps) new.1 distinct.0)
    ∙ ap some (append_assoc acc ((client, request) ∷ []) ps)

-- The text of pairs holds no semicolon, and is cut into them at the full stops.
pub pairs-AreParts : (ps : List (Text × Text)) → All IsPair ps → All (IsPart 46) (map pair_text ps)
pairs-AreParts [] h = tt
pairs-AreParts (p ∷ ps) h = (
  (pair-some p, All-weaken (λ c k. k.0) (pair_text p) (pair-IsPlain p h.0)),
  pairs-AreParts ps h.1,
)

-- A client's request as a pair of texts.
abbrev pub written : ℤ × ℤ → Text × Text
written (client, request) = (to_string client, to_string request)

pub seqs-written : (ps : List (ℤ × ℤ)) → map seq_text ps ≡ map pair_text (map written ps)
seqs-written [] = refl
seqs-written ((client, request) ∷ ps) = ap (λ l. seq_text (client, request) ∷ l) (seqs-written ps)

pub written-ArePairs : (ps : List (ℤ × ℤ)) → All IsPair (map written ps)
written-ArePairs [] = tt
written-ArePairs ((client, request) ∷ ps) = (seq-IsPair client request, written-ArePairs ps)

pub closed-plain :
    (ps : List (Text × Text)) → All IsPair ps → All (λ c. c ≢ 59) (closed 46 (map pair_text ps))
closed-plain ps h = All-closed (λ c. c ≢ 59) 46 (map pair_text ps) (omega arith) (each ps h)
  where
    each : (ps : List (Text × Text)) → All IsPair ps → All (All (λ c. c ≢ 59)) (map pair_text ps)
    each [] h = tt
    each (p ∷ ps) h = (All-weaken (λ c k. k.1) (pair_text p) (pair-IsPlain p h.0), each ps h.1)

pub closed-some : (ps : List (Text × Text)) → ps ≢ [] → closed 46 (map pair_text ps) ≢ []
closed-some [] h = absurd (h refl)
closed-some (p ∷ ps) h = append-ne (pair_text p) (46 ∷ closed 46 (map pair_text ps)) (pair-some p)
