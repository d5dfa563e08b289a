-- ===== src/ShardMaster/Codec/RoundTrip.antt =====
-- Reading back the text forms of groups and configurations.
use projects_cpp.Prelude.{
  ℕ, ◌≡◌, ◌≢◌, refl, sym, ap, ◌∙◌, some, List, [], ◌∷◌, ◌++◌, map, append-nil, append_assoc, arith,
  All, All-append,
}
use projects_cpp.Prelude.Int.{ℤ}
use projects_cpp.Prelude.Maps.{keys, put, DistinctKeys, put-absent, AreNew, AreNew-snoc}
use projects_cpp.Prelude.Text.{
  Text, to_string, stoi-to_string, IsNumeral, to_string-IsNumeral, to_string-cons,
}
use projects_cpp.Raft.Codec.{push_nonempty, split_loop}
use projects_cpp.Raft.Codec.RoundTrip.{split_loop-piece, split_loop-stop}
use projects_cpp.ShardMaster.Codec.{
  closed, group_text, get_group_ids_info_from_vector, with_servers, put_group, read_groups,
  and_first, read_ints, get_vector_of_int_from_string, get_shard_and_group_id,
  get_string_of_shard_and_group_id,
}

-- A character that separates nothing.
abbrev pub IsPlain : ℕ → Type 0
IsPlain c = (c ≢ 58) × (c ≢ 124) × (c ≢ 47)

-- A server's name.
abbrev pub IsName : Text → Type 0
IsName p = (p ≢ []) × All IsPlain p

abbrev pub HasNames : ℤ × List Text → Type 0
HasNames (gid, servers) = All IsName servers

abbrev pub IsPart : ℕ → Text → Type 0
IsPart sep p = (p ≢ []) × All (λ c. c ≢ sep) p

pub All-weaken {ℓ} :
    {A : Type ℓ} {P Q : A → Type 0} → ((a : A) → P a → Q a) → (xs : List A) → All P xs → All Q xs
All-weaken f [] h = tt
All-weaken f (x ∷ xs) h = (f x h.0, All-weaken f xs h.1)

pub split_loop-part :
    (sep : ℕ) (strs : List Text) (p rest : Text)
    → All (λ c. c ≢ sep) p
    → split_loop sep strs [] (p ++ (sep ∷ rest)) ≡ split_loop sep (push_nonempty strs p) [] rest
split_loop-part sep strs p rest h =
    split_loop-piece sep strs [] p (sep ∷ rest) h ∙ split_loop-stop sep strs p rest

pub push_nonempty-some :
    (strs : List Text) (p : Text) → p ≢ [] → push_nonempty strs p ≡ strs ++ p ∷ []
push_nonempty-some strs [] h = absurd (h refl)
push_nonempty-some strs (c ∷ p) h = refl

-- Cutting closed parts gives the parts.
pub split_loop-closed :
    (sep : ℕ) (strs ps : List Text)
    → All (IsPart sep) ps
    → split_loop sep strs [] (closed sep ps) ≡ (strs ++ ps, [])
split_loop-closed sep strs [] h = unfold split_loop in simp append-nil
split_loop-closed sep strs (p ∷ ps) h =
    split_loop-part sep strs p (closed sep ps) h.0.1
    ∙ ap (λ l. split_loop sep l [] (closed sep ps)) (push_nonempty-some strs p h.0.0)
    ∙ split_loop-closed sep (strs ++ p ∷ []) ps h.1
    ∙ ap (λ l. (l, [])) (append_assoc strs (p ∷ []) ps)

pub All-closed :
    (P : ℕ → Type 0) (sep : ℕ) (ps : List Text) → P sep → All (All P) ps → All P (closed sep ps)
All-closed P sep [] h hs = tt
All-closed P sep (p ∷ ps) h hs =
    All-append P p (sep ∷ closed sep ps) hs.0 (h, All-closed P sep ps h hs.1)

numeral-IsPlain : (c : ℕ) → IsNumeral c → IsPlain c
numeral-IsPlain c h = ground arith

pub to_string-IsName : (z : ℤ) → IsName (to_string z)
to_string-IsName z =
    let (c, s, e) = to_string-cons z in
    (
      (λ q. cons-ne c s (sym e ∙ q)),
      All-weaken numeral-IsPlain (to_string z) (to_string-IsNumeral z),
    )
  where
    cons-ne : (c : ℕ) (s : Text) → c ∷ s ≡ [] → ⊥
    cons-ne c s q = cc

colon-IsPart : (p : Text) → IsName p → IsPart 58 p
colon-IsPart p h = (h.0, All-weaken (λ c k. k.0) p h.1)

pub numerals-IsName : (zs : List ℤ) → All IsName (map to_string zs)
numerals-IsName [] = tt
numerals-IsName (z ∷ zs) = (to_string-IsName z, numerals-IsName zs)

read_ints-to_string : (zs : List ℤ) → read_ints (map to_string zs) ≡ some zs
unfolding read_ints
read_ints-to_string [] = refl
read_ints-to_string (z ∷ zs) =
    ap (λ o. and_first o (read_ints (map to_string zs))) (stoi-to_string z)
    ∙ ap (and_first (some z)) (read_ints-to_string zs)

read_ints-closed :
    (zs : List ℤ) → read_ints (split_loop 58 [] [] (closed 58 (map to_string zs))).0 ≡ some zs
read_ints-closed zs =
    ap (λ r. read_ints r.0)
      (split_loop-closed 58 [] (map to_string zs)
        (All-weaken colon-IsPart (map to_string zs) (numerals-IsName zs)))
    ∙ read_ints-to_string zs

pub get_vector_of_int-get_group_ids :
    (zs : List ℤ) → get_vector_of_int_from_string (get_group_ids_info_from_vector zs) ≡ some zs
unfolding get_vector_of_int_from_string
get_vector_of_int-get_group_ids zs = read_ints-closed zs

pub get_shard-get_string :
    (shard gid : ℤ)
    → get_shard_and_group_id (get_string_of_shard_and_group_id [] shard gid)
      ≡ some (shard ∷ gid ∷ [])
unfolding get_shard_and_group_id
get_shard-get_string shard gid = read_ints-closed (shard ∷ gid ∷ [])

-- One group is read back whole.
put_group-group_text :
    (g : ℤ × List Text) (groups : List (ℤ × List Text))
    → HasNames g
    → (split_loop 58 [] [] (group_text g) ≡ (to_string g.0 ∷ g.1, []))
      × (put_group (to_string g.0 ∷ g.1) groups ≡ some (put g.0 g.1 groups))
put_group-group_text (gid, servers) groups h = (
  split_loop-closed 58 [] (to_string gid ∷ servers)
      (colon-IsPart (to_string gid) (to_string-IsName gid), All-weaken colon-IsPart servers h),
  ap (λ o. with_servers o servers groups) (stoi-to_string gid),
)

pub read_groups-group_text :
    (groups acc : List (ℤ × List Text))
    → All HasNames groups
    → DistinctKeys (keys groups)
    → AreNew acc (keys groups)
    → read_groups [] (map group_text groups) (some acc) ≡ some (acc ++ groups)
unfolding read_groups
read_groups-group_text [] acc names distinct fresh = ap some (sym (append-nil acc))
read_groups-group_text ((gid, servers) ∷ groups) acc names distinct fresh =
    let (cut, putting) = put_group-group_text (gid, servers) acc names.0 in
    ap (λ r. read_groups r.1 (map group_text groups) (put_group r.0 acc)) cut
    ∙ ap (read_groups [] (map group_text groups)) putting
    ∙ ap (λ l. read_groups [] (map group_text groups) (some l)) (put-absent gid servers acc fresh.0)
    ∙ read_groups-group_text groups (acc ++ (gid, servers) ∷ []) names.1 distinct.1
        (AreNew-snoc acc gid servers (keys groups) fresh.1 distinct.0)
    ∙ ap some (append_assoc acc ((gid, servers) ∷ []) groups)
