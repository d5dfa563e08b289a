-- ===== src/ShardMaster/Codec/Configs.antt =====
-- The round trips of groups and of whole configurations.
use projects_cpp.Prelude.{ℕ, ◌≡◌, ◌≢◌, refl, ap, ◌∙◌, some, List, [], ◌∷◌, ◌++◌, map, arith, All}
use projects_cpp.Prelude.Int.{ℤ}
use projects_cpp.Prelude.Maps.{keys, DistinctKeys}
use projects_cpp.Prelude.Text.{Text, to_string, stoi-to_string}
use projects_cpp.Raft.Codec.{push_nonempty, split_loop}
use projects_cpp.ShardMaster.{Config}
use projects_cpp.ShardMaster.Codec.{
  closed, group_text, get_servers_shard_info_from_map, get_group_ids_info_from_vector, read_groups,
  get_map_from_servers_shard_info, get_vector_of_int_from_string, get_string_from_config, config_of,
  config_of_parts, get_config,
}
use projects_cpp.ShardMaster.Codec.RoundTrip.{
  IsPlain, IsName, HasNames, IsPart, All-weaken, All-closed, split_loop-part, push_nonempty-some,
  split_loop-closed, to_string-IsName, numerals-IsName, read_groups-group_text,
  get_vector_of_int-get_group_ids,
}

append-ne : (p q : Text) → p ≢ [] → p ++ q ≢ []
append-ne [] q h e = h refl
append-ne (c ∷ p) q h e = cons-ne c (p ++ q) e
  where
    cons-ne : (c : ℕ) (s : Text) → c ∷ s ≡ [] → ⊥
    cons-ne c s e = cc

-- A group's text holds neither '|' nor '/'.
group_text-IsPart :
    (sep : ℕ)
    → ((c : ℕ) → IsPlain c → c ≢ sep)
    → 58 ≢ sep
    → (g : ℤ × List Text) → HasNames g
    → IsPart sep (group_text g)
group_text-IsPart sep plain colon (gid, servers) h = (
  append-ne (to_string gid) (58 ∷ closed 58 servers) (to_string-IsName gid).0,
  All-closed (λ c. c ≢ sep) 58 (to_string gid ∷ servers) colon
      (
        All-weaken plain (to_string gid) (to_string-IsName gid).1,
        All-weaken (λ p k. All-weaken plain p k.1) servers h,
      ),
)

groups-parts :
    (sep : ℕ)
    → ((c : ℕ) → IsPlain c → c ≢ sep)
    → 58 ≢ sep
    → (groups : List (ℤ × List Text)) → All HasNames groups
    → All (IsPart sep) (map group_text groups)
groups-parts sep plain colon [] h = tt
groups-parts sep plain colon (g ∷ groups) h =
    (group_text-IsPart sep plain colon g h.0, groups-parts sep plain colon groups h.1)

-- Groups with distinct numbers, and names that are not empty and hold no separator, are read back.
pub get_map-get_servers :
    (groups : List (ℤ × List Text))
    → All HasNames groups
    → DistinctKeys (keys groups)
    → get_map_from_servers_shard_info (get_servers_shard_info_from_map groups) ≡ some groups
unfolding get_map_from_servers_shard_info
get_map-get_servers groups names distinct =
    ap (λ r. read_groups [] r.0 (some []))
      (split_loop-closed 124 [] (map group_text groups)
        (groups-parts 124 (λ c k. k.1) (λ e. omega arith) groups names))
    ∙ read_groups-group_text groups [] names distinct (none_there (keys groups))
  where
    none_there : (ks : List ℤ) → All (λ k. All (λ j. j ≢ k) (keys {V = List Text} [])) ks
    none_there [] = tt
    none_there (k ∷ ks) = (tt, none_there ks)

parts_of :
    (a b c : Text)
    → IsPart 47 a
    → IsPart 47 b
    → All (λ x. x ≢ 47) c
    → split_loop 47 [] [] (closed 47 (a ∷ b ∷ c ∷ [])) ≡ (push_nonempty (a ∷ b ∷ []) c, [])
parts_of a b c ha hb hc =
    split_loop-part 47 [] a (b ++ (47 ∷ (c ++ (47 ∷ [])))) ha.1
    ∙ ap (λ l. split_loop 47 l [] (b ++ (47 ∷ (c ++ (47 ∷ []))))) (push_nonempty-some [] a ha.0)
    ∙ split_loop-part 47 (a ∷ []) b (c ++ (47 ∷ [])) hb.1
    ∙ ap (λ l. split_loop 47 l [] (c ++ (47 ∷ []))) (push_nonempty-some (a ∷ []) b hb.0)
    ∙ split_loop-part 47 (a ∷ b ∷ []) c [] hc
    ∙ (unfold split_loop in refl)

slash-IsPart : (p : Text) → IsName p → IsPart 47 p
slash-IsPart p h = (h.0, All-weaken (λ c k. k.2) p h.1)

ints-IsPart : (zs : List ℤ) → zs ≢ [] → IsPart 47 (get_group_ids_info_from_vector zs)
ints-IsPart [] h = absurd (h refl)
ints-IsPart (z ∷ zs) h = (
  append-ne (to_string z) (58 ∷ closed 58 (map to_string zs)) (to_string-IsName z).0,
  All-closed (λ c. c ≢ 47) 58 (map to_string (z ∷ zs)) (λ e. omega arith)
      (All-weaken (λ p k. (slash-IsPart p k).1) (map to_string (z ∷ zs))
        (numerals-IsName (z ∷ zs))),
)

groups_text-plain :
    (groups : List (ℤ × List Text))
    → All HasNames groups
    → All (λ x. x ≢ 47) (get_servers_shard_info_from_map groups)
groups_text-plain groups names =
    All-closed (λ c. c ≢ 47) 124 (map group_text groups) (λ e. omega arith)
      (All-weaken (λ p k. k.1) (map group_text groups)
        (groups-parts 47 (λ c k. k.2) (λ e. omega arith) groups names))

-- What the parts of a configuration's text are read as.
config_of_parts-push :
    (c : Config)
    → All HasNames c.groups
    → DistinctKeys (keys c.groups)
    → config_of_parts (
        push_nonempty
          (to_string c.config_num ∷ get_group_ids_info_from_vector c.shards ∷ [])
          (get_servers_shard_info_from_map c.groups))
      ≡ config_of (some c.config_num) (some c.shards) (some c.groups)
config_of_parts-push c names distinct = by_groups c.groups names distinct
  where
    by_groups :
        (groups : List (ℤ × List Text))
        → All HasNames groups
        → DistinctKeys (keys groups)
        → config_of_parts (
            push_nonempty
              (to_string c.config_num ∷ get_group_ids_info_from_vector c.shards ∷ [])
              (get_servers_shard_info_from_map groups))
          ≡ config_of (some c.config_num) (some c.shards) (some groups)
    by_groups [] names distinct =
        ap
          (λ o.
            config_of o (get_vector_of_int_from_string (get_group_ids_info_from_vector c.shards))
              (some []))
          (stoi-to_string c.config_num)
        ∙ ap (λ o. config_of (some c.config_num) o (some []))
            (get_vector_of_int-get_group_ids c.shards)
    by_groups (g ∷ groups) names distinct =
        ap config_of_parts (
          push_nonempty-some (to_string c.config_num ∷ get_group_ids_info_from_vector c.shards ∷ [])
            (get_servers_shard_info_from_map (g ∷ groups))
            (append-ne (group_text g) (124 ∷ get_servers_shard_info_from_map groups)
              (group_text-IsPart 124 (λ c k. k.1) (λ e. omega arith) g names.0).0))
        ∙ ap
            (λ o.
              config_of o (get_vector_of_int_from_string (get_group_ids_info_from_vector c.shards))
                (get_map_from_servers_shard_info (get_servers_shard_info_from_map (g ∷ groups))))
            (stoi-to_string c.config_num)
        ∙ ap
            (λ o.
              config_of (some c.config_num) o
                (get_map_from_servers_shard_info (get_servers_shard_info_from_map (g ∷ groups))))
            (get_vector_of_int-get_group_ids c.shards)
        ∙ ap (config_of (some c.config_num) (some c.shards))
            (get_map-get_servers (g ∷ groups) names distinct)

-- A configuration that has shards, groups with distinct numbers, and server names that are not
-- empty and hold no separator, is read back from its text.
pub get_config-get_string :
    (c : Config)
    → c.shards ≢ []
    → All HasNames c.groups
    → DistinctKeys (keys c.groups)
    → get_config (get_string_from_config c) ≡ some c
unfolding get_config
get_config-get_string c some_shards names distinct =
    ap (λ r. config_of_parts r.0)
      (parts_of (to_string c.config_num) (get_group_ids_info_from_vector c.shards)
        (get_servers_shard_info_from_map c.groups)
        (slash-IsPart (to_string c.config_num) (to_string-IsName c.config_num))
        (ints-IsPart c.shards some_shards) (groups_text-plain c.groups names))
    ∙ config_of_parts-push c names distinct
