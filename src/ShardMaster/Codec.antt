-- ===== src/ShardMaster/Codec.antt =====
-- The text forms of 6.824/src/shardKv/shardmaster/common.h: numbers, groups of servers and
-- configurations cross the network as texts, each part closed by a separator.
pub mod RoundTrip
pub mod Configs
use projects_cpp.Prelude.{ℕ, Option, none, some, List, [], ◌∷◌, ◌++◌, map}
use projects_cpp.Prelude.Int.{ℤ}
use projects_cpp.Prelude.Maps.{put}
use projects_cpp.Prelude.Text.{Text, to_string, stoi}
use projects_cpp.Raft.Codec.{push_nonempty, split_loop}
use projects_cpp.ShardMaster.{Config}

-- Parts, each with its separator behind it.
abbrev pub closed : ℕ → List Text → Text
closed sep [] = []
closed sep (p ∷ ps) = p ++ (sep ∷ closed sep ps)

abbrev pub group_text : ℤ × List Text → Text
group_text (gid, servers) = closed b':' (to_string gid ∷ servers)

-- `getServersShardInfoFromMap`
abbrev pub get_servers_shard_info_from_map : List (ℤ × List Text) → Text
get_servers_shard_info_from_map servers = closed b'|' (map group_text servers)

-- `getGroupIdsInfoFromVector`
abbrev pub get_group_ids_info_from_vector : List ℤ → Text
get_group_ids_info_from_vector ids = closed b':' (map to_string ids)

-- `getStringOfShardAndGroupId`, which adds to the text that is there.
abbrev pub get_string_of_shard_and_group_id : Text → ℤ → ℤ → Text
get_string_of_shard_and_group_id text shard gid =
    text ++ closed b':' (to_string shard ∷ to_string gid ∷ [])

abbrev pub with_servers :
    Option ℤ → List Text → List (ℤ × List Text) → Option (List (ℤ × List Text))
with_servers none servers groups = none
with_servers (some gid) servers groups = some (put gid servers groups)

-- `num = stoi(info[0])` and `myMap[num] = info` without its first; `none` where `info` is empty or
-- starts with no number.
abbrev pub put_group : List Text → List (ℤ × List Text) → Option (List (ℤ × List Text))
put_group [] groups = none
put_group (number ∷ servers) groups = with_servers (stoi number) servers groups

-- The second loop of `getMapFromServersShardInfo`; `tmp` is not cleared between groups.
unfoldable pub read_groups :
    Text → List Text → Option (List (ℤ × List Text)) → Option (List (ℤ × List Text))
read_groups tmp strs none = none
read_groups tmp [] (some groups) = some groups
read_groups tmp (s ∷ strs) (some groups) =
    let (info, rest) = split_loop b':' [] tmp s in read_groups rest strs (put_group info groups)

unfoldable pub get_map_from_servers_shard_info : Text → Option (List (ℤ × List Text))
get_map_from_servers_shard_info text = read_groups [] (split_loop b'|' [] [] text).0 (some [])

abbrev pub and_first : Option ℤ → Option (List ℤ) → Option (List ℤ)
and_first none zs = none
and_first (some z) none = none
and_first (some z) (some zs) = some (z ∷ zs)

unfoldable pub read_ints : List Text → Option (List ℤ)
read_ints [] = some []
read_ints (s ∷ ss) = and_first (stoi s) (read_ints ss)

-- `GetVectorOfIntFromString`; `getShardAndGroupId` is the same text.
unfoldable pub get_vector_of_int_from_string : Text → Option (List ℤ)
get_vector_of_int_from_string text = read_ints (split_loop b':' [] [] text).0

unfoldable pub get_shard_and_group_id : Text → Option (List ℤ)
get_shard_and_group_id text = read_ints (split_loop b':' [] [] text).0

-- `getStringFromConfig`
abbrev pub get_string_from_config : Config → Text
get_string_from_config c = closed b'/' (
    to_string c.config_num
    ∷ get_group_ids_info_from_vector c.shards
    ∷ get_servers_shard_info_from_map c.groups
    ∷ [])

abbrev pub config_of : Option ℤ → Option (List ℤ) → Option (List (ℤ × List Text)) → Option Config
config_of (some num) (some shards) (some groups) =
    some (record { config_num = num; shards = shards; groups = groups })
config_of none shards groups = none
config_of (some num) none groups = none
config_of (some num) (some shards) none = none

-- Two parts stand for a configuration with no groups; with fewer the code reads past the end.
abbrev pub config_of_parts : List Text → Option Config
config_of_parts [] = none
config_of_parts (a ∷ []) = none
config_of_parts (a ∷ b ∷ []) = config_of (stoi a) (get_vector_of_int_from_string b) (some [])
config_of_parts (a ∷ b ∷ c ∷ rest) =
    config_of (stoi a) (get_vector_of_int_from_string b) (get_map_from_servers_shard_info c)

-- `QueryReply::getConfig`
unfoldable pub get_config : Text → Option Config
get_config text = config_of_parts (split_loop b'/' [] [] text).0
