-- ===== src/ShardMaster.antt =====
-- The shard master of 6.824/src/shardKv/shardmaster: configurations of shards over groups of
-- servers, their text form, the balancing of shards, and the service on Raft.
pub mod Codec
pub mod Balance
pub mod Service
pub mod Apply
pub mod History
pub mod Groups
pub mod Changes
pub mod Repeats
pub mod Tests
use projects_cpp.Prelude.{ℕ, List, [], replicate}
use projects_cpp.Prelude.Int.{ℤ, pos}
use projects_cpp.Prelude.Text.{Text}

-- `NShards`
abbrev pub n_shards : ℕ
n_shards = 10

-- `shards` has the group of each shard, 0 for none; `groups` the servers of each group.
pub record Config : Type 0 where
  pub config_num : ℤ
  pub shards : List ℤ
  pub groups : List (ℤ × List Text)

-- The constructor of `Config`.
abbrev pub empty_config : Config
empty_config = record { config_num = pos 0; shards = replicate n_shards (pos 0); groups = [] }
