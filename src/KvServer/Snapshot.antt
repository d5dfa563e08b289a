-- ===== src/KvServer/Snapshot.antt =====
-- `getSnapShot` and `recoverySnapShot` of 6.824/src/kvRaft/server.cpp: the state of a server as the
-- text "key value.key value.;client request.client request.".
pub mod Pairs
pub mod Read
use projects_cpp.Prelude.{
  ℕ, List, [], ◌∷◌, ◌++◌, map, Option, none, some, Bool, ◌&&◌, not, ◌==◌, if◌then◌else◌,
}
use projects_cpp.Prelude.Int.{ℤ, eqb_ℤ, minus_one}
use projects_cpp.Prelude.Maps.{put}
use projects_cpp.Prelude.Text.{Text, to_string, atoi}
use projects_cpp.Prelude.TextMaps.{put_text}
use projects_cpp.Raft.Codec.{push_nonempty, split_loop}
use projects_cpp.ShardMaster.Codec.{closed}
use projects_cpp.KvServer.{KvServer}

abbrev pub pair_text : Text × Text → Text
pair_text (k, v) = k ++ (b' ' ∷ v)

abbrev pub seq_text : ℤ × ℤ → Text
seq_text (client, request) = pair_text (to_string client, to_string request)

-- `getSnapShot`; each pair is closed by a full stop.
abbrev pub get_snap_shot : KvServer → Text
get_snap_shot m =
    closed b'.' (map pair_text m.database) ++ (b';' ∷ closed b'.' (map seq_text m.client_seq_map))

-- A pair at its first space. Without one the code makes a string from an iterator past the end.
unfoldable pub cut_pair : Text → Text → Option (Text × Text)
cut_pair tmp [] = none
cut_pair tmp (c ∷ s) =
    let rest = cut_pair (tmp ++ c ∷ []) s in if c == b' ' then some (tmp, s) else rest

abbrev pub put_pair : Option (Text × Text) → List (Text × Text) → Option (List (Text × Text))
put_pair none db = none
put_pair (some (k, v)) db = some (put_text k v db)

abbrev pub put_seq : Option (Text × Text) → List (ℤ × ℤ) → Option (List (ℤ × ℤ))
put_seq none seqs = none
put_seq (some (client, request)) seqs = some (put (atoi client) (atoi request) seqs)

-- The loop over `kvData`.
unfoldable pub read_data : List Text → Option (List (Text × Text)) → Option (List (Text × Text))
read_data strs none = none
read_data [] (some db) = some db
read_data (s ∷ strs) (some db) = read_data strs (put_pair (cut_pair [] s) db)

-- The loop over `clientSeq`.
unfoldable pub read_seqs : List Text → Option (List (ℤ × ℤ)) → Option (List (ℤ × ℤ))
read_seqs strs none = none
read_seqs [] (some seqs) = some seqs
read_seqs (s ∷ strs) (some seqs) = read_seqs strs (put_seq (cut_pair [] s) seqs)

abbrev pub with_maps :
    KvServer → Option (List (Text × Text)) → Option (List (ℤ × ℤ)) → Option KvServer
with_maps m (some db) (some seqs) = some (record m { database = db; client_seq_map = seqs })
with_maps m none seqs = none
with_maps m (some db) none = none

-- `str[0]` and `str[1]`; what is left in `tmp` behind the last full stop of the first goes into the
-- second. With fewer than two parts the code reads past the end.
abbrev pub recover_parts : List Text → KvServer → Option KvServer
recover_parts (pairs ∷ seqs ∷ rest) m =
    let (kv_data, tmp) = split_loop b'.' [] [] pairs in
    let (client_seq, tmp2) = split_loop b'.' [] tmp seqs in
    with_maps m (read_data kv_data (some m.database)) (read_seqs client_seq (some m.client_seq_map))
recover_parts _ m = none

-- `recoverySnapShot`, which adds to the maps that are there.
unfoldable pub recovery_snap_shot : Text → KvServer → Option KvServer
recovery_snap_shot text m =
    let (strs, tmp) = split_loop b';' [] [] text in recover_parts (push_nonempty strs tmp) m

-- One round of `snapShotLoop`, where `exceeds` is what `ExceedLogSize` returns: the snapshot and the
-- index that go to Raft.
abbrev pub snap_shot_round : Bool → KvServer → Option (Text × ℤ)
snap_shot_round exceeds m =
    if not (eqb_ℤ m.max_raft_state minus_one) && exceeds
    then some (get_snap_shot m, m.last_applied_index)
    else none
