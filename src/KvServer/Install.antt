-- ===== src/KvServer/Install.antt =====
-- A server that takes another's snapshot.
use projects_cpp.Prelude.{
  none-ne, and_then, ◌≡◌, ◌≢◌, refl, sym, ap, ◌∙◌, Option, none, some, Bool, true, false, ◌&&◌, not,
  List, [], ◌∷◌, ◌++◌, map, if◌then◌else◌,
}
use projects_cpp.Prelude.Int.{ℤ, pos, eqb_ℤ, minus_one}
use projects_cpp.Prelude.Text.{Text}
use projects_cpp.Raft.Codec.{push_nonempty, split_loop}
use projects_cpp.ShardMaster.Codec.{closed}
use projects_cpp.KvServer.{ApplyMsg, KvServer}
use projects_cpp.KvServer.Snapshot.{
  pair_text, seq_text, get_snap_shot, recover_parts, recovery_snap_shot, snap_shot_round,
}
use projects_cpp.KvServer.Snapshot.Pairs.{append-ne, closed-some}
use projects_cpp.KvServer.Snapshot.Read.{IsWritable, seqs-plain, recovery_snap_shot-get_snap_shot}
use projects_cpp.KvServer.Apply.{installed, recover, apply_msg}
use projects_cpp.KvServer.Agree.{Same, apply_all, apply_all-agree}

-- The message by which Raft hands a snapshot up.
abbrev pub snap_shot_msg : Text × ℤ → ApplyMsg
snap_shot_msg (text, index) = record {
  command_valid = false;
  command = [];
  command_index = pos 0;
  command_term = pos 0;
  last_included_index = index;
  snap_shot = text;
}

recover-some : (text : Text) (m : KvServer) → text ≢ [] → recover text m ≡ recovery_snap_shot text m
recover-some [] m h = absurd (h refl)
recover-some (c ∷ s) m h = refl

snap_shot-installed :
    (m n : KvServer)
    → IsWritable m
    → n.database ≡ []
    → n.client_seq_map ≡ []
    → (b : KvServer) × (apply_msg (snap_shot_msg (get_snap_shot m, m.last_applied_index)) n
        ≡ some b)
      × Same m b
unfolding apply_msg
snap_shot-installed m n w empty empty2 = (
  record n {
    last_applied_index = m.last_applied_index;
    database = m.database;
    client_seq_map = m.client_seq_map;
  },
  ap (installed m.last_applied_index) (
      recover-some (get_snap_shot m) n (
        append-ne (closed 46 (map pair_text m.database))
          (59 ∷ closed 46 (map seq_text m.client_seq_map)) (closed-some m.database w.some_data))
      ∙ recovery_snap_shot-get_snap_shot m n w empty empty2),
  record { last_applied_index = refl; database = refl; client_seq_map = refl },
)

taken :
    (exceeds : Bool) (m : KvServer) {s : Text × ℤ}
    → snap_shot_round exceeds m ≡ some s
    → s ≡ (get_snap_shot m, m.last_applied_index)
taken exceeds m {s = s} e = by_test (not (eqb_ℤ m.max_raft_state minus_one) && exceeds) e
  where
    by_test :
        (b : Bool)
        → (if b then some (get_snap_shot m, m.last_applied_index) else none) ≡ some s
        → s ≡ (get_snap_shot m, m.last_applied_index)
    by_test true e = the_some (sym e)
      where
        the_some :
            some s ≡ some (get_snap_shot m, m.last_applied_index)
            → s ≡ (get_snap_shot m, m.last_applied_index)
        the_some e = cc
    by_test false e = absurd (none-ne e)

-- A server without data and clients takes the snapshot that another has made, where that one has
-- data and clients, its keys are distinct, no key holds a space, and no key or value a full stop or
-- a semicolon: whatever messages that one then applies without a fault, the first applies them
-- behind the snapshot without a fault and has the same data, last requests and applied index.
pub snap_shot_replaces_log :
    (exceeds : Bool) (m n a : KvServer) (s : Text × ℤ) (msgs : List ApplyMsg)
    → IsWritable m
    → n.database ≡ []
    → n.client_seq_map ≡ []
    → snap_shot_round exceeds m ≡ some s
    → apply_all msgs m ≡ some a
    → (b : KvServer) × (apply_all (snap_shot_msg s ∷ msgs) n ≡ some b) × Same a b
snap_shot_replaces_log exceeds m n a s msgs w empty empty2 made runs =
    let (k, first, same) = snap_shot-installed m n w empty empty2 in
    let (b, rest, after) = apply_all-agree msgs m k a same runs in
    (
      b,
      ap (λ r. and_then (apply_msg (snap_shot_msg r) n) (apply_all msgs)) (taken exceeds m made)
          ∙ ap (λ o. and_then o (apply_all msgs)) first
          ∙ rest,
      after,
    )

-- The snapshot of a server without data, as after gets alone, is read past the end of its parts.
pub recovery_snap_shot-none :
    (m n : KvServer) → m.database ≡ [] → recovery_snap_shot (get_snap_shot m) n ≡ none
unfolding recovery_snap_shot split_loop
recovery_snap_shot-none m n empty =
    let seqs = closed 46 (map seq_text m.client_seq_map) in
    ap (λ db. recover_text (closed 46 (map pair_text db) ++ (59 ∷ seqs))) empty
    ∙ ap (λ r. recover_parts (push_nonempty r.0 r.1) n) (seqs-plain [] m.client_seq_map)
    ∙ one_part seqs
  where
    recover_text : Text → Option KvServer
    recover_text text =
        recover_parts (push_nonempty (split_loop 59 [] [] text).0 (split_loop 59 [] [] text).1) n

    one_part : (s : Text) → recover_parts (push_nonempty [] s) n ≡ none
    one_part [] = refl
    one_part (c ∷ s) = refl
