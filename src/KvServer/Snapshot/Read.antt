-- ===== src/KvServer/Snapshot/Read.antt =====
-- Reading a whole snapshot back.
use projects_cpp.Prelude.{
  ◌≡◌, ◌≢◌, refl, sym, ap, ap₂, ◌∙◌, some, List, [], ◌∷◌, ◌++◌, map, append-nil, All, Option, subst,
}
use projects_cpp.Prelude.Int.{ℤ}
use projects_cpp.Prelude.Maps.{keys, DistinctKeys, AreNew}
use projects_cpp.Prelude.Text.{Text}
use projects_cpp.Prelude.TextMaps.{texts, DistinctTexts, AreNewTexts}
use projects_cpp.Raft.Codec.{push_nonempty, split_loop}
use projects_cpp.Raft.Codec.RoundTrip.{split_loop-piece}
use projects_cpp.ShardMaster.Codec.{closed}
use projects_cpp.ShardMaster.Codec.RoundTrip.{
  IsPart, split_loop-part, split_loop-closed, push_nonempty-some,
}
use projects_cpp.KvServer.{KvServer}
use projects_cpp.KvServer.Snapshot.{
  pair_text, seq_text, get_snap_shot, read_data, read_seqs, with_maps, recover_parts,
  recovery_snap_shot,
}
use projects_cpp.KvServer.Snapshot.Pairs.{
  IsPair, cons-ne, split_loop-end, read_data-pairs, read_seqs-pairs, pairs-AreParts, written,
  seqs-written, written-ArePairs, closed-plain, closed-some,
}

-- The second half holds no semicolon.
pub seqs-plain :
    (strs : List Text) (qs : List (ℤ × ℤ))
    → split_loop 59 strs [] (closed 46 (map seq_text qs)) ≡ (strs, closed 46 (map seq_text qs))
seqs-plain strs qs =
    let second = closed 46 (map seq_text qs) in
    ap (split_loop 59 strs []) (sym (append-nil second))
    ∙ split_loop-piece 59 strs [] second [] (
        subst (λ ss. All (λ c. c ≢ 59) (closed 46 ss)) (sym (seqs-written qs))
          (closed-plain (map written qs) (written-ArePairs qs)))
    ∙ split_loop-end 59 strs second

-- The snapshot is cut into its two halves.
halves :
    (ps qs : List (Text × Text))
    → ps ≢ []
    → qs ≢ []
    → All IsPair ps
    → All IsPair qs
    → split_loop 59 [] [] (closed 46 (map pair_text ps) ++ (59 ∷ closed 46 (map pair_text qs)))
      ≡ (closed 46 (map pair_text ps) ∷ [], closed 46 (map pair_text qs))
halves ps qs some1 some2 plain1 plain2 =
    let first = closed 46 (map pair_text ps) in
    let second = closed 46 (map pair_text qs) in
    split_loop-part 59 [] first second (closed-plain ps plain1)
    ∙ ap (λ l. split_loop 59 l [] second) (push_nonempty-some [] first (closed-some ps some1))
    ∙ ap (split_loop 59 (first ∷ []) []) (sym (append-nil second))
    ∙ split_loop-piece 59 (first ∷ []) [] second [] (closed-plain qs plain2)
    ∙ split_loop-end 59 (first ∷ []) second

-- What a snapshot holds, if it is to be read back.
pub record IsWritable (m : KvServer) : Type 0 where
  pub some_data : m.database ≢ []
  pub some_client : m.client_seq_map ≢ []
  pub pairs : All IsPair m.database
  pub distinct : DistinctTexts (texts m.database)
  pub distinct_clients : DistinctKeys (keys m.client_seq_map)

map-some {ℓ} : {A B : Type ℓ} (f : A → B) (xs : List A) → xs ≢ [] → map f xs ≢ []
map-some f [] h = absurd (h refl)
map-some f (x ∷ xs) h = cons-ne (f x) (map f xs)

recover_parts-read :
    (m n : KvServer)
    → IsWritable m
    → n.database ≡ []
    → n.client_seq_map ≡ []
    → recover_parts
        (closed 46 (map pair_text m.database) ∷ closed 46 (map seq_text m.client_seq_map) ∷ [])
        n
      ≡ some (record n { database = m.database; client_seq_map = m.client_seq_map })
recover_parts-read m n w empty empty2 =
    ap (λ r. recover_cut r (split_loop 46 [] r.1 (closed 46 (map seq_text m.client_seq_map))))
      (split_loop-closed 46 [] (map pair_text m.database) (pairs-AreParts m.database w.pairs))
    ∙ ap (recover_cut (map pair_text m.database, [])) (
        split_loop-closed 46 [] (map seq_text m.client_seq_map) (
          subst (All (IsPart 46)) (sym (seqs-written m.client_seq_map))
            (pairs-AreParts (map written m.client_seq_map) (written-ArePairs m.client_seq_map))))
    ∙ ap₂ (with_maps n)
        (ap (λ l. read_data (map pair_text m.database) (some l)) empty
          ∙ read_data-pairs m.database [] w.pairs w.distinct (none_new m.database))
        (ap (λ l. read_seqs (map seq_text m.client_seq_map) (some l)) empty2
          ∙ read_seqs-pairs m.client_seq_map [] w.distinct_clients (none_new2 m.client_seq_map))
  where
    recover_cut : List Text × Text → List Text × Text → Option KvServer
    recover_cut r s =
        with_maps n (read_data r.0 (some n.database)) (read_seqs s.0 (some n.client_seq_map))

    none_new : (ps : List (Text × Text)) → AreNewTexts [] (texts ps)
    none_new [] = tt
    none_new (p ∷ ps) = (tt, none_new ps)

    none_new2 : (ps : List (ℤ × ℤ)) → AreNew {V = ℤ} [] (keys ps)
    none_new2 [] = tt
    none_new2 (p ∷ ps) = (tt, none_new2 ps)

pub recovery_snap_shot-get_snap_shot :
    (m n : KvServer)
    → IsWritable m
    → n.database ≡ []
    → n.client_seq_map ≡ []
    → recovery_snap_shot (get_snap_shot m) n
      ≡ some (record n { database = m.database; client_seq_map = m.client_seq_map })
unfolding recovery_snap_shot
recovery_snap_shot-get_snap_shot m n w empty empty2 =
    let first = closed 46 (map pair_text m.database) in
    let qs = map written m.client_seq_map in
    let second = closed 46 (map pair_text qs) in
    ap (λ ss. split_then (first ++ (59 ∷ closed 46 ss))) (seqs-written m.client_seq_map)
    ∙ ap (λ r. recover_parts (push_nonempty r.0 r.1) n)
        (halves m.database qs w.some_data (map-some written m.client_seq_map w.some_client) w.pairs
          (written-ArePairs m.client_seq_map))
    ∙ ap (λ l. recover_parts l n)
        (push_nonempty-some (first ∷ []) second
          (closed-some qs (map-some written m.client_seq_map w.some_client)))
    ∙ ap (λ ss. recover_parts (first ∷ closed 46 ss ∷ []) n) (sym (seqs-written m.client_seq_map))
    ∙ recover_parts-read m n w empty empty2
  where
    split_then : Text → Option KvServer
    split_then text =
        recover_parts (push_nonempty (split_loop 59 [] [] text).0 (split_loop 59 [] [] text).1) n
