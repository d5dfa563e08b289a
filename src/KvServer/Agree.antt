-- ===== src/KvServer/Agree.antt =====
-- Servers that apply the same messages.
use projects_cpp.Prelude.{
  none-ne, and_then, subst, ◌≡◌, refl, ap, ◌∙◌, Option, none, some, Bool, true, false, List, [],
  ◌∷◌, if◌then◌else◌,
}
use projects_cpp.Prelude.Int.{ℤ}
use projects_cpp.Prelude.Text.{Text}
use projects_cpp.KvServer.{Operation, ApplyMsg, KvServer, get_operation}
use projects_cpp.KvServer.Snapshot.{with_maps, recover_parts, recovery_snap_shot}
use projects_cpp.KvServer.Apply.{apply_operation, apply_parsed, installed, recover, apply_msg}

-- The rounds of `applyLoop`, one for each message.
abbrev pub apply_all : List ApplyMsg → KvServer → Option KvServer
apply_all [] m = some m
apply_all (msg ∷ msgs) m = and_then (apply_msg msg m) (apply_all msgs)

-- The same state machine: the waiting requests and the limit of the log aside.
pub record Same (m n : KvServer) : Type 0 where
  pub last_applied_index : m.last_applied_index ≡ n.last_applied_index
  pub database : m.database ≡ n.database
  pub client_seq_map : m.client_seq_map ≡ n.client_seq_map

-- `p` is `o`, up to what `Same` leaves aside.
abbrev SameResult : Option KvServer → Option KvServer → Type 0
SameResult none p = p ≡ none
SameResult (some a) p = (b : KvServer) × (p ≡ some b) × Same a b

-- The messages of one server run on another with the requests and the limit of its own.
abbrev with_own : KvServer → KvServer → KvServer
with_own n m = record n {
  last_applied_index = m.last_applied_index;
  database = m.database;
  client_seq_map = m.client_seq_map;
}

module _ (n m : KvServer) where
  with_own-Same : Same m (with_own n m)
  with_own-Same = record { last_applied_index = refl; database = refl; client_seq_map = refl }

  with_maps-Same :
      (db : Option (List (Text × Text))) (seqs : Option (List (ℤ × ℤ)))
      → SameResult (with_maps m db seqs) (with_maps (with_own n m) db seqs)
  with_maps-Same none seqs = refl
  with_maps-Same (some db) none = refl
  with_maps-Same (some db) (some seqs) =
      (_, refl, record { last_applied_index = refl; database = refl; client_seq_map = refl })

  recover_parts-Same :
      (strs : List Text) → SameResult (recover_parts strs m) (recover_parts strs (with_own n m))
  recover_parts-Same [] = refl
  recover_parts-Same (s ∷ []) = refl
  recover_parts-Same (s ∷ t ∷ strs) = with_maps-Same _ _

  recovery-Same :
      (text : Text)
      → SameResult (recovery_snap_shot text m) (recovery_snap_shot text (with_own n m))
  unfolding recovery_snap_shot
  recovery-Same text = recover_parts-Same _

  recover-Same : (text : Text) → SameResult (recover text m) (recover text (with_own n m))
  recover-Same [] =
      (_, refl, record { last_applied_index = refl; database = refl; client_seq_map = refl })
  recover-Same (c ∷ s) = recovery-Same (c ∷ s)

  parsed-Same :
      (o : Option Operation) (index : ℤ)
      → SameResult (apply_parsed o index m) (apply_parsed o index (with_own n m))
  unfolding apply_operation
  parsed-Same none index = refl
  parsed-Same (some o) index =
      (_, refl, record { last_applied_index = refl; database = refl; client_seq_map = refl })

installed-Same :
    (index : ℤ) (o p : Option KvServer)
    → SameResult o p
    → SameResult (installed index o) (installed index p)
installed-Same index none p h = ap (installed index) h
installed-Same index (some a) p (b, e, same) = (
  record b { last_applied_index = index },
  ap (installed index) e,
  record {
    last_applied_index = refl;
    database = same.database;
    client_seq_map = same.client_seq_map;
  },
)

apply_msg-own :
    (msg : ApplyMsg) (n m : KvServer) → SameResult (apply_msg msg m) (apply_msg msg (with_own n m))
unfolding apply_msg
apply_msg-own msg n m = by_kind msg.command_valid
  where
    by_kind :
        (valid : Bool)
        → SameResult
            (if valid
              then apply_parsed (get_operation msg) msg.command_index m
              else installed msg.last_included_index (recover msg.snap_shot m))
            (if valid
              then apply_parsed (get_operation msg) msg.command_index (with_own n m)
              else installed msg.last_included_index (recover msg.snap_shot (with_own n m)))
    by_kind true = parsed-Same n m (get_operation msg) msg.command_index
    by_kind false = installed-Same msg.last_included_index _ _ (recover-Same n m msg.snap_shot)

own-Same : (m n : KvServer) → Same m n → with_own n m ≡ n
own-Same m n same = λ i. record n {
  last_applied_index = same.last_applied_index i;
  database = same.database i;
  client_seq_map = same.client_seq_map i;
}

apply_msg-Same :
    (msg : ApplyMsg) (m n : KvServer) → Same m n → SameResult (apply_msg msg m) (apply_msg msg n)
apply_msg-Same msg m n same =
    subst (λ k. SameResult (apply_msg msg m) (apply_msg msg k)) (own-Same m n same)
      (apply_msg-own msg n m)

-- A step that agrees on servers that are the same, after results that are.
and_then-Same :
    (f : KvServer → Option KvServer) (a : KvServer)
    → ((x y : KvServer) → Same x y → f x ≡ some a → (b : KvServer) × (f y ≡ some b) × Same a b)
    → (o p : Option KvServer) → SameResult o p
    → and_then o f ≡ some a
    → (b : KvServer) × (and_then p f ≡ some b) × Same a b
and_then-Same f a agree none p h e = absurd (none-ne e)
and_then-Same f a agree (some x) p (y, runs, near) e =
    let (b, rest, after) = agree x y near e in (b, ap (λ o. and_then o f) runs ∙ rest, after)

-- If two servers have the same data, the same last requests of clients and the same applied index,
-- whatever requests wait at each, and one of them applies messages without a fault, so does the
-- other, and they have the same then too.
pub apply_all-agree :
    (msgs : List ApplyMsg) (m n a : KvServer)
    → Same m n
    → apply_all msgs m ≡ some a
    → (b : KvServer) × (apply_all msgs n ≡ some b) × Same a b
apply_all-agree [] m n a same e = (n, refl, subst (λ k. Same k n) (the_some e) same)
  where
    the_some : some m ≡ some a → m ≡ a
    the_some e = cc
apply_all-agree (msg ∷ msgs) m n a same e =
    and_then-Same (apply_all msgs) a (λ x y near f. apply_all-agree msgs x y a near f)
      (apply_msg msg m) (apply_msg msg n) (apply_msg-Same msg m n same) e
