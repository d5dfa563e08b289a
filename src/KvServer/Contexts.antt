-- ===== src/KvServer/Contexts.antt =====
-- The context of a request, over messages that are not for it.
use projects_cpp.Prelude.{
  ◌≡◌, ◌≢◌, refl, sym, ap, ◌∙◌, subst, ◌⊎◌, inl, inr, Option, none, some, true, false, List, [],
  ◌∷◌, All, Ensures, Ensures-some, and_then-some, Bool-cases,
}
use projects_cpp.Prelude.Int.{ℤ}
use projects_cpp.Prelude.Maps.{find, find-put_ne}
use projects_cpp.Prelude.Text.{Text}
use projects_cpp.KvServer.{Operation, ApplyMsg, OpContext, KvServer, get_operation}
use projects_cpp.KvServer.Snapshot.{with_maps, recover_parts, recovery_snap_shot}
use projects_cpp.KvServer.Apply.{
  recved, new_context, apply_operation, apply_parsed, installed, recover, apply_msg,
}
use projects_cpp.KvServer.Agree.{apply_all}

pub apply_msg-command :
    (msg : ApplyMsg) (m : KvServer)
    → msg.command_valid ≡ true
    → apply_msg msg m ≡ apply_parsed (get_operation msg) msg.command_index m
unfolding apply_msg
apply_msg-command msg m valid = rw valid refl

apply_msg-snap_shot :
    (msg : ApplyMsg) (m : KvServer)
    → msg.command_valid ≡ false
    → apply_msg msg m ≡ installed msg.last_included_index (recover msg.snap_shot m)
unfolding apply_msg
apply_msg-snap_shot msg m valid = rw valid refl

-- A message that is not for the request with this index.
abbrev pub IsElsewhere : ℤ → ApplyMsg → Type 0
IsElsewhere index msg = (msg.command_valid ≡ false) ⊎ (msg.command_index ≢ index)

module _ (index : ℤ) (m : KvServer) where
  -- The request with this index still waits, with the same context.
  abbrev Keeps : Option KvServer → Type 0
  Keeps = Ensures (λ n. find index n.request_map ≡ find index m.request_map)

  with_maps-Keeps :
      (db : Option (List (Text × Text))) (seqs : Option (List (ℤ × ℤ)))
      → Keeps (with_maps m db seqs)
  with_maps-Keeps none seqs = tt
  with_maps-Keeps (some db) none = tt
  with_maps-Keeps (some db) (some seqs) = refl

  recover_parts-Keeps : (strs : List Text) → Keeps (recover_parts strs m)
  recover_parts-Keeps [] = tt
  recover_parts-Keeps (s ∷ []) = tt
  recover_parts-Keeps (s ∷ t ∷ strs) = with_maps-Keeps _ _

  recovery-Keeps : (text : Text) → Keeps (recovery_snap_shot text m)
  unfolding recovery_snap_shot
  recovery-Keeps text = recover_parts-Keeps _

  recover-Keeps : (text : Text) → Keeps (recover text m)
  recover-Keeps [] = refl
  recover-Keeps (c ∷ s) = recovery-Keeps (c ∷ s)

  installed-Keeps : (i : ℤ) (o : Option KvServer) → Keeps o → Keeps (installed i o)
  installed-Keeps i none h = tt
  installed-Keeps i (some n) h = h

  recved-find :
      (i : ℤ) (o : Operation) (f : OpContext → OpContext) (ctx : Option OpContext)
      → i ≢ index
      → find index (recved i o f ctx m.request_map) ≡ find index m.request_map
  recved-find i o f none ne = refl
  recved-find i o f (some ctx) ne = find-put_ne index i _ m.request_map ne

  parsed-Keeps : (o : Option Operation) (i : ℤ) → i ≢ index → Keeps (apply_parsed o i m)
  unfolding apply_operation
  parsed-Keeps none i ne = tt
  parsed-Keeps (some o) i ne =
      recved-find i o (new_context o (find o.client_id m.client_seq_map) m.database)
        (find i m.request_map) ne

  apply_msg-Keeps : (msg : ApplyMsg) → IsElsewhere index msg → Keeps (apply_msg msg m)
  apply_msg-Keeps msg elsewhere = elim (Bool-cases msg.command_valid) [
    | inl on ↦
        subst Keeps (sym (apply_msg-command msg m on))
          (parsed-Keeps (get_operation msg) msg.command_index (at_other elsewhere on))
    | inr off ↦
        subst Keeps (sym (apply_msg-snap_shot msg m off))
          (installed-Keeps msg.last_included_index _ (recover-Keeps msg.snap_shot))
  ]
    where
      at_other : IsElsewhere index msg → msg.command_valid ≡ true → msg.command_index ≢ index
      at_other (inl off) on = absurd (true-ne-false (sym on ∙ off))
        where
          true-ne-false : true ≡ false → ⊥
          true-ne-false e = cc
      at_other (inr ne) on = ne

pub apply_all-Keeps :
    (index : ℤ) (msgs : List ApplyMsg) (m n : KvServer)
    → All (IsElsewhere index) msgs
    → apply_all msgs m ≡ some n
    → find index n.request_map ≡ find index m.request_map
apply_all-Keeps index [] m n h e = ap (find_of m) (sym e)
  where
    find_of : KvServer → Option KvServer → Option OpContext
    find_of d none = find index d.request_map
    find_of d (some k) = find index k.request_map
apply_all-Keeps index (msg ∷ msgs) m n h e =
    let (k, first, rest) = and_then-some (apply_msg msg m) (apply_all msgs) e in
    apply_all-Keeps index msgs k n h.1 rest
    ∙ Ensures-some (λ x. find index x.request_map ≡ find index m.request_map) (apply_msg msg m)
        (apply_msg-Keeps index m msg h.0) first
