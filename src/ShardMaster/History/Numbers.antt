-- ===== src/ShardMaster/History/Numbers.antt =====
-- The numbers of the configurations and their places in the list.
use projects_cpp.Prelude.{
  Ensures-some, and_then, ℕ, zero, suc, ◌≡◌, inl, inr, refl, sym, ap, subst, ◌∙◌, Option, none,
  some, List, [], ◌∷◌, ◌++◌, append-nil, append_assoc, length, get_elem?, Option-cases, ◌⊎◌,
}
use projects_cpp.Prelude.Int.{pos, succ_ℤ}
use projects_cpp.ShardMaster.{Config}
use projects_cpp.ShardMaster.Balance.{Queues}
use projects_cpp.ShardMaster.Service.{ApplyMsg, ShardMaster, last_config}
use projects_cpp.ShardMaster.Apply.{apply_msg}
use projects_cpp.ShardMaster.History.{IsNext, apply_msg-IsNext}

abbrev pub IsNumbered : List Config → Type 0
IsNumbered cs = (i : ℕ) (c : Config) → get_elem? cs i ≡ some c → c.config_num ≡ pos i

last_config-at :
    (cs : List Config) (c : Config)
    → last_config cs ≡ some c
    → (k : ℕ) × (length cs ≡ suc k) × (get_elem? cs k ≡ some c)
last_config-at [] c e = absurd (none-ne e)
  where
    none-ne : {c : Config} → none ≡ some c → ⊥
    none-ne q = cc
last_config-at (d ∷ []) c e = (0, refl, e)
last_config-at (d ∷ f ∷ cs) c e =
    let (k, size, at) = last_config-at (f ∷ cs) c e in (suc k, ap suc size, at)

get_elem?-snoc :
    (cs : List Config) (d : Config) (i : ℕ) (c : Config)
    → get_elem? (cs ++ d ∷ []) i ≡ some c
    → (get_elem? cs i ≡ some c) ⊎ ((i ≡ length cs) × (d ≡ c))
get_elem?-snoc [] d zero c e = inr (refl, same e)
  where
    same : some d ≡ some c → d ≡ c
    same q = cc
get_elem?-snoc [] d (suc i) c e = inl e
get_elem?-snoc (f ∷ cs) d zero c e = inl e
get_elem?-snoc (f ∷ cs) d (suc i) c e = elim (get_elem?-snoc cs d i c e) [
  | inl k ↦ inl k
  | inr (k, l) ↦ inr (ap suc k, l)
]

IsNext-IsNumbered : (cs ds : List Config) → IsNext cs ds → IsNumbered cs → IsNumbered ds
IsNext-IsNumbered cs ds (inl e) h = subst IsNumbered (sym e) h
IsNext-IsNumbered cs ds (inr (c, d, last, e, num)) h = subst IsNumbered (sym e) (λ i f at.
    elim (get_elem?-snoc cs d i f at) [
      | inl k ↦ h i f k
      | inr (k, l) ↦ ap (λ (x : Config). x.config_num) (sym l) ∙ num ∙ next_place ∙ ap pos (sym k)
    ])
  where
    next_place : succ_ℤ c.config_num ≡ pos (length cs)
    next_place =
        let (k, size, at) = last_config-at cs c last in ap succ_ℤ (h k c at) ∙ ap pos (sym size)

module _ (q : Queues) (fuel : ℕ) where
  abbrev pub apply_all : List ApplyMsg → ShardMaster → Option ShardMaster
  apply_all [] m = some m
  apply_all (msg ∷ msgs) m = and_then (apply_msg q fuel msg m) (apply_all msgs)

  -- If each configuration has its place as its number, so it is after any messages that are applied
  -- without a fault, and the configurations from before are there, at the places they had.
  pub apply_all-IsNumbered :
      (msgs : List ApplyMsg) (m n : ShardMaster)
      → IsNumbered m.configs
      → apply_all msgs m ≡ some n
      → IsNumbered n.configs × ((more : List Config) × (n.configs ≡ m.configs ++ more))
  apply_all-IsNumbered [] m n h e = (
    subst IsNumbered (ap configs_of e) h,
    ([], sym (ap configs_of e) ∙ sym (append-nil m.configs)),
  )
    where
      configs_of : Option ShardMaster → List Config
      configs_of none = []
      configs_of (some x) = x.configs
  apply_all-IsNumbered (msg ∷ msgs) m n h e = elim (Option-cases (apply_msg q fuel msg m)) [
    | inl stuck ↦ absurd (none-ne (sym (ap (λ o. and_then o (apply_all msgs)) stuck) ∙ e))
    | inr (a, first) ↦
        let step =
          Ensures-some (λ x. IsNext m.configs x.configs) (apply_msg q fuel msg m)
            (apply_msg-IsNext q fuel msg m) first in
        let rest =
          apply_all-IsNumbered msgs a n (IsNext-IsNumbered m.configs a.configs step h)
            (sym (ap (λ o. and_then o (apply_all msgs)) first) ∙ e) in
        (rest.0, grown m.configs a.configs n.configs rest.1.0 step rest.1.1)
  ]
    where
      none-ne : none ≡ some n → ⊥
      none-ne q = cc

      grown :
          (cs ds es more : List Config)
          → IsNext cs ds
          → es ≡ ds ++ more
          → (all : List Config) × (es ≡ cs ++ all)
      grown cs ds es more (inl e) same = (more, same ∙ ap (λ l. l ++ more) e)
      grown cs ds es more (inr (c, d, last, e, num)) same =
          (d ∷ more, same ∙ ap (λ l. l ++ more) e ∙ append_assoc cs (d ∷ []) more)
