-- ===== src/ShardMaster/Tests.antt =====
-- Tests of the shard master of 6.824/src/shardKv/shardmaster, with queues that have the first of
-- equal pairs on top.
mod Balancing
mod Requests
mod Repeats
use projects_cpp.Prelude.{
  ℕ, ◌≡◌, ◌≤◌, refl, ap, ◌∙◌, ◌≢◌, Option, none, some, List, [], ◌∷◌, length, leb, leb→le,
  if◌then◌else◌, Bool-cases, Bool, true, false, inl, inr, arith,
}
use projects_cpp.Prelude.Int.{ℤ, pos, pos_part}
use projects_cpp.Prelude.Maps.{IsIn, here, there}
use projects_cpp.Prelude.Text.{Text}
use projects_cpp.ShardMaster.{Config}
use projects_cpp.ShardMaster.Balance.{WorkLoad, Queues, IsLeast, IsGreatest}

-- The better of two pairs, by a test on their sizes.
abbrev pub better : (ℕ → ℕ → Bool) → ℤ × List ℕ → Option (ℤ × List ℕ) → ℤ × List ℕ
better test p none = p
better test p (some r) = if test (length p.1) (length r.1) then p else r

abbrev pub top : (ℕ → ℕ → Bool) → WorkLoad → Option (ℤ × List ℕ)
top test [] = none
top test (p ∷ m) = some (better test p (top test m))

abbrev pub geb : ℕ → ℕ → Bool
geb a b = leb b a

-- The top is in the map, and every pair is related to it.
module _ (test : ℕ → ℕ → Bool) (Below : ℕ → ℕ → Type 0)
    (whole : (a b : ℕ) → test a b ≡ true → Below a b)
    (other : (a b : ℕ) → test a b ≡ false → Below b a) (same : (a : ℕ) → Below a a)
    (trans : (a b c : ℕ) → Below a b → Below b c → Below a c) where
  abbrev IsTop : WorkLoad → ℤ × List ℕ → Type 0
  IsTop m q = IsIn q.0 q.1 m × ((h : ℤ) (t : List ℕ) → IsIn h t m → Below (length q.1) (length t))

  top-IsTop :
      (p : ℤ × List ℕ) (m : WorkLoad)
      → (q : ℤ × List ℕ) × (top test (p ∷ m) ≡ some q) × IsTop (p ∷ m) q
  top-IsTop p [] = (p, refl, (here refl refl, only))
    where
      only : (h : ℤ) (t : List ℕ) → IsIn h t (p ∷ []) → Below (length p.1) (length t)
      only h t (here e f) = rw f (same (length p.1))
      only h t (there r) = elim r [ ]
  top-IsTop p (r ∷ m) =
      let (q, e, l) = top-IsTop r m in
      elim (Bool-cases (test (length p.1) (length q.1))) [
        | inl yes_p ↦ (
          p,
          ap (λ o. some (better test p o)) e ∙ ap (λ b. some (if b then p else q)) yes_p,
          (here refl refl, above q (whole (length p.1) (length q.1) yes_p) l.1),
        )
        | inr no_p ↦ (
          q,
          ap (λ o. some (better test p o)) e ∙ ap (λ b. some (if b then p else q)) no_p,
          (there l.0, also q (other (length p.1) (length q.1) no_p) l.1),
        )
      ]
    where
      above :
          (q : ℤ × List ℕ)
          → Below (length p.1) (length q.1)
          → ((h : ℤ) (t : List ℕ) → IsIn h t (r ∷ m) → Below (length q.1) (length t))
          → (h : ℤ) (t : List ℕ) → IsIn h t (p ∷ r ∷ m)
          → Below (length p.1) (length t)
      above q b l h t (here e f) = rw f (same (length p.1))
      above q b l h t (there i) = trans (length p.1) (length q.1) (length t) b (l h t i)

      also :
          (q : ℤ × List ℕ)
          → Below (length q.1) (length p.1)
          → ((h : ℤ) (t : List ℕ) → IsIn h t (r ∷ m) → Below (length q.1) (length t))
          → (h : ℤ) (t : List ℕ) → IsIn h t (p ∷ r ∷ m)
          → Below (length q.1) (length t)
      also q b l h t (here e f) = rw f b
      also q b l h t (there i) = l h t i

pub IsLeast-first :
    (p : ℤ × List ℕ) (m : WorkLoad)
    → (q : ℤ × List ℕ) × (top leb (p ∷ m) ≡ some q) × IsLeast (p ∷ m) q
IsLeast-first =
    top-IsTop leb (λ a b. a ≤ b) leb→le (λ a b e. ground arith) (λ a. omega arith)
      (λ a b c h k. omega (arith, h, k))

pub IsGreatest-first :
    (p : ℤ × List ℕ) (m : WorkLoad)
    → (q : ℤ × List ℕ) × (top geb (p ∷ m) ≡ some q) × IsGreatest (p ∷ m) q
IsGreatest-first =
    top-IsTop geb (λ a b. b ≤ a) (λ a b e. leb→le b a e) (λ a b e. ground arith) (λ a. omega arith)
      (λ a b c h k. omega (arith, h, k))

abbrev pub first_queues : Queues
first_queues = record {
  low_top = top leb;
  up_top = top geb;
  low_least = IsLeast-first;
  up_greatest = IsGreatest-first;
}

-- Two servers.
abbrev pub servers : List Text
servers = (b's' ∷ b'1' ∷ []) ∷ (b's' ∷ b'2' ∷ []) ∷ []

-- Ten shards over groups 1 and 2, two of them with no group, and group 3 is new.
abbrev pub crowded : Config
crowded = record {
  config_num = pos 4;
  shards = pos 1 ∷ pos 1 ∷ pos 1 ∷ pos 1 ∷ pos 1 ∷ pos 1 ∷ pos 2 ∷ pos 2 ∷ pos 0 ∷ pos 0 ∷ [];
  groups = (pos 1, servers) ∷ (pos 2, servers) ∷ (pos 3, servers) ∷ [];
}

pub pos_ne : (a b : ℕ) → a ≢ b → pos a ≢ pos b
pos_ne a b h e = h (ap pos_part e)
