-- ===== src/ShardMaster/Balance/Moves.antt =====
-- A shard moves from the greatest load to the least.
use projects_cpp.Prelude.{
  ℕ, suc, ◌+◌, ◌≡◌, ◌≢◌, ◌≤◌, ◌<◌, sym, ap, ◌∙◌, Option, none, some, List, [], ◌∷◌, length, arith,
}
use projects_cpp.Prelude.Int.{ℤ}
use projects_cpp.Prelude.Maps.{
  keys, IsIn, DistinctKeys, sum_of, change, keys-change, sum_of-change, IsIn-change_ne, IsIn-unique,
}
use projects_cpp.Prelude.Text.{Text}
use projects_cpp.ShardMaster.Balance.{
  WorkLoad, Queues, push_back, pop_back, push_at, moved, moved_between, move_one,
}
use projects_cpp.ShardMaster.Balance.Counts.{
  count, count-push_back, length-push_back, IsLast, back_of-some, triangle,
}
use projects_cpp.ShardMaster.Balance.Loads.{Holds}

-- It falls with each move.
abbrev pub spread : WorkLoad → ℕ
spread m = sum_of (λ s. triangle (length s)) m

triangle-push_back :
    (i : ℕ) (s : List ℕ) → triangle (length (push_back i s)) ≡ suc (length s) + triangle (length s)
triangle-push_back i s = ap triangle (length-push_back i s)

triangle-pop_back :
    {s : List ℕ} {i : ℕ}
    → IsLast s i
    → triangle (length s) ≡ length s + triangle (length (pop_back s))
triangle-pop_back {s = s} h = sym (ap triangle h.size) ∙ omega (arith, h.size)

IsLast-of : (t : List ℕ) → 0 < length t → (i : ℕ) × IsLast t i
IsLast-of [] h = elim h [ ]
IsLast-of (x ∷ t) h = back_of-some x t

module _ (groups : List (ℤ × List Text)) (distinct : DistinctKeys (keys groups)) (total : ℕ → ℕ)
    (m : WorkLoad) (held : Holds groups total m) (low : ℤ) (s : List ℕ) (up : ℤ) (t : List ℕ)
    (p : IsIn low s m) (r : IsIn up t m) (less : length s < length t) (i : ℕ)
    (last : IsLast t i) where
  distinct_keys : DistinctKeys (keys m)
  distinct_keys = rw held.same_keys distinct

  pushed : WorkLoad
  pushed = push_at low i m

  after : WorkLoad
  after = change [] up pop_back (push_at low i m)

  apart : up ≢ low
  apart e = absurd (omega (arith, less, ap (option_size) same))
    where
      option_size : Option (List ℕ) → ℕ
      option_size (some x) = length x
      option_size none = 0

      same : some s ≡ some t
      same = IsIn-unique p (rw (sym e) r) distinct_keys

  still : IsIn up t (push_at low i m)
  still = IsIn-change_ne [] low (push_back i) r apart

  keys_pushed : keys (push_at low i m) ≡ keys m
  keys_pushed = keys-change [] (push_back i) p

  -- What a move does to a sum.
  sum_moved :
      (weight : List ℕ → ℕ)
      → sum_of weight after + weight s + weight t
        ≡ sum_of weight m + weight (push_back i s) + weight (pop_back t)
  unfolding after
  sum_moved weight = omega (
    arith,
    sum_of-change weight [] (push_back i) p distinct_keys,
    sum_of-change weight [] pop_back still (rw keys_pushed distinct_keys),
  )

  pub moved-Holds : Holds groups total (change [] up pop_back (push_at low i m))
  unfolding after
  moved-Holds = record {
    same_keys = keys-change [] pop_back still ∙ keys_pushed ∙ held.same_keys;
    totals = λ a.
        omega (arith, sum_moved (count a), count-push_back a i s, last.counts a, held.totals a);
  }

  pub spread-moved :
      length s + 2 ≤ length t → spread (change [] up pop_back (push_at low i m)) < spread m
  unfolding after
  spread-moved gap = omega (
    arith,
    sum_moved (λ u. triangle (length u)),
    triangle-push_back i s,
    triangle-pop_back last,
    gap,
  )

-- A move where the greatest load has more shards than the least.
pub move_one-moves :
    (q : Queues) (groups : List (ℤ × List Text))
    → DistinctKeys (keys groups)
    → (total : ℕ → ℕ) (m : WorkLoad) → Holds groups total m
    → (low : ℤ) (s : List ℕ) (up : ℤ) (t : List ℕ) → q.low_top m ≡ some (low, s)
    → q.up_top m ≡ some (up, t)
    → IsIn low s m
    → IsIn up t m
    → length s < length t
    → (n : WorkLoad) × (move_one q m ≡ some n)
      × Holds groups total n
      × (length s + 2 ≤ length t → spread n < spread m)
unfolding move_one
move_one-moves q groups distinct total m held low s up t top1 top2 p r less =
    let (i, last) = IsLast-of t (omega (arith, less)) in
    (
      change [] up pop_back (push_at low i m),
      ap (λ o. moved_between o (q.up_top m) m) top1
          ∙ ap (λ o. moved_between (some (low, s)) o m) top2
          ∙ ap (λ o. moved low up o m) last.last,
      moved-Holds groups distinct total m held low s up t p r less i last,
      spread-moved groups distinct total m held low s up t p r less i last,
    )
