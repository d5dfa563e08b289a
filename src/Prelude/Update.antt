-- ===== src/Prelude/Update.antt =====
-- Functions on numbers as maps: a map changed at one key.
use Prim.Native.Nat.{ℕ}
use mathlib.Core.Path.{◌≡◌}
use mathlib.Core.Logic.{◌≢◌, ◌⊎◌, inl, inr}
use native.Mathlib.Omega.{arith}
use projects_cpp.Prelude.Tests.{◌==◌, if◌then◌else◌, Bool-cases}

module _ {ℓ} {A : Type ℓ} where
  abbrev pub update : (ℕ → A) → ℕ → A → ℕ → A
  update f k v j = if j == k then v else f j

  pub update_self : (f : ℕ → A) (k : ℕ) (v : A) → update f k v k ≡ v
  update_self f k v = ground arith

  pub update_ne : (f : ℕ → A) (k : ℕ) (v : A) {j : ℕ} → j ≢ k → update f k v j ≡ f j
  update_ne f k v h = ground arith

pub eq_or_ne : (j k : ℕ) → (j ≡ k) ⊎ (j ≢ k)
eq_or_ne j k = elim (Bool-cases (j == k)) [
  | inl h ↦ inl (ground arith)
  | inr h ↦ inr (λ e. ground arith)
]
