-- ===== src/Pool/SizeClass/Classes.antt =====
-- The size classes: which free list serves a size, and what a size is rounded up to.
use projects_cpp.Prelude.{ℕ, ◌+◌, ◌-◌, ◌*◌, ◌%◌, ◌≤◌, ◌<◌, ◌≡◌, ◌↔◌, ◌⊎◌, inl, inr, arith}
use native.Mathlib.Decide.{dec_le}
use projects_cpp.Pool.SizeClass.{max_bytes, nlists, index_class, roundup_class}

-- A size up to 64 KB has a free list within the table of 184 exactly when it is not 0; for 0 the
-- index wraps round to 2^64 - 1.
pub index_class_range : (size : ℕ) → size ≤ max_bytes → (index_class size < nlists) ↔ (0 < size)
unfolding index_class
index_class_range size h = (λ e. ground arith, λ e. ground arith)

-- Rounding up gives a multiple of 8 that is at least the size and no more than 64 KB, and wastes
-- less than 8 bytes up to 128 and less than an eighth of the block above.
pub roundup_class_fits :
    (size : ℕ)
    → size ≤ max_bytes
    → (size ≤ roundup_class size)
      × (roundup_class size ≤ max_bytes)
      × (roundup_class size % 8 ≡ 0)
      × ((roundup_class size - size < 8)
          ⊎ ((128 < size) × (8 * (roundup_class size - size) < roundup_class size)))
unfolding roundup_class
roundup_class_fits size h = (ground arith, ground arith, ground arith, ground arith)

-- In a band of sizes the blocks are spaced by `step`; the block of index `i` ends at
-- `step * i + step - base`.
abbrev InBand : ℕ → ℕ → ℕ → ℕ → ℕ → Type 0
InBand low high step base size =
    (low < size)
    × (size ≤ high)
    × (roundup_class size + base ≡ step * index_class size + step)
    × (size ≤ roundup_class size)
    × (roundup_class size < size + step)

-- The four bands of `Index` and `Roundup`.
abbrev Banded : ℕ → Type 0
Banded size =
    InBand 0 128 8 0 size
    ⊎ (InBand 128 1024 16 128 size
        ⊎ (InBand 1024 8192 128 8192 size ⊎ InBand 8192 65536 1024 122880 size))

band8 : (size : ℕ) → 0 < size → size ≤ 128 → InBand 0 128 8 0 size
unfolding index_class roundup_class
band8 size h k = ground arith

band16 : (size : ℕ) → 128 < size → size ≤ 1024 → InBand 128 1024 16 128 size
unfolding index_class roundup_class
band16 size h k = ground arith

band128 : (size : ℕ) → 1024 < size → size ≤ 8192 → InBand 1024 8192 128 8192 size
unfolding index_class roundup_class
band128 size h k = ground arith

band1024 : (size : ℕ) → 8192 < size → size ≤ 65536 → InBand 8192 65536 1024 122880 size
unfolding index_class roundup_class
band1024 size h k = ground arith

banded : (size : ℕ) → 0 < size → size ≤ max_bytes → Banded size
banded size h k = elim (dec_le size 128) [
  | yes a ↦ inl (band8 size h a)
  | no a ↦ elim (dec_le size 1024) [
    | yes b ↦ inr (inl (band16 size (omega arith) b))
    | no b ↦ elim (dec_le size 8192) [
      | yes c ↦ inr (inr (inl (band128 size (omega arith) c)))
      | no c ↦ inr (inr (inr (band1024 size (omega arith) k)))
    ]
  ]
]

same_block :
    (size : ℕ)
    → Banded size
    → Banded (roundup_class size)
    → (index_class (roundup_class size) ≡ index_class size)
      × (roundup_class (roundup_class size) ≡ roundup_class size)
same_block size a b = (omega arith, omega arith)

same_index :
    (a b : ℕ)
    → Banded a
    → Banded b
    → index_class a ≡ index_class b
    → roundup_class a ≡ roundup_class b
same_index a b p q e = omega arith

same_roundup :
    (a b : ℕ)
    → Banded a
    → Banded b
    → roundup_class a ≡ roundup_class b
    → index_class a ≡ index_class b
same_roundup a b p q e = omega arith

rounded_pos : (size : ℕ) → 0 < size → size ≤ max_bytes → 0 < roundup_class size
rounded_pos size h k = omega (arith, roundup_class_fits size k)

-- A block is freed with its rounded size: that size has the same free list as the size that was
-- asked for, and is rounded to itself.
pub index_class-roundup_class :
    (size : ℕ)
    → 0 < size
    → size ≤ max_bytes
    → (index_class (roundup_class size) ≡ index_class size)
      × (roundup_class (roundup_class size) ≡ roundup_class size)
index_class-roundup_class size h k =
    same_block size (banded size h k)
      (banded (roundup_class size) (rounded_pos size h k) (roundup_class_fits size k).1)

-- Two sizes share a free list exactly when they are rounded to the same block size.
pub same_list_iff :
    (a b : ℕ)
    → 0 < a
    → a ≤ max_bytes
    → 0 < b
    → b ≤ max_bytes
    → (index_class a ≡ index_class b) ↔ (roundup_class a ≡ roundup_class b)
same_list_iff a b ha ka hb kb = (
  same_index a b (banded a ha ka) (banded b hb kb),
  same_roundup a b (banded a ha ka) (banded b hb kb),
)
