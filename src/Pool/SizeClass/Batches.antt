-- ===== src/Pool/SizeClass/Batches.antt =====
-- How many blocks move between the caches at once, and how many pages a span of a class gets.
use projects_cpp.Prelude.{ℕ, ◌*◌, ◌/◌, ◌≤◌, ◌<◌, ◌≡◌, ◌⊎◌, inl, inr, arith}
use projects_cpp.Pool.SizeClass.{max_bytes, num_move_size, num_move_page}

num_move_size-range :
    (size : ℕ)
    → 0 < size
    → size ≤ max_bytes
    → (2 ≤ num_move_size size)
      × (num_move_size size ≤ 512)
      × ((num_move_size size ≡ 2) ⊎ (num_move_size size ≤ max_bytes / size))
unfolding num_move_size
num_move_size-range size h k = (ground arith, ground arith, ground arith)

quotient-le : (size : ℕ) → 0 < size → max_bytes / size * size ≤ max_bytes
quotient-le size h = grind arith

product-le : (n size : ℕ) → 0 < size → n ≤ max_bytes / size → n * size ≤ max_bytes
product-le n size h k = grind (arith, quotient-le size h)

total_bounds :
    (n size : ℕ)
    → 0 < size
    → size ≤ max_bytes
    → 2 ≤ n
    → (n ≡ 2) ⊎ (n ≤ max_bytes / size)
    → (2 * size ≤ n * size) × (n * size ≤ 131072)
total_bounds n size h k low (inl two) = (rw two (omega arith), rw two (omega arith))
total_bounds n size h k low (inr few) = (grind arith, omega (arith, product-le n size h few))

page_bounds :
    (size : ℕ)
    → 0 < size
    → size ≤ max_bytes
    → 2 * size ≤ num_move_size size * size
    → num_move_size size * size ≤ 131072
    → (1 ≤ num_move_page size) × (num_move_page size ≤ 32) × (size ≤ num_move_page size * 4096)
unfolding num_move_page
page_bounds size h k low high = (ground arith, ground arith, ground arith)

-- A batch of a class is 2 to 512 blocks and at most 128 KB. Its span is 1 to 32 pages, less than
-- the 129 that the page cache asserts, and holds at least one block.
pub batch_bounds :
    (size : ℕ)
    → 0 < size
    → size ≤ max_bytes
    → (2 ≤ num_move_size size)
      × (num_move_size size ≤ 512)
      × (num_move_size size * size ≤ 131072)
      × (1 ≤ num_move_page size)
      × (num_move_page size ≤ 32)
      × (size ≤ num_move_page size * 4096)
batch_bounds size h k =
    let (low, high, cases) = num_move_size-range size h k in
    let total = total_bounds (num_move_size size) size h k low cases in
    let pages = page_bounds size h k total.0 total.1 in
    (low, high, total.1, pages.0, pages.1, pages.2)
