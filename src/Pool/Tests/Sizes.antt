-- ===== src/Pool/Tests/Sizes.antt =====
-- The size classes at some sizes.
use projects_cpp.Prelude.{◌-◌, ◌*◌, ◌%◌, ◌≤◌, ◌<◌, ◌≡◌, ◌↔◌, ◌⊎◌, refl, arith}
use projects_cpp.Pool.SizeClass.{
  index_class, roundup_class, num_move_size, num_move_page, max_bytes,
}
use projects_cpp.Pool.SizeClass.Classes.{roundup_class_fits, same_list_iff}
use projects_cpp.Pool.SizeClass.Batches.{batch_bounds}

-- The last size of each band.
last_indices :
    (index_class 128 ≡ 15)
    × (index_class 1024 ≡ 71)
    × (index_class 8192 ≡ 127)
    × (index_class 65536 ≡ 183)
unfolding index_class
last_indices = (refl, refl, refl, refl)

roundup_class_fits_example :
    (129 ≤ roundup_class 129)
    × (roundup_class 129 ≤ max_bytes)
    × (roundup_class 129 % 8 ≡ 0)
    × ((roundup_class 129 - 129 < 8)
        ⊎ ((128 < 129) × (8 * (roundup_class 129 - 129) < roundup_class 129)))
roundup_class_fits_example = roundup_class_fits 129 (omega arith)

same_list_iff_example :
    (index_class 130 ≡ index_class 144) ↔ (roundup_class 130 ≡ roundup_class 144)
same_list_iff_example =
    same_list_iff 130 144 (omega arith) (omega arith) (omega arith) (omega arith)

batch_bounds_example :
    (2 ≤ num_move_size 16)
    × (num_move_size 16 ≤ 512)
    × (num_move_size 16 * 16 ≤ 131072)
    × (1 ≤ num_move_page 16)
    × (num_move_page 16 ≤ 32)
    × (16 ≤ num_move_page 16 * 4096)
batch_bounds_example = batch_bounds 16 (omega arith) (omega arith)
