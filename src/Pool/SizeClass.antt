-- ===== src/Pool/SizeClass.antt =====
-- class SizeClass of ConcurrentMemoryPool/ConcurrentMemoryPool/Common.h. A `size_t` is a number
-- below 2^64 and its arithmetic wraps; a shift is a division by a power of two.
pub mod Classes
pub mod Batches
use projects_cpp.Prelude.{
  ℕ, ◌+◌, ◌-◌, ◌*◌, ◌/◌, ◌%◌, ◌^◌, Option, none, some, Bool, ltb, leb, ◌==◌, if◌then◌else◌,
}

abbrev pub max_bytes : ℕ
max_bytes = 65536

abbrev pub nlists : ℕ
nlists = 184

abbrev pub page_shift : ℕ
page_shift = 12

abbrev pub npages : ℕ
npages = 129

abbrev pub add_size : ℕ → ℕ → ℕ
add_size a b = (a + b) % 2 ^ 64

abbrev pub sub_size : ℕ → ℕ → ℕ
sub_size a b = (a + 2 ^ 64 - b) % 2 ^ 64

-- `_Index`, with `alignnum` = 2^align
abbrev pub index_by : ℕ → ℕ → ℕ
index_by size align = sub_size (sub_size (add_size size (2 ^ align)) 1 / 2 ^ align) 1

-- `_Roundup`: `& ~(alignnum - 1)` clears the low `align` bits.
abbrev pub roundup_by : ℕ → ℕ → ℕ
roundup_by size align = sub_size (add_size size (2 ^ align)) 1 / 2 ^ align * 2 ^ align

-- `Index` behind its assertion.
unfoldable pub index_class : ℕ → ℕ
index_class size =
    if leb size 128
    then index_by size 3
    else if leb size 1024
    then add_size (index_by (sub_size size 128) 4) 16
    else if leb size 8192
    then add_size (add_size (index_by (sub_size size 1024) 7) 16) 56
    else add_size (add_size (add_size (index_by (sub_size size 8192) 10) 16) 56) 56

-- `Index`; `none` is the failed assertion.
unfoldable pub index : ℕ → Option ℕ
index size = if leb size max_bytes then some (index_class size) else none

-- `Roundup` behind its assertion.
unfoldable pub roundup_class : ℕ → ℕ
roundup_class bytes =
    if leb bytes 128
    then roundup_by bytes 3
    else if leb bytes 1024
    then roundup_by bytes 4
    else if leb bytes 8192
    then roundup_by bytes 7
    else roundup_by bytes 10

-- `Roundup`; `none` is the failed assertion.
unfoldable pub roundup : ℕ → Option ℕ
roundup bytes = if leb bytes max_bytes then some (roundup_class bytes) else none

-- `NumMoveSize`: a quotient kept between 2 and 512.
unfoldable pub num_move_size : ℕ → ℕ
num_move_size size =
    let num : ℕ = max_bytes / size in
    let num2 : ℕ = if ltb num 2 then 2 else num in
    if size == 0 then 0 else (if ltb 512 num2 then 512 else num2)

-- `NumMovePage`
unfoldable pub num_move_page : ℕ → ℕ
num_move_page size =
    let npage : ℕ = num_move_size size * size % 2 ^ 64 / 2 ^ page_shift in
    if npage == 0 then 1 else npage
