-- ===== src/Store/Lists/Range.antt =====
-- LRANGE of src/store/list.rs: which slice it takes, and when it panics.
use fire_redis.Prelude.{
  ℕ, ◌+◌, ◌-◌, ◌≤◌, ◌<◌, ◌≡◌, List, ℤ, Bytes, length, take, drop, pos, negsuc, max_i64, ◌+ℤ◌,
  as_i64, as_usize, returns, panics, arith,
}
use fire_redis.Store.Lists.{list_range, range_start, range_stop, slice_inclusive}

-- The offset means this place: places count from the front, or from the end below zero.
abbrev pub Means : ℕ → ℤ → ℕ → Type 0
Means len (pos n) i = n ≡ i
Means len (negsuc n) i = n + 1 + i ≡ len

-- On a list that fits in memory, LRANGE with two offsets that mean places in order and inside the
-- list, each from the front or from the end, returns the elements between them, both included.
pub list_range_between :
    (xs : List Bytes) (start stop : ℤ) (i j : ℕ)
    → Means (length xs) start i
    → Means (length xs) stop j
    → i ≤ j
    → j < length xs
    → length xs ≤ max_i64
    → list_range xs start stop ≡ returns (take (j - i + 1) (drop i xs))
unfolding list_range range_start range_stop slice_inclusive as_i64 as_usize ◌+ℤ◌
list_range_between xs (pos m) (pos n) i j e f h k l = ground arith
list_range_between xs (pos m) (negsuc n) i j e f h k l = ground arith
list_range_between xs (negsuc m) (pos n) i j e f h k l = ground arith
list_range_between xs (negsuc m) (negsuc n) i j e f h k l = ground arith

-- LRANGE panics where the stop lies before the front of a list that is not empty, and the start, an
-- offset from the front, lies in it.
pub list_range_before :
    (xs : List Bytes) (i n : ℕ)
    → i < length xs
    → length xs ≤ n
    → n ≤ max_i64
    → list_range xs (pos i) (negsuc n) ≡ panics
unfolding list_range range_start range_stop slice_inclusive as_i64 as_usize ◌+ℤ◌
list_range_before xs i n h k l = ground arith
