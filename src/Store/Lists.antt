-- ===== src/Store/Lists.antt =====
-- src/store/list.rs: lists.
pub mod Range
pub mod Ends
use fire_redis.Prelude.{
  ℕ, suc, ◌+◌, ◌-◌, Bool, true, false, ◌||◌, Option, none, some, List, [], ◌∷◌, ◌++◌, Bytes, ltb,
  leb, if◌then◌else◌, length, take, drop, get_elem?, is_empty, ℤ, pos, negsuc, ◌+ℤ◌, leb_ℤ,
  is_negative, as_i64, as_usize, Outcome, returns, panics,
}
use fire_redis.Dict
use fire_redis.Store.{
  StoredValue, list, Store, Instant, write, write_or_forget, check_expiration, or_insert,
}

abbrev pub push_front : Bytes → List Bytes → List Bytes
push_front v xs = v ∷ xs

abbrev pub push_back : Bytes → List Bytes → List Bytes
push_back v xs = xs ++ v ∷ []

-- `l_push` and `r_push` differ in the end at which they push.
unfoldable pub push_entry :
    (Bytes → List Bytes → List Bytes) → Bytes → Bytes → StoredValue → Store → Store × ℕ
push_entry push key v (list xs) s = (write key (list (push v xs)) s, length (push v xs))
push_entry push key v _ s = (s, 0)

unfoldable pub push_with :
    (Bytes → List Bytes → List Bytes) → Instant → Bytes → Bytes → Store → Store × ℕ
unfolding push_entry check_expiration or_insert
push_with push now key v s =
    let (s', _) = check_expiration now key s in
    let (s'', entry) = or_insert key (list []) s' in push_entry push key v entry s''

unfoldable pub l_push : Instant → Bytes → Bytes → Store → Store × ℕ
unfolding push_with
l_push = push_with push_front

unfoldable pub r_push : Instant → Bytes → Bytes → Store → Store × ℕ
unfolding push_with
r_push = push_with push_back

-- The list without the element at its end, and that element.
unfoldable pub pop_front : List Bytes → List Bytes × Option Bytes
pop_front [] = ([], none)
pop_front (x ∷ xs) = (xs, some x)

unfoldable pub pop_back : List Bytes → List Bytes × Option Bytes
pop_back [] = ([], none)
pop_back (x ∷ []) = ([], some x)
pop_back (x ∷ y ∷ xs) = let (rest, last) = pop_back (y ∷ xs) in (x ∷ rest, last)

-- A list that has become empty goes with its deadline.
unfoldable pub pop_entry :
    (List Bytes → List Bytes × Option Bytes)
    → Bytes
    → Option StoredValue
    → Store
    → Store × Option Bytes
pop_entry pop key (some (list xs)) s =
    let (rest, v) = pop xs in (write_or_forget key (list rest) (is_empty rest) s, v)
pop_entry pop key _ s = (s, none)

unfoldable pub pop_with :
    (List Bytes → List Bytes × Option Bytes) → Instant → Bytes → Store → Store × Option Bytes
unfolding pop_entry check_expiration
pop_with pop now key s =
    let (s', expired) = check_expiration now key s in
    if expired then (s', none) else pop_entry pop key (Dict.get s'.entries key) s'

unfoldable pub l_pop : Instant → Bytes → Store → Store × Option Bytes
unfolding pop_with pop_front
l_pop = pop_with pop_front

unfoldable pub r_pop : Instant → Bytes → Store → Store × Option Bytes
unfolding pop_with pop_back
r_pop = pop_with pop_back

-- `start` and `stop` of a range over `len` elements: negative offsets count from the end, and the
-- casts to `usize` come last.
unfoldable pub range_start : ℕ → ℤ → ℕ
range_start len start =
    let from = if is_negative start then as_i64 len +ℤ start else start in
    as_usize (if leb_ℤ (pos 0) from then from else pos 0)

unfoldable pub range_stop : ℕ → ℤ → ℕ
range_stop len stop =
    let to = if is_negative stop then as_i64 len +ℤ stop else stop in
    let last = as_i64 len +ℤ negsuc 0 in as_usize (if leb_ℤ to last then to else last)

-- `list.range(start..=stop)` panics where it reaches past the end.
unfoldable pub slice_inclusive : List Bytes → ℕ → ℕ → Outcome (List Bytes)
slice_inclusive xs start stop =
    if leb (length xs) stop then panics else returns (take (stop - start + 1) (drop start xs))

unfoldable pub list_range : List Bytes → ℤ → ℤ → Outcome (List Bytes)
unfolding range_start range_stop slice_inclusive
list_range xs start stop =
    let from = range_start (length xs) start in
    let to = range_stop (length xs) stop in
    if ltb to from || leb (length xs) from then returns [] else slice_inclusive xs from to

abbrev pub range_of_entry : Option StoredValue → ℤ → ℤ → Outcome (List Bytes)
range_of_entry (some (list xs)) start stop = list_range xs start stop
range_of_entry _ start stop = returns []

unfoldable pub l_range : Instant → Bytes → ℤ → ℤ → Store → Store × Outcome (List Bytes)
unfolding check_expiration list_range
l_range now key start stop s =
    let (s', expired) = check_expiration now key s in
    if expired then (s', returns []) else (s', range_of_entry (Dict.get s'.entries key) start stop)

abbrev pub list_length : Option StoredValue → ℕ
list_length (some (list xs)) = length xs
list_length _ = 0

unfoldable pub l_len : Instant → Bytes → Store → Store × ℕ
unfolding check_expiration
l_len now key s =
    let (s', expired) = check_expiration now key s in
    if expired then (s', 0) else (s', list_length (Dict.get s'.entries key))

unfoldable pub list_index : List Bytes → ℤ → Option Bytes
list_index xs index =
    get_elem? xs (as_usize (if is_negative index then as_i64 (length xs) +ℤ index else index))

abbrev pub index_of_entry : Option StoredValue → ℤ → Option Bytes
index_of_entry (some (list xs)) index = list_index xs index
index_of_entry _ index = none

unfoldable pub l_index : Instant → Bytes → ℤ → Store → Store × Option Bytes
unfolding check_expiration list_index
l_index now key index s =
    let (s', expired) = check_expiration now key s in
    if expired then (s', none) else (s', index_of_entry (Dict.get s'.entries key) index)
