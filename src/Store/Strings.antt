-- ===== src/Store/Strings.antt =====
-- src/store/string.rs: strings and counters.
pub mod Reads
use fire_redis.Prelude.{
  ℕ, Option, none, some, [], ◌++◌, Bytes, codes, if◌then◌else◌, length, ℤ, pos, negsuc, ◌+ℤ◌,
  in_i64,
}
use fire_redis.Dict
use fire_redis.Decimal.{parse_i64, i64_to_string}
use fire_redis.Utf8.{is_utf8}
use fire_redis.Store.{
  StoredValue, string, Store, Instant, write, check_expiration, set_expiration, or_insert,
}

pub data CounterError : Type 0 where
  not_utf8 not_integer integer_overflow not_string : CounterError

pub data Counted : Type 0 where
  counted : ℤ → Counted
  refused : CounterError → Counted

-- The new number of a counter, by the checks of `adjust_counter`.
unfoldable pub add_to : Bytes → ℤ → Counted
add_to b delta =
    if is_utf8 b
    then elim (parse_i64 b) [
      | none ↦ refused not_integer
      | some n ↦ if in_i64 (n +ℤ delta) then counted (n +ℤ delta) else refused integer_overflow
    ]
    else refused not_utf8

unfoldable pub store_counter : Bytes → Counted → Store → Store × Counted
store_counter key (counted n) s = (write key (string (i64_to_string n)) s, counted n)
store_counter key (refused e) s = (s, refused e)

-- What `adjust_counter` does once the entry is at hand. A refusal leaves the entry, which is "0"
-- where there was none.
unfoldable pub adjust_entry : Bytes → ℤ → StoredValue → Store → Store × Counted
unfolding add_to store_counter
adjust_entry key delta (string b) s = store_counter key (add_to b delta) s
adjust_entry key delta _ s = (s, refused not_string)

unfoldable pub adjust_counter : Instant → Bytes → ℤ → Store → Store × Counted
unfolding adjust_entry check_expiration or_insert
adjust_counter now key delta s =
    let (s', _) = check_expiration now key s in
    let (s'', entry) = or_insert key (string (codes "0")) s' in adjust_entry key delta entry s''

abbrev pub string_of : Option StoredValue → Option Bytes
string_of (some (string b)) = some b
string_of _ = none

unfoldable pub get : Instant → Bytes → Store → Store × Option Bytes
unfolding check_expiration
get now key s =
    let (s', expired) = check_expiration now key s in
    if expired then (s', none) else (s', string_of (Dict.get s'.entries key))

unfoldable pub set : Instant → Bytes → Bytes → Option ℕ → Store → Store
unfolding set_expiration
set now key v expire_ms s = set_expiration now key expire_ms (write key (string v) s)

unfoldable pub append_entry : Bytes → Bytes → StoredValue → Store → Store × ℕ
append_entry key v (string existing) s =
    (write key (string (existing ++ v)) s, length (existing ++ v))
append_entry key v _ s = (s, 0)

unfoldable pub append : Instant → Bytes → Bytes → Store → Store × ℕ
unfolding append_entry check_expiration or_insert
append now key v s =
    let (s', _) = check_expiration now key s in
    let (s'', entry) = or_insert key (string []) s' in append_entry key v entry s''

abbrev pub string_length : Option StoredValue → ℕ
string_length (some (string b)) = length b
string_length _ = 0

unfoldable pub strlen : Instant → Bytes → Store → Store × ℕ
unfolding check_expiration
strlen now key s =
    let (s', expired) = check_expiration now key s in
    if expired then (s', 0) else (s', string_length (Dict.get s'.entries key))

unfoldable pub incr : Instant → Bytes → Store → Store × Counted
unfolding adjust_counter
incr now key s = adjust_counter now key (pos 1) s

unfoldable pub decr : Instant → Bytes → Store → Store × Counted
unfolding adjust_counter
decr now key s = adjust_counter now key (negsuc 0) s
