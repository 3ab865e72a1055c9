-- ===== src/Commands/Data/Strings.antt =====
-- The handlers of src/commands/data.rs on strings and counters.
pub mod Conditions
use fire_redis.Prelude.{
  ℕ, zero, suc, ◌+◌, Bool, true, false, ◌&&◌, not, Option, none, some, List, [], ◌∷◌, ◌++◌, map,
  Bytes, codes, beq, to_ascii_uppercase, ltb, if◌then◌else◌, ◌==◌, ℤ, pos, negsuc, as_i64, Outcome,
  returns, panics, is_empty,
}
use mathlib.Core.List.{reverse}
use fire_redis.Dict.{Dict}
use fire_redis.Platform.{Platform, Score}
use fire_redis.Resp.{
  Value, Values, simple_string, error, integer, bulk_string, array, null, nil, cons, values_of,
}
use fire_redis.Store
use fire_redis.Store.{Instant, Store}
use fire_redis.Store.Strings
use fire_redis.Store.Strings.{
  Counted, counted, refused, CounterError, not_utf8, not_integer, integer_overflow, not_string,
}
use fire_redis.Store.Lists
use fire_redis.Store.Hashes
use fire_redis.Store.Sets
use fire_redis.Store.SortedSets
use fire_redis.Commands.Data.Replies.{
  Handled, answer, answer_outcome, wrong_type, bulk_or_null, bulk, bulk_array, int_bool, integer_of,
  typed, sort_by, sorted_bulks,
}
use fire_redis.Commands.Types.{SetCondition, always, nx, xx}

unfoldable pub handle_get : Instant → Bytes → Store → Handled
unfolding typed bulk_or_null
handle_get now key = typed (codes "string") now key λ s. answer bulk_or_null (Strings.get now key s)

-- Whether the condition of SET holds.
abbrev pub permits : SetCondition → Bool → Bool
permits always found = true
permits nx found = not found
permits xx found = found

unfoldable pub handle_set : Instant → Bytes → Bytes → Option ℕ → SetCondition → Store → Handled
handle_set now key v expire c s =
    let (s', found) = Store.exists now key s in
    if permits c found
    then (Strings.set now key v expire s', returns (simple_string (codes "OK")))
    else (s', returns null)

unfoldable pub handle_append : Instant → Bytes → Bytes → Store → Handled
unfolding typed
handle_append now key v =
    typed (codes "string") now key λ s. answer integer_of (Strings.append now key v s)

unfoldable pub handle_strlen : Instant → Bytes → Store → Handled
unfolding typed
handle_strlen now key =
    typed (codes "string") now key λ s. answer integer_of (Strings.strlen now key s)

abbrev pub counter_message : CounterError → Bytes
counter_message not_utf8 = codes "Value is not a valid UTF-8 string"
counter_message not_integer = codes "Value is not an integer"
counter_message integer_overflow = codes "Integer overflow"
counter_message not_string = codes "Key does not hold a string value"

abbrev pub counter_reply : Counted → Value
counter_reply (counted n) = integer n
counter_reply (refused e) = error (counter_message e)

unfoldable pub handle_incr : Instant → Bytes → Store → Handled
handle_incr now key s = answer counter_reply (Strings.incr now key s)

unfoldable pub handle_decr : Instant → Bytes → Store → Handled
handle_decr now key s = answer counter_reply (Strings.decr now key s)

unfoldable pub get_all : Instant → List Bytes → Store → Store × List (Option Bytes)
get_all now [] s = (s, [])
get_all now (key ∷ keys) s =
    let (s', v) = Strings.get now key s in let (s'', vs) = get_all now keys s' in (s'', v ∷ vs)

unfoldable pub handle_mget : Instant → List Bytes → Store → Handled
unfolding get_all bulk_or_null
handle_mget now keys s = answer (λ vs. array (values_of (map bulk_or_null vs))) (get_all now keys s)

unfoldable pub set_all : Instant → List (Bytes × Bytes) → Store → Store
set_all now [] s = s
set_all now ((key, v) ∷ entries) s = set_all now entries (Strings.set now key v none s)

unfoldable pub handle_mset : Instant → List (Bytes × Bytes) → Store → Handled
unfolding set_all
handle_mset now entries s = (set_all now entries s, returns (simple_string (codes "OK")))
