-- ===== src/Commands/Data/Keys.antt =====
-- The handlers of src/commands/data.rs on keys of any type.
use fire_redis.Prelude.{
  ℕ, ◌+◌, Option, none, some, List, [], ◌∷◌, Bytes, codes, beq, if◌then◌else◌, returns,
}
use fire_redis.Resp.{Value, simple_string, error, integer}
use fire_redis.Store
use fire_redis.Store.{Instant, Store}
use fire_redis.Commands.Data.Replies.{
  Handled, answer, bulk_array, int_bool, integer_of, sort_by, sorted_bulks,
}

abbrev pub type_reply : Option Bytes → Value
type_reply none = simple_string (codes "none")
type_reply (some name) = simple_string name

unfoldable pub handle_type : Instant → Bytes → Store → Handled
handle_type now key s = answer type_reply (Store.type_of now key s)

unfoldable pub handle_keys : Instant → Bytes → Store → Handled
unfolding bulk_array sort_by
handle_keys now pattern s =
    if beq pattern (codes "*")
    then answer sorted_bulks (Store.keys now s)
    else (s, returns (error (codes "ERR only '*' pattern is currently supported")))

unfoldable pub handle_flushall : Store → Handled
handle_flushall s = (Store.flush_all s, returns (simple_string (codes "OK")))

unfoldable pub handle_expire : Instant → Bytes → ℕ → Store → Handled
unfolding int_bool
handle_expire now key ms s = answer int_bool (Store.expire now key ms s)

unfoldable pub handle_ttl : Instant → Bytes → Store → Handled
handle_ttl now key s = answer integer (Store.ttl now key s)

unfoldable pub handle_pttl : Instant → Bytes → Store → Handled
handle_pttl now key s = answer integer (Store.pttl now key s)

unfoldable pub count_existing : Instant → List Bytes → Store → Store × ℕ
count_existing now [] s = (s, 0)
count_existing now (key ∷ keys) s =
    let (s', found) = Store.exists now key s in
    let (s'', n) = count_existing now keys s' in (s'', (if found then 1 else 0) + n)

unfoldable pub handle_exists : Instant → List Bytes → Store → Handled
unfolding count_existing
handle_exists now keys s = answer integer_of (count_existing now keys s)

unfoldable pub handle_del : List Bytes → Store → Handled
handle_del keys s = answer integer_of (Store.del keys s)
