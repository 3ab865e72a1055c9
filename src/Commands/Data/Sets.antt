-- ===== src/Commands/Data/Sets.antt =====
-- The handlers of src/commands/data.rs on sets.
use fire_redis.Prelude.{ℕ, Option, none, some, List, Bytes, codes}
use mathlib.Core.List.{get_last?}
use fire_redis.Resp.{Value}
use fire_redis.Store.{Instant, Store}
use fire_redis.Store.Sets
use fire_redis.Commands.Data.Replies.{
  Handled, answer, bulk_or_null, bulk_array, int_bool, integer_of, typed, sort_by, sorted_bulks,
}

unfoldable pub handle_s_add : Instant → Bytes → List Bytes → Store → Handled
unfolding typed
handle_s_add now key ms =
    typed (codes "set") now key λ s. answer integer_of (Sets.s_add now key ms s)

unfoldable pub handle_s_rem : Instant → Bytes → List Bytes → Store → Handled
unfolding typed
handle_s_rem now key ms =
    typed (codes "set") now key λ s. answer integer_of (Sets.s_rem now key ms s)

unfoldable pub handle_s_members : Instant → Bytes → Store → Handled
unfolding typed bulk_array sort_by
handle_s_members now key =
    typed (codes "set") now key λ s. answer sorted_bulks (Sets.s_members now key s)

unfoldable pub handle_s_is_member : Instant → Bytes → Bytes → Store → Handled
unfolding typed int_bool
handle_s_is_member now key m =
    typed (codes "set") now key λ s. answer int_bool (Sets.s_is_member now key m s)

unfoldable pub handle_s_card : Instant → Bytes → Store → Handled
unfolding typed
handle_s_card now key = typed (codes "set") now key λ s. answer integer_of (Sets.s_card now key s)

-- values.pop() of the members that were popped
abbrev pub last_of : List Bytes → Value
last_of vs = bulk_or_null (get_last? vs)

abbrev pub pop_reply : Option ℕ → Instant → Bytes → Store → Handled
pop_reply (some n) now key s = answer bulk_array (Sets.s_pop now key n s)
pop_reply none now key s = answer last_of (Sets.s_pop now key 1 s)

unfoldable pub handle_s_pop : Instant → Bytes → Option ℕ → Store → Handled
unfolding typed bulk_array bulk_or_null
handle_s_pop now key count = typed (codes "set") now key λ s. pop_reply count now key s
