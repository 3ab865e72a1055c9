-- ===== src/Commands/Data/Lists.antt =====
-- The handlers of src/commands/data.rs on lists.
use fire_redis.Prelude.{ℕ, List, [], ◌∷◌, Bytes, codes, ℤ}
use mathlib.Core.List.{reverse}
use fire_redis.Store.{Instant, Store}
use fire_redis.Store.Lists
use fire_redis.Commands.Data.Replies.{
  Handled, answer, answer_outcome, bulk_or_null, bulk_array, integer_of, typed,
}

-- The loop of the two push handlers; the reply is the length after the last push.
unfoldable pub push_all :
    (Bytes → Bytes → Store → Store × ℕ) → Bytes → List Bytes → ℕ → Store → Store × ℕ
push_all push key [] len s = (s, len)
push_all push key (v ∷ vs) len s = let (s', len') = push key v s in push_all push key vs len' s'

unfoldable pub handle_l_push : Instant → Bytes → List Bytes → Store → Handled
unfolding push_all typed
handle_l_push now key vals =
    typed (codes "list") now key
      λ s. answer integer_of (push_all (Lists.l_push now) key (reverse vals) 0 s)

unfoldable pub handle_r_push : Instant → Bytes → List Bytes → Store → Handled
unfolding push_all typed
handle_r_push now key vals =
    typed (codes "list") now key λ s. answer integer_of (push_all (Lists.r_push now) key vals 0 s)

unfoldable pub handle_l_pop : Instant → Bytes → Store → Handled
unfolding typed bulk_or_null
handle_l_pop now key = typed (codes "list") now key λ s. answer bulk_or_null (Lists.l_pop now key s)

unfoldable pub handle_r_pop : Instant → Bytes → Store → Handled
unfolding typed bulk_or_null
handle_r_pop now key = typed (codes "list") now key λ s. answer bulk_or_null (Lists.r_pop now key s)

unfoldable pub handle_l_len : Instant → Bytes → Store → Handled
unfolding typed
handle_l_len now key = typed (codes "list") now key λ s. answer integer_of (Lists.l_len now key s)

unfoldable pub handle_l_index : Instant → Bytes → ℤ → Store → Handled
unfolding typed bulk_or_null
handle_l_index now key index =
    typed (codes "list") now key λ s. answer bulk_or_null (Lists.l_index now key index s)

unfoldable pub handle_l_range : Instant → Bytes → ℤ → ℤ → Store → Handled
unfolding typed bulk_array
handle_l_range now key start stop =
    typed (codes "list") now key λ s. answer_outcome bulk_array (Lists.l_range now key start stop s)
