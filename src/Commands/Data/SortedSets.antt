-- ===== src/Commands/Data/SortedSets.antt =====
-- The handlers of src/commands/data.rs on sorted sets.
use fire_redis.Prelude.{
  ℕ, ◌+◌, Option, none, some, List, [], ◌∷◌, map, Bytes, codes, if◌then◌else◌, ℤ,
}
use fire_redis.Platform.{Platform, Score}
use fire_redis.Resp.{Value, bulk_string, array, values_of}
use fire_redis.Store.{Instant, Store}
use fire_redis.Store.SortedSets
use fire_redis.Commands.Data.Replies.{Handled, answer, answer_outcome, bulk, integer_of, typed}

-- The loop over the entries; the count is of the members that were new.
unfoldable pub add_scores : Platform → Instant → Bytes → List (Score × Bytes) → Store → Store × ℕ
add_scores fl now key [] s = (s, 0)
add_scores fl now key ((x, m) ∷ entries) s =
    let (s', is_new) = SortedSets.z_add fl now key x m s in
    let (s'', n) = add_scores fl now key entries s' in (s'', (if is_new then 1 else 0) + n)

unfoldable pub handle_z_add : Platform → Instant → Bytes → List (Score × Bytes) → Store → Handled
unfolding typed add_scores
handle_z_add fl now key entries =
    typed (codes "zset") now key λ s. answer integer_of (add_scores fl now key entries s)

-- The members of a range, without their scores.
unfoldable pub members_reply : List (Bytes × Score) → Value
members_reply ms = array (values_of (map (λ e. bulk e.0) ms))

unfoldable pub handle_z_range : Instant → Bytes → ℤ → ℤ → Store → Handled
unfolding typed members_reply
handle_z_range now key start stop =
    typed (codes "zset") now key λ s. answer members_reply (SortedSets.z_range now key start stop s)

unfoldable pub handle_z_rev_range : Instant → Bytes → ℤ → ℤ → Store → Handled
unfolding typed members_reply
handle_z_rev_range now key start stop =
    typed (codes "zset") now key
      λ s. answer members_reply (SortedSets.z_rev_range now key start stop s)

abbrev pub score_reply : Platform → Option Score → Value
score_reply fl none = bulk_string none
score_reply fl (some x) = bulk (fl.to_string x)

unfoldable pub handle_z_score : Platform → Instant → Bytes → Bytes → Store → Handled
unfolding typed
handle_z_score fl now key m =
    typed (codes "zset") now key λ s. answer (score_reply fl) (SortedSets.z_score now key m s)

unfoldable pub handle_z_rem : Platform → Instant → Bytes → List Bytes → Store → Handled
unfolding typed
handle_z_rem fl now key ms =
    typed (codes "zset") now key λ s. answer integer_of (SortedSets.z_rem fl now key ms s)

unfoldable pub handle_z_card : Instant → Bytes → Store → Handled
unfolding typed
handle_z_card now key =
    typed (codes "zset") now key λ s. answer integer_of (SortedSets.z_card now key s)

unfoldable pub handle_z_count : Platform → Instant → Bytes → Score → Score → Store → Handled
unfolding typed
handle_z_count fl now key lo hi =
    typed (codes "zset") now key
      λ s. answer_outcome integer_of (SortedSets.z_count fl now key lo hi s)
