-- ===== src/Keeps/Scores.antt =====
-- What ZRANGE, ZSCORE and ZCARD of src/store/sorted_set.rs say of one sorted set.
use fire_redis.Prelude.{
  ◌≡◌, ◌≤◌, refl, ◌∙◌, Option, none, some, Bytes, Bool-cases, inl, inr, length, pos, negsuc,
  max_i64, arith,
}
use fire_redis.Dict
use fire_redis.Platform.{Platform}
use fire_redis.Store.{
  StoredValue, string, list, set, hash, sorted_set, Store, Instant, check_expiration,
}
use fire_redis.Store.SortedSets.{
  z_range, z_score, z_card, members_range, all_members, tree_of, scores_of,
}
use fire_redis.Store.SortedSets.Buckets.{length-all_members}
use fire_redis.Store.SortedSets.Agreement.{Agrees, empty-Agrees}
use fire_redis.Store.SortedSets.Whole.{rank_of, members_range_whole, get-all_members}
use fire_redis.Keeps.Keys.{check_keeps}
use fire_redis.Keeps.Valid.{IsValid, IsGood, IsValid-Closed}

module _ (fl : Platform) where
  entry-Agrees :
      (o : Option StoredValue)
      → ((v : StoredValue) → o ≡ some v → IsGood fl v)
      → Agrees fl (scores_of o) (tree_of o)
  entry-Agrees none h = empty-Agrees fl
  entry-Agrees (some (string b)) h = empty-Agrees fl
  entry-Agrees (some (list xs)) h = empty-Agrees fl
  entry-Agrees (some (set xs)) h = empty-Agrees fl
  entry-Agrees (some (hash xs)) h = empty-Agrees fl
  entry-Agrees (some (sorted_set scores tree)) h = (h (sorted_set scores tree) refl).1

  entry-whole :
      (o : Option StoredValue) (m : Bytes)
      → Agrees fl (scores_of o) (tree_of o)
      → length (scores_of o) ≤ max_i64
      → let all = members_range (all_members (tree_of o)) (pos 0) (negsuc 0) in
        (length all ≡ length (scores_of o))
        × (rank_of fl (Dict.get all m) ≡ rank_of fl (Dict.get (scores_of o) m))
  entry-whole o m agrees fits =
      let size : length (all_members (tree_of o)) ≡ length (scores_of o) =
        length-all_members fl (tree_of o) ∙ agrees.counted in
      let within : length (all_members (tree_of o)) ≤ max_i64 = omega (arith, size) in
      rw (members_range_whole (all_members (tree_of o)) within)
        (size, get-all_members fl (scores_of o) (tree_of o) m agrees)

  -- In a valid keyspace, at a key whose scores fit in memory, ZRANGE from 0 to -1 returns as many
  -- members as ZCARD counts, and each member with the score that ZSCORE gives it, up to scores that
  -- the order holds equal; what ZSCORE gives no score is not among them.
  pub z_range-z_score :
      (now : Instant) (key m : Bytes) (s : Store)
      → IsValid fl s
      → (z_card now key s).1 ≤ max_i64
      → (length (z_range now key (pos 0) (negsuc 0) s).1 ≡ (z_card now key s).1)
        × (rank_of fl (Dict.get (z_range now key (pos 0) (negsuc 0) s).1 m)
            ≡ rank_of fl (z_score now key m s).1)
  unfolding z_range z_score z_card Dict.get
  z_range-z_score now key m s h fits =
      let t : Store = (check_expiration now key s).0 in
      let valid : IsValid fl t = check_keeps (IsValid-Closed fl key) now s h in
      let o : Option StoredValue = Dict.get t.entries key in
      let agrees : Agrees fl (scores_of o) (tree_of o) =
        entry-Agrees o (λ v e. valid.good key v e) in
      elim (Bool-cases (check_expiration now key s).1) [
        | inl gone ↦ rw gone (refl, refl)
        | inr there ↦
            let within : length (scores_of o) ≤ max_i64 = ground arith in
            rw there (entry-whole o m agrees within)
      ]
