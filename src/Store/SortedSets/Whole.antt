-- ===== src/Store/SortedSets/Whole.antt =====
-- The whole of a sorted set of src/store/sorted_set.rs, as ZRANGE lists it, beside the scores.
use fire_redis.Prelude.{
  ℕ, ◌≡◌, ◌≤◌, refl, sym, ap, ◌∙◌, true, false, Option, none, some, List, [], ◌∷◌, ◌++◌, Bytes,
  Bool-cases, inl, inr, arith, length, take, pos, negsuc, max_i64, as_i64, as_usize, ◌+ℤ◌,
  if◌then◌else◌,
}
use fire_redis.Dict
use fire_redis.Dict.{Dict, HashSet, is_some}
use fire_redis.Platform.{Platform, Score}
use fire_redis.Store.{Tree}
use fire_redis.Store.Lists.{range_start, range_stop}
use fire_redis.Store.SortedSets.{all_members, scored, members_range}
use fire_redis.Store.SortedSets.Order.{IsOrdered}
use fire_redis.Store.SortedSets.Buckets.{bucket, bucket_below}
use fire_redis.Store.SortedSets.Agreement.{has_rank, Agrees}

pub take_all {ℓ} : {A : Type ℓ} (xs : List A) → take (length xs) xs ≡ xs
take_all [] = refl
take_all (x ∷ xs) = ap (λ t. x ∷ t) (take_all xs)

-- ZRANGE from 0 to -1 cuts nothing off.
pub members_range_whole :
    (all : List (Bytes × Score)) → length all ≤ max_i64 → members_range all (pos 0) (negsuc 0) ≡ all
unfolding members_range range_start range_stop as_i64 as_usize ◌+ℤ◌
members_range_whole [] h = refl
members_range_whole (e ∷ all) h = ground (arith, take_all (e ∷ all))

module _ (fl : Platform) where
  -- A score up to its place in the order.
  abbrev pub rank_of : Option Score → Option ℕ
  rank_of none = none
  rank_of (some x) = some (fl.rank x)

  get-scored :
      (x : Score) (ms : HashSet) (all : List (Bytes × Score)) (m : Bytes)
      → Dict.get (scored (x, ms) ++ all) m
        ≡ (if Dict.contains_key ms m then some x else Dict.get all m)
  unfolding Dict.get
  get-scored x [] all m = refl
  get-scored x ((j, u) ∷ ms) all m = ground (arith, get-scored x ms all m)

  none-some : (x : Score) (o : Option Score) → o ≡ none → o ≡ some x → ⊥
  none-some x o n e = cc

  beyond :
      (m : Bytes) (x y : Score) (ms : HashSet) (tree : Tree)
      → IsOrdered fl ((y, ms) ∷ tree)
      → Dict.contains_key (bucket fl (fl.rank x) tree) m ≡ true
      → fl.rank x ≡ fl.rank y
      → ⊥
  unfolding Dict.get
  beyond m x y ms tree h q r =
      let e : bucket fl (fl.rank x) tree ≡ [] =
        ap (λ n. bucket fl n tree) r ∙ bucket_below fl (fl.rank y) tree h.0 h.2 in
      let z : false ≡ true = ap (λ b. Dict.contains_key b m) (sym e) ∙ q in cc

  -- A member that is listed stands under the score that it is listed with.
  listed_bucket :
      (tree : Tree) (m : Bytes) (x : Score)
      → IsOrdered fl tree
      → Dict.get (all_members tree) m ≡ some x
      → Dict.contains_key (bucket fl (fl.rank x) tree) m ≡ true
  unfolding all_members bucket Dict.get
  listed_bucket [] m x h e = absurd (none-some x none refl e)
  listed_bucket ((y, ms) ∷ tree) m x h e = elim (Bool-cases (Dict.contains_key ms m)) [
    | inl here ↦
        let p : some y ≡ some x = ground (arith, get-scored y ms (all_members tree) m) in
        let q : y ≡ x = cc in
        let r : fl.rank x ≡ fl.rank y = ap fl.rank (sym q) in ground (arith, r)
    | inr further ↦
        let p : Dict.get (all_members tree) m ≡ some x =
          ground (arith, get-scored y ms (all_members tree) m) in
        let q = listed_bucket tree m x h.2 p in
        let apart : fl.rank x ≡ fl.rank y → ⊥ = λ r. beyond m x y ms tree h q r in
        ground (arith, q, apart)
  ]

  bucket_listed :
      (n : ℕ) (tree : Tree) (m : Bytes)
      → Dict.contains_key (bucket fl n tree) m ≡ true
      → is_some (Dict.get (all_members tree) m) ≡ true
  unfolding all_members bucket Dict.get
  bucket_listed n [] m e = e
  bucket_listed n ((y, ms) ∷ tree) m e =
      ground (arith, get-scored y ms (all_members tree) m, bucket_listed n tree m)

  same_rank :
      (a b : Option Score)
      → ((x : Score) → a ≡ some x → has_rank fl (fl.rank x) b ≡ true)
      → ((n : ℕ) → has_rank fl n b ≡ true → is_some a ≡ true)
      → rank_of a ≡ rank_of b
  same_rank none none l r = refl
  same_rank none (some y) l r = ground (arith, r (fl.rank y))
  same_rank (some x) none l r = ground (arith, l x refl)
  same_rank (some x) (some y) l r = ground (arith, l x refl)

  -- In an agreeing sorted set the listing holds the same members as the scores, with the same scores
  -- up to their place in the order.
  pub get-all_members :
      (scores : Dict Score) (tree : Tree) (m : Bytes)
      → Agrees fl scores tree
      → rank_of (Dict.get (all_members tree) m) ≡ rank_of (Dict.get scores m)
  get-all_members scores tree m h =
      same_rank (Dict.get (all_members tree) m) (Dict.get scores m)
        (λ x e. sym (h.same m (fl.rank x)) ∙ listed_bucket tree m x h.ordered e)
        (λ n e. bucket_listed n tree m (h.same m n ∙ e))
