-- ===== src/Keeps/Values.antt =====
-- The operations of src/store on the values keep what `Closed` keeps, where the values that they
-- write are admitted.
use fire_redis.Prelude.{
  ℕ, ◌≡◌, true, false, Option, none, some, List, [], Bytes, beq_refl, ◌⊎◌, is_empty, ℤ, codes,
}
use fire_redis.Dict
use fire_redis.Dict.{Dict, HashSet}
use fire_redis.Dict.Laws.{get-insert}
use fire_redis.Platform.{Platform, Score}
use fire_redis.Store.{
  StoredValue, string, list, set, hash, sorted_set, Store, Instant, Tree, write, check_expiration,
}
use fire_redis.Store.Strings
use fire_redis.Store.Lists
use fire_redis.Store.Hashes
use fire_redis.Store.Sets
use fire_redis.Store.SortedSets
use fire_redis.Keeps.{Closed}
use fire_redis.Keeps.Keys.{check_keeps, overwrite_keeps, or_insert_keeps}

-- What the operations write is admitted, if what they start from is: a value that is there, or the
-- empty collection.
pub record Admits (fl : Platform) (Q : StoredValue → Type 0) : Type 0 where
  pub strings : (b : Bytes) → Q (string b)
  pub lists : (xs : List Bytes) → is_empty xs ≡ false → Q (list xs)
  pub hash_grow :
      (map : Dict Bytes) (f v : Bytes) → Q (hash map) ⊎ (map ≡ []) → Q (hash (Dict.insert map f v))
  pub hash_shrink :
      (map : Dict Bytes) (fs : List Bytes)
      → Q (hash map)
      → is_empty (Hashes.remove_fields fs map).0 ≡ false
      → Q (hash (Hashes.remove_fields fs map).0)
  pub set_grow :
      (ms : List Bytes) (members : HashSet)
      → is_empty ms ≡ false
      → Q (set members) ⊎ (members ≡ [])
      → Q (set (Sets.insert_members ms members).0)
  pub set_shrink :
      (ms : List Bytes) (members : HashSet)
      → Q (set members)
      → is_empty (Sets.remove_members ms members).0 ≡ false
      → Q (set (Sets.remove_members ms members).0)
  pub set_pop :
      (n : ℕ) (members : HashSet)
      → Q (set members)
      → is_empty (Sets.pop_members n members).0 ≡ false
      → Q (set (Sets.pop_members n members).0)
  pub scores_grow :
      (scores : Dict Score) (tree : Tree) (x : Score) (m : Bytes)
      → Q (sorted_set scores tree) ⊎ ((scores ≡ []) × (tree ≡ []))
      → Q (
          sorted_set
            (Dict.insert (Dict.remove scores m) m x)
            (SortedSets.tree_insert fl x m (SortedSets.drop_old fl (Dict.get scores m) m tree)))
  pub scores_shrink :
      (scores : Dict Score) (tree : Tree) (ms : List Bytes)
      → Q (sorted_set scores tree)
      → is_empty (SortedSets.remove_scored fl ms scores tree).0.0 ≡ false
      → Q (
          sorted_set
            (SortedSets.remove_scored fl ms scores tree).0.0
            (SortedSets.remove_scored fl ms scores tree).0.1)

module _ {fl : Platform} {Q : StoredValue → Type 0} {P : Store → Type 0} {key : Bytes}
    (a : Admits fl Q) (c : Closed Q P key) where
  contains_written :
      (s : Store) (v : StoredValue) → Dict.contains_key (write key v s).entries key ≡ true
  contains_written s v = rw get-insert (rw (beq_refl key))

  pub set_keeps :
      (now : Instant) (v : Bytes) (px : Option ℕ) (s : Store) → P s → P (Strings.set now key v px s)
  unfolding Strings.set
  set_keeps now v none s p =
      c.on_clear (write key (string v) s) (c.on_write s (string v) (a.strings v) p)
  set_keeps now v (some ms) s p =
      c.on_deadline (write key (string v) s) _ (contains_written s (string v))
        (c.on_write s (string v) (a.strings v) p)

  counter_keeps : (r : Strings.Counted) (s : Store) → P s → P (Strings.store_counter key r s).0
  unfolding Strings.store_counter
  counter_keeps (Strings.counted n) s p = c.on_write s _ (a.strings _) p
  counter_keeps (Strings.refused e) s p = p

  adjust_entry_keeps :
      (delta : ℤ) (v : StoredValue) (s : Store) → P s → P (Strings.adjust_entry key delta v s).0
  unfolding Strings.adjust_entry
  adjust_entry_keeps delta (string b) s p = counter_keeps (Strings.add_to b delta) s p
  adjust_entry_keeps delta _ s p = p

  pub adjust_counter_keeps :
      (now : Instant) (delta : ℤ) (s : Store) → P s → P (Strings.adjust_counter now key delta s).0
  unfolding Strings.adjust_counter
  adjust_counter_keeps now delta s p =
      or_insert_keeps c (string (codes "0")) (λ v t. (Strings.adjust_entry key delta v t).0)
        (check_expiration now key s).0 (λ v q r. adjust_entry_keeps delta v _ r)
        (λ r. adjust_entry_keeps delta (string (codes "0")) _ (c.on_write _ _ (a.strings _) r))
        (check_keeps c now s p)

  append_old :
      (b : Bytes) (v : StoredValue) (s : Store) → P s → P (Strings.append_entry key b v s).0
  unfolding Strings.append_entry
  append_old b (string x) s p = c.on_write s _ (a.strings _) p
  append_old b _ s p = p

  pub append_keeps :
      (now : Instant) (v : Bytes) (s : Store) → P s → P (Strings.append now key v s).0
  unfolding Strings.append
  append_keeps now v s p =
      or_insert_keeps c (string []) (λ w t. (Strings.append_entry key v w t).0)
        (check_expiration now key s).0 (λ w q r. append_old v w _ r)
        (λ r. append_old v (string []) _ (c.on_write _ _ (a.strings _) r)) (check_keeps c now s p)

  module _ (push : Bytes → List Bytes → List Bytes)
      (grows : (b : Bytes) (xs : List Bytes) → is_empty (push b xs) ≡ false) where
    push_old :
        (b : Bytes) (v : StoredValue) (s : Store) → P s → P (Lists.push_entry push key b v s).0
    unfolding Lists.push_entry
    push_old b (list xs) s p = c.on_write s _ (a.lists _ (grows b xs)) p
    push_old b _ s p = p

    pub push_keeps :
        (now : Instant) (b : Bytes) (s : Store) → P s → P (Lists.push_with push now key b s).0
    unfolding Lists.push_with
    push_keeps now b s p =
        or_insert_keeps c (list []) (λ w t. (Lists.push_entry push key b w t).0)
          (check_expiration now key s).0 (λ w q r. push_old b w _ r)
          (λ r. overwrite_keeps c _ _ _ (a.lists _ (grows b [])) r) (check_keeps c now s p)
