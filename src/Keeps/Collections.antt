-- ===== src/Keeps/Collections.antt =====
-- The operations on collections that may remove keep what `Closed` keeps, and so do the insertions
-- into hashes, sets and sorted sets.
use fire_redis.Prelude.{
  ℕ, ◌≡◌, refl, false, Option, none, some, List, [], Bytes, arith, inl, inr, is_empty, Bool-cases,
  ℤ,
}
use fire_redis.Dict
use fire_redis.Dict.{Dict, HashSet}
use fire_redis.Platform.{Platform, Score}
use fire_redis.Store.{StoredValue, list, set, hash, sorted_set, Store, Instant, check_expiration}
use fire_redis.Store.Lists
use fire_redis.Store.Hashes
use fire_redis.Store.Sets
use fire_redis.Store.SortedSets
use fire_redis.Keeps.{Closed}
use fire_redis.Keeps.Values.{Admits}
use fire_redis.Keeps.Keys.{check_keeps, write_or_forget_keeps, overwrite_keeps, or_insert_keeps}

module _ {fl : Platform} {Q : StoredValue → Type 0} {P : Store → Type 0} {key : Bytes}
    (a : Admits fl Q) (c : Closed Q P key) where
  pop_old :
      (pop : List Bytes → List Bytes × Option Bytes) (o : Option StoredValue) (s : Store)
      → P s
      → P (Lists.pop_entry pop key o s).0
  unfolding Lists.pop_entry
  pop_old pop (some (list xs)) s p = write_or_forget_keeps c s _ _ (a.lists (pop xs).0) p
  pop_old pop none s p = p
  pop_old pop (some _) s p = p

  pub pop_keeps :
      (pop : List Bytes → List Bytes × Option Bytes) (now : Instant) (s : Store)
      → P s
      → P (Lists.pop_with pop now key s).0
  unfolding Lists.pop_with
  pop_keeps pop now s p =
      let q : P (check_expiration now key s).0 = check_keeps c now s p in
      elim (Bool-cases (check_expiration now key s).1) [
        | inl e ↦ rw e q
        | inr e ↦ rw e (pop_old pop _ _ q)
      ]

  pub l_range_keeps :
      (now : Instant) (start stop : ℤ) (s : Store) → P s → P (Lists.l_range now key start stop s).0
  unfolding Lists.l_range
  l_range_keeps now start stop s p = ground (arith, c.on_forget s)

  pub l_len_keeps : (now : Instant) (s : Store) → P s → P (Lists.l_len now key s).0
  unfolding Lists.l_len
  l_len_keeps now s p = ground (arith, c.on_forget s)

  pub l_index_keeps : (now : Instant) (i : ℤ) (s : Store) → P s → P (Lists.l_index now key i s).0
  unfolding Lists.l_index
  l_index_keeps now i s p = ground (arith, c.on_forget s)

  h_set_old :
      (f v : Bytes) (w : StoredValue) (s : Store) → Q w → P s → P (Hashes.set_entry key f v w s).0
  unfolding Hashes.set_entry
  h_set_old f v (hash map) s q p = c.on_write s _ (a.hash_grow map f v (inl q)) p
  h_set_old f v _ s q p = p

  pub h_set_keeps :
      (now : Instant) (f v : Bytes) (s : Store) → P s → P (Hashes.h_set now key f v s).0
  unfolding Hashes.h_set
  h_set_keeps now f v s p =
      or_insert_keeps c (hash []) (λ w t. (Hashes.set_entry key f v w t).0)
        (check_expiration now key s).0 (λ w q r. h_set_old f v w _ q r)
        (λ r. overwrite_keeps c _ _ _ (a.hash_grow [] f v (inr refl)) r) (check_keeps c now s p)

  h_del_old :
      (fs : List Bytes) (o : Option StoredValue) (s : Store)
      → Dict.get s.entries key ≡ o
      → P s
      → P (Hashes.del_entry key fs o s).0
  unfolding Hashes.del_entry
  h_del_old fs (some (hash map)) s e p =
      write_or_forget_keeps c s _ _ (a.hash_shrink map fs (c.on_read s _ e p)) p
  h_del_old fs none s e p = p
  h_del_old fs (some _) s e p = p

  pub h_del_keeps :
      (now : Instant) (fs : List Bytes) (s : Store) → P s → P (Hashes.h_del now key fs s).0
  unfolding Hashes.h_del
  h_del_keeps now fs s p =
      let q : P (check_expiration now key s).0 = check_keeps c now s p in
      elim (Bool-cases (check_expiration now key s).1) [
        | inl e ↦ rw e q
        | inr e ↦ rw e (h_del_old fs _ _ refl q)
      ]

  pub read_fields_keeps {ℓ} :
      {A : Type ℓ} (absent : A) (f : Dict Bytes → A) (now : Instant) (s : Store)
      → P s
      → P (Hashes.read_fields absent f now key s).0
  unfolding Hashes.read_fields
  read_fields_keeps absent f now s p = ground (arith, c.on_forget s)

  s_add_old :
      (ms : List Bytes) (w : StoredValue) (s : Store)
      → is_empty ms ≡ false
      → Q w
      → P s
      → P (Sets.add_entry key ms w s).0
  unfolding Sets.add_entry
  s_add_old ms (set members) s n q p = c.on_write s _ (a.set_grow ms members n (inl q)) p
  s_add_old ms _ s n q p = p

  pub s_add_keeps :
      (now : Instant) (ms : List Bytes) (s : Store)
      → is_empty ms ≡ false
      → P s
      → P (Sets.s_add now key ms s).0
  unfolding Sets.s_add
  s_add_keeps now ms s n p =
      or_insert_keeps c (set []) (λ w t. (Sets.add_entry key ms w t).0)
        (check_expiration now key s).0 (λ w q r. s_add_old ms w _ n q r)
        (λ r. overwrite_keeps c _ _ _ (a.set_grow ms [] n (inr refl)) r) (check_keeps c now s p)

  s_rem_old :
      (ms : List Bytes) (o : Option StoredValue) (s : Store)
      → Dict.get s.entries key ≡ o
      → P s
      → P (Sets.rem_entry key ms o s).0
  unfolding Sets.rem_entry
  s_rem_old ms (some (set members)) s e p =
      write_or_forget_keeps c s _ _ (a.set_shrink ms members (c.on_read s _ e p)) p
  s_rem_old ms none s e p = p
  s_rem_old ms (some _) s e p = p

  pub s_rem_keeps :
      (now : Instant) (ms : List Bytes) (s : Store) → P s → P (Sets.s_rem now key ms s).0
  unfolding Sets.s_rem
  s_rem_keeps now ms s p =
      let q : P (check_expiration now key s).0 = check_keeps c now s p in
      elim (Bool-cases (check_expiration now key s).1) [
        | inl e ↦ rw e q
        | inr e ↦ rw e (s_rem_old ms _ _ refl q)
      ]

  s_pop_old :
      (n : ℕ) (o : Option StoredValue) (s : Store)
      → Dict.get s.entries key ≡ o
      → P s
      → P (Sets.pop_entry key n o s).0
  unfolding Sets.pop_entry
  s_pop_old n (some (set members)) s e p =
      write_or_forget_keeps c s _ _ (a.set_pop n members (c.on_read s _ e p)) p
  s_pop_old n none s e p = p
  s_pop_old n (some _) s e p = p

  pub s_pop_keeps : (now : Instant) (n : ℕ) (s : Store) → P s → P (Sets.s_pop now key n s).0
  unfolding Sets.s_pop
  s_pop_keeps now n s p =
      let q : P (check_expiration now key s).0 = check_keeps c now s p in
      elim (Bool-cases (check_expiration now key s).1) [
        | inl e ↦ rw e q
        | inr e ↦ rw e (s_pop_old n _ _ refl q)
      ]

  pub read_members_keeps {ℓ} :
      {A : Type ℓ} (absent : A) (f : HashSet → A) (now : Instant) (s : Store)
      → P s
      → P (Sets.read_members absent f now key s).0
  unfolding Sets.read_members
  read_members_keeps absent f now s p = ground (arith, c.on_forget s)

  z_add_old :
      (x : Score) (m : Bytes) (w : StoredValue) (s : Store)
      → Q w
      → P s
      → P (SortedSets.add_entry fl key x m w s).0
  unfolding SortedSets.add_entry
  z_add_old x m (sorted_set scores tree) s q p =
      c.on_write s _ (a.scores_grow scores tree x m (inl q)) p
  z_add_old x m _ s q p = p

  pub z_add_keeps :
      (now : Instant) (x : Score) (m : Bytes) (s : Store)
      → P s
      → P (SortedSets.z_add fl now key x m s).0
  unfolding SortedSets.z_add
  z_add_keeps now x m s p =
      or_insert_keeps c (sorted_set [] []) (λ w t. (SortedSets.add_entry fl key x m w t).0)
        (check_expiration now key s).0 (λ w q r. z_add_old x m w _ q r)
        (λ r. overwrite_keeps c _ _ _ (a.scores_grow [] [] x m (inr (refl, refl))) r)
        (check_keeps c now s p)

  z_rem_old :
      (ms : List Bytes) (o : Option StoredValue) (s : Store)
      → Dict.get s.entries key ≡ o
      → P s
      → P (SortedSets.rem_entry fl key ms o s).0
  unfolding SortedSets.rem_entry
  z_rem_old ms (some (sorted_set scores tree)) s e p =
      write_or_forget_keeps c s _ _ (a.scores_shrink scores tree ms (c.on_read s _ e p)) p
  z_rem_old ms none s e p = p
  z_rem_old ms (some _) s e p = p

  pub z_rem_keeps :
      (now : Instant) (ms : List Bytes) (s : Store) → P s → P (SortedSets.z_rem fl now key ms s).0
  unfolding SortedSets.z_rem
  z_rem_keeps now ms s p =
      let q : P (check_expiration now key s).0 = check_keeps c now s p in
      elim (Bool-cases (check_expiration now key s).1) [
        | inl e ↦ rw e q
        | inr e ↦ rw e (z_rem_old ms _ _ refl q)
      ]

  pub z_range_keeps :
      (now : Instant) (start stop : ℤ) (s : Store)
      → P s
      → P (SortedSets.z_range now key start stop s).0
  unfolding SortedSets.z_range
  z_range_keeps now start stop s p = ground (arith, c.on_forget s)

  pub z_rev_range_keeps :
      (now : Instant) (start stop : ℤ) (s : Store)
      → P s
      → P (SortedSets.z_rev_range now key start stop s).0
  unfolding SortedSets.z_rev_range
  z_rev_range_keeps now start stop s p = ground (arith, c.on_forget s)

  pub z_score_keeps :
      (now : Instant) (m : Bytes) (s : Store) → P s → P (SortedSets.z_score now key m s).0
  unfolding SortedSets.z_score
  z_score_keeps now m s p = ground (arith, c.on_forget s)

  pub z_card_keeps : (now : Instant) (s : Store) → P s → P (SortedSets.z_card now key s).0
  unfolding SortedSets.z_card
  z_card_keeps now s p = ground (arith, c.on_forget s)

  pub z_count_keeps :
      (now : Instant) (lo hi : Score) (s : Store)
      → P s
      → P (SortedSets.z_count fl now key lo hi s).0
  unfolding SortedSets.z_count
  z_count_keeps now lo hi s p = ground (arith, c.on_forget s)
