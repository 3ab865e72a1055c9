-- ===== src/Store/Lists/Ends.antt =====
-- The two ends of a list in src/store/list.rs.
use fire_redis.Prelude.{
  suc, ◌≡◌, refl, some, List, [], ◌∷◌, ◌++◌, Bytes, length, is_empty, beq_refl, arith, false, ◌∙◌,
}
use fire_redis.Dict
use fire_redis.Dict.Laws.{get-insert}
use fire_redis.Store.{list, Store, Instant, check_expiration, or_insert}
use fire_redis.Store.Expiry.{visible, checked}
use fire_redis.Store.Lists.{
  l_push, r_push, l_pop, r_pop, push_with, pop_with, push_entry, pop_entry, pop_front, pop_back,
}

pop_back-push_back : (v : Bytes) (xs : List Bytes) → pop_back (xs ++ v ∷ []) ≡ (xs, some v)
unfolding pop_back
pop_back-push_back v [] = refl
pop_back-push_back v (x ∷ []) = refl
pop_back-push_back v (x ∷ y ∷ xs) = rw (pop_back-push_back v (y ∷ xs)) refl

-- LPUSH to a list that is not empty answers the new length; LPOP then returns the pushed value and
-- leaves the list that was there.
pub l_pop-l_push :
    (now : Instant) (key v : Bytes) (xs : List Bytes) (s : Store)
    → visible now key s ≡ some (list xs)
    → is_empty xs ≡ false
    → ((l_push now key v s).1 ≡ suc (length xs))
      × ((l_pop now key (l_push now key v s).0).1 ≡ some v)
      × (visible now key (l_pop now key (l_push now key v s).0).0 ≡ some (list xs))
unfolding l_push l_pop push_with pop_with push_entry pop_entry pop_front check_expiration or_insert
    visible
l_pop-l_push now key v xs s h e =
    let t : Store = (check_expiration now key s).0 in
    let held : Dict.get t.entries key ≡ some (list xs) = (checked now key s).1 ∙ h in
    rw held (
      ground (
        arith,
        (checked now key s).0,
        beq_refl key,
        get-insert t.entries key key (list (v ∷ xs)),
        get-insert (Dict.insert t.entries key (list (v ∷ xs))) key key (list xs),
      ))

-- RPOP returns what RPUSH pushed, and leaves the list that was there.
pub r_pop-r_push :
    (now : Instant) (key v : Bytes) (xs : List Bytes) (s : Store)
    → visible now key s ≡ some (list xs)
    → is_empty xs ≡ false
    → ((r_pop now key (r_push now key v s).0).1 ≡ some v)
      × (visible now key (r_pop now key (r_push now key v s).0).0 ≡ some (list xs))
unfolding r_push r_pop push_with pop_with push_entry pop_entry check_expiration or_insert visible
r_pop-r_push now key v xs s h e =
    let t : Store = (check_expiration now key s).0 in
    let held : Dict.get t.entries key ≡ some (list xs) = (checked now key s).1 ∙ h in
    rw held (
      ground (
        arith,
        (checked now key s).0,
        beq_refl key,
        pop_back-push_back v xs,
        get-insert t.entries key key (list (xs ++ v ∷ [])),
        get-insert (Dict.insert t.entries key (list (xs ++ v ∷ []))) key key (list xs),
      ))
