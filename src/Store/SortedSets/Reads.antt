-- ===== src/Store/SortedSets/Reads.antt =====
-- What ZSCORE of src/store/sorted_set.rs reads after ZADD.
use fire_redis.Prelude.{
  ◌≡◌, ◌∙◌, sym, refl, false, not, Option, none, some, [], Bytes, beq, beq_refl, if◌then◌else◌,
  arith,
}
use fire_redis.Dict
use fire_redis.Dict.Laws.{get-insert, get-remove}
use fire_redis.Platform.{Platform, Score}
use fire_redis.Store.{
  StoredValue, string, list, set, hash, sorted_set, Store, Instant, Tree, is_due, check_expiration,
  or_insert, write,
}
use fire_redis.Store.Expiry.{visible, checked}
use fire_redis.Store.SortedSets.{z_score, z_add, add_entry, scores_of}

-- A key that holds a sorted set or nothing.
abbrev HoldsScores : Option StoredValue → Type 0
HoldsScores none = Unit
HoldsScores (some (sorted_set scores tree)) = Unit
HoldsScores (some v) = ⊥

get-write_scores :
    (now : Instant) (key j : Bytes) (scores : Dict.Dict Score) (tree : Tree) (t : Store)
    → is_due now (Dict.get t.expirations key) ≡ false
    → (z_score now key j (write key (sorted_set scores tree) t)).1 ≡ Dict.get scores j
unfolding z_score check_expiration
get-write_scores now key j scores tree t d =
    ground (arith, get-insert t.entries key key (sorted_set scores tree), beq_refl key)

get-replace :
    (scores : Dict.Dict Score) (m j : Bytes) (x : Score)
    → Dict.get (Dict.insert (Dict.remove scores m) m x) j
      ≡ (if beq m j then some x else Dict.get scores j)
get-replace scores m j x =
    ground (arith, get-insert (Dict.remove scores m) m j x, get-remove scores m j)

add_found :
    (fl : Platform) (now : Instant) (key m j : Bytes) (x : Score) (t : Store)
    (o : Option StoredValue)
    → Dict.get t.entries key ≡ o
    → is_due now (Dict.get t.expirations key) ≡ false
    → HoldsScores o
    → let (u, entry) = or_insert key (sorted_set [] []) t in
      ((z_score now key j (add_entry fl key x m entry u).0).1
        ≡ (if beq m j then some x else Dict.get (scores_of o) j))
      × ((add_entry fl key x m entry u).1 ≡ not (Dict.contains_key (scores_of o) m))
unfolding add_entry or_insert
add_found fl now key m j x t none e d h = rw e (
  get-write_scores now key j (Dict.insert (Dict.remove [] m) m x) _ (write key (sorted_set [] []) t)
        d
      ∙ get-replace [] m j x,
  refl,
)
add_found fl now key m j x t (some (sorted_set scores tree)) e d h = rw e (
  get-write_scores now key j (Dict.insert (Dict.remove scores m) m x) _ t d
      ∙ get-replace scores m j x,
  refl,
)
add_found fl now key m j x t (some (string b)) e d h = absurd h
add_found fl now key m j x t (some (list xs)) e d h = absurd h
add_found fl now key m j x t (some (set xs)) e d h = absurd h
add_found fl now key m j x t (some (hash xs)) e d h = absurd h

-- ZADD of one member on a key that holds a sorted set or nothing: at the same instant ZSCORE reads the
-- new score of that member and the old one of every other, and the answer says whether it is new.
pub z_score-z_add :
    (fl : Platform) (now : Instant) (key m j : Bytes) (x : Score) (s : Store)
    → HoldsScores (visible now key s)
    → ((z_score now key j (z_add fl now key x m s).0).1
        ≡ (if beq m j then some x else Dict.get (scores_of (visible now key s)) j))
      × ((z_add fl now key x m s).1 ≡ not (Dict.contains_key (scores_of (visible now key s)) m))
unfolding z_add
z_score-z_add fl now key m j x s h =
    let t : Store = (check_expiration now key s).0 in
    rw (sym (checked now key s).1) (
      add_found fl now key m j x t (Dict.get t.entries key) refl (checked now key s).0
        (rw (checked now key s).1 h))
