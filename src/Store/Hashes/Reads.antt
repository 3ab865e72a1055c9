-- ===== src/Store/Hashes/Reads.antt =====
-- What HGET of src/store/hash.rs reads after HSET.
use fire_redis.Prelude.{
  ◌≡◌, ◌∙◌, sym, refl, false, not, Option, none, some, [], Bytes, beq, beq_refl, if◌then◌else◌,
  arith,
}
use fire_redis.Dict
use fire_redis.Dict.Laws.{get-insert}
use fire_redis.Store.{
  StoredValue, string, list, set, hash, sorted_set, Store, Instant, is_due, check_expiration,
  or_insert, write,
}
use fire_redis.Store.Expiry.{visible, checked}
use fire_redis.Store.Hashes.{h_get, h_set, set_entry, read_fields, fields_of}

-- A key that holds a hash or nothing.
abbrev HoldsHash : Option StoredValue → Type 0
HoldsHash none = Unit
HoldsHash (some (hash map)) = Unit
HoldsHash (some v) = ⊥

get-write_hash :
    (now : Instant) (key f : Bytes) (map : Dict.Dict Bytes) (t : Store)
    → is_due now (Dict.get t.expirations key) ≡ false
    → (h_get now key f (write key (hash map) t)).1 ≡ Dict.get map f
unfolding h_get read_fields check_expiration
get-write_hash now key f map t d =
    ground (arith, get-insert t.entries key key (hash map), beq_refl key)

set_found :
    (now : Instant) (key f v j : Bytes) (t : Store) (o : Option StoredValue)
    → Dict.get t.entries key ≡ o
    → is_due now (Dict.get t.expirations key) ≡ false
    → HoldsHash o
    → let (u, entry) = or_insert key (hash []) t in
      ((h_get now key j (set_entry key f v entry u).0).1
        ≡ (if beq f j then some v else Dict.get (fields_of o) j))
      × ((set_entry key f v entry u).1 ≡ not (Dict.contains_key (fields_of o) f))
unfolding set_entry or_insert
set_found now key f v j t none e d h = rw e (
  get-write_hash now key j (Dict.insert [] f v) (write key (hash []) t) d ∙ get-insert [] f j v,
  refl,
)
set_found now key f v j t (some (hash map)) e d h =
    rw e (get-write_hash now key j (Dict.insert map f v) t d ∙ get-insert map f j v, refl)
set_found now key f v j t (some (string b)) e d h = absurd h
set_found now key f v j t (some (list xs)) e d h = absurd h
set_found now key f v j t (some (set xs)) e d h = absurd h
set_found now key f v j t (some (sorted_set xs tree)) e d h = absurd h

-- HSET on a key that holds a hash or nothing: at the same instant HGET reads the new value at that
-- field and the old one at every other, and the answer says whether the field is new.
h_get-h_set :
    (now : Instant) (key f v j : Bytes) (s : Store)
    → HoldsHash (visible now key s)
    → ((h_get now key j (h_set now key f v s).0).1
        ≡ (if beq f j then some v else Dict.get (fields_of (visible now key s)) j))
      × ((h_set now key f v s).1 ≡ not (Dict.contains_key (fields_of (visible now key s)) f))
unfolding h_set
h_get-h_set now key f v j s h =
    let t : Store = (check_expiration now key s).0 in
    rw (sym (checked now key s).1) (
      set_found now key f v j t (Dict.get t.entries key) refl (checked now key s).0
        (rw (checked now key s).1 h))
