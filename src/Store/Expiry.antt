-- ===== src/Store/Expiry.antt =====
-- Deadlines of src/store/mod.rs: what the lazy check, the eviction and EXPIRE do to a key.
use fire_redis.Prelude.{
  ℕ, ◌+◌, ◌≡◌, refl, Bool, true, false, ◌&&◌, Option, none, List, [], ◌∷◌, Bytes, beq, beq_iff, ltb,
  if◌then◌else◌, arith,
}
use fire_redis.Dict
use fire_redis.Dict.{Dict, is_some}
use fire_redis.Dict.Laws.{get-insert, get-remove, NoDup}
use fire_redis.Store.{
  StoredValue, Store, Instant, is_due, check_expiration, set_expiration, exists, expire, due_keys,
  forget_all, evict_expired, forget, from_millis,
}

-- The value that a client sees at a key: none once the deadline has passed.
unfoldable pub visible : Instant → Bytes → Store → Option StoredValue
visible now key s = if is_due now (Dict.get s.expirations key) then none else Dict.get s.entries key

unfoldable pub listed : Bytes → List Bytes → Bool
listed j [] = false
listed j (k ∷ ks) = if beq k j then true else listed j ks

pub get-forget_all :
    (ks : List Bytes) (s : Store) (j : Bytes)
    → Dict.get (forget_all ks s).0.entries j ≡ (if listed j ks then none else Dict.get s.entries j)
unfolding forget_all listed
get-forget_all [] s j = refl
get-forget_all (k ∷ ks) s j =
    ground (arith, get-forget_all ks (forget k s) j, get-remove s.entries k j)

pub listed_due :
    (now : Instant) (d : Dict Instant) (j : Bytes)
    → NoDup d
    → listed j (due_keys now d) ≡ is_due now (Dict.get d j)
unfolding listed due_keys Dict.get
listed_due now [] j h = refl
listed_due now ((k, t) ∷ d) j h = ground (arith, listed_due now d j h.1, beq_iff k j)

-- The eviction of expired keys leaves at every key exactly what a client would see there: it removes
-- the keys whose deadline has passed and no other.
pub get-evict_expired :
    (now : Instant) (s : Store) (key : Bytes)
    → NoDup s.expirations
    → Dict.get (evict_expired now s).0.entries key ≡ visible now key s
unfolding evict_expired visible
get-evict_expired now s key h =
    rw (get-forget_all (due_keys now s.expirations) s key)
      (rw (listed_due now s.expirations key h) refl)

-- The lazy check of one key leaves there what a client sees, and says whether the deadline has passed.
pub get-check_expiration :
    (now : Instant) (s : Store) (key : Bytes)
    → (Dict.get (check_expiration now key s).0.entries key ≡ visible now key s)
      × ((check_expiration now key s).1 ≡ is_due now (Dict.get s.expirations key))
unfolding check_expiration visible
get-check_expiration now s key = ground (arith, get-remove s.entries key key, beq_iff key key)

-- After EXPIRE answered that the key is there, EXISTS finds it until the new deadline and not from
-- then on; after EXPIRE answered that it is not, EXISTS does not find it.
exists-expire :
    (now t ms : ℕ) (s : Store) (key : Bytes)
    → (exists t key (expire now key ms s).0).1
      ≡ ((expire now key ms s).1 && ltb t (now + from_millis ms))
unfolding exists expire check_expiration set_expiration
exists-expire now t ms s key = ground (
  arith,
  get-remove s.entries key key,
  get-remove s.expirations key key,
  beq_iff key key,
  get-insert s.expirations key key (now + from_millis ms),
)

-- What the lazy check leaves: no deadline that has passed, and the value that is visible.
pub checked :
    (now : Instant) (key : Bytes) (s : Store)
    → (is_due now (Dict.get (check_expiration now key s).0.expirations key) ≡ false)
      × (Dict.get (check_expiration now key s).0.entries key ≡ visible now key s)
unfolding check_expiration visible
checked now key s =
    ground (arith, get-remove s.entries key key, get-remove s.expirations key key, beq_iff key key)
