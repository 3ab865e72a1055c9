-- ===== src/Keeps/Loops.antt =====
-- Lemmas on the loops of src/store over members and fields.
use fire_redis.Prelude.{
  ℕ, zero, suc, ◌≡◌, refl, false, List, [], ◌∷◌, Bytes, arith, is_empty, ◌⊎◌, inl, inr,
}
use fire_redis.Dict
use fire_redis.Dict.{Dict, HashSet}
use fire_redis.Dict.Laws.{NoDup, insert-NoDup, remove-NoDup}
use fire_redis.Store.Hashes
use fire_redis.Store.Sets

pub insert_full {ℓ} :
    {V : Type ℓ} (d : Dict V) (k : Bytes) (v : V) → is_empty (Dict.insert d k v) ≡ false
unfolding Dict.insert
insert_full [] k v = refl
insert_full ((j, w) ∷ d) k v = ground arith

pub remove_fields-NoDup :
    (fs : List Bytes) (d : Dict Bytes) → NoDup d → NoDup (Hashes.remove_fields fs d).0
unfolding Hashes.remove_fields
remove_fields-NoDup [] d h = h
remove_fields-NoDup (f ∷ fs) d h = remove_fields-NoDup fs (Dict.remove d f) (remove-NoDup d f h)

pub insert_members-NoDup :
    (ms : List Bytes) (d : HashSet) → NoDup d → NoDup (Sets.insert_members ms d).0
unfolding Sets.insert_members
insert_members-NoDup [] d h = h
insert_members-NoDup (m ∷ ms) d h =
    insert_members-NoDup ms (Dict.insert d m tt) (insert-NoDup d m tt h)

pub insert_members_full :
    (ms : List Bytes) (d : HashSet)
    → (is_empty ms ≡ false) ⊎ (is_empty d ≡ false)
    → is_empty (Sets.insert_members ms d).0 ≡ false
unfolding Sets.insert_members
insert_members_full [] d (inl h) = cc
insert_members_full [] d (inr h) = h
insert_members_full (m ∷ ms) d h =
    insert_members_full ms (Dict.insert d m tt) (inr (insert_full d m tt))

pub remove_members-NoDup :
    (ms : List Bytes) (d : HashSet) → NoDup d → NoDup (Sets.remove_members ms d).0
unfolding Sets.remove_members
remove_members-NoDup [] d h = h
remove_members-NoDup (m ∷ ms) d h = remove_members-NoDup ms (Dict.remove d m) (remove-NoDup d m h)

pub pop_members-NoDup : (n : ℕ) (d : HashSet) → NoDup d → NoDup (Sets.pop_members n d).0
unfolding Sets.pop_members
pop_members-NoDup zero d h = h
pop_members-NoDup (suc n) [] h = tt
pop_members-NoDup (suc n) ((m, u) ∷ d) h = pop_members-NoDup n d h.1
