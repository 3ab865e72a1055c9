-- ===== src/Dict/Laws.antt =====
-- The laws of the hash tables: what a lookup finds after a change, how the number of entries
-- changes, and that every change keeps the keys distinct.
use fire_redis.Prelude.{
  ◌+◌, ◌≡◌, refl, none, some, [], ◌∷◌, Bytes, beq, beq_iff, length, if◌then◌else◌, arith,
}
use fire_redis.Dict.{Dict, get, insert, remove, contains_key}

module _ {ℓ} {V : Type ℓ} where
  pub get-insert :
      (d : Dict V) (k j : Bytes) (v : V)
      → get (insert d k v) j ≡ (if beq k j then some v else get d j)
  unfolding get insert
  get-insert [] k j v = refl
  get-insert ((i, w) ∷ d) k j v =
      ground (arith, beq_iff i k, beq_iff i j, beq_iff k j, get-insert d k j v)

  pub get-remove :
      (d : Dict V) (k j : Bytes) → get (remove d k) j ≡ (if beq k j then none else get d j)
  unfolding get remove
  get-remove [] k j = ground arith
  get-remove ((i, w) ∷ d) k j =
      ground (arith, beq_iff i k, beq_iff i j, beq_iff k j, get-remove d k j)

  -- Every key stands once.
  abbrev pub NoDup : Dict V → Type ℓ
  NoDup [] = Unit
  NoDup ((k, v) ∷ d) = (get d k ≡ none) × NoDup d

  pub insert-NoDup : (d : Dict V) (k : Bytes) (v : V) → NoDup d → NoDup (insert d k v)
  unfolding get insert
  insert-NoDup [] k v h = (refl, tt)
  insert-NoDup ((i, w) ∷ d) k v h =
      ground (arith, beq_iff i k, beq_iff k i, get-insert d k i v, insert-NoDup d k v h.1)

  pub remove-NoDup : (d : Dict V) (k : Bytes) → NoDup d → NoDup (remove d k)
  unfolding get remove
  remove-NoDup [] k h = tt
  remove-NoDup ((i, w) ∷ d) k h =
      ground (arith, beq_iff i k, beq_iff k i, get-remove d k i, remove-NoDup d k h.1)

  pub length-insert :
      (d : Dict V) (k : Bytes) (v : V)
      → length (insert d k v) ≡ (if contains_key d k then length d else length d + 1)
  unfolding get insert
  length-insert [] k v = omega arith
  length-insert ((i, w) ∷ d) k v = ground (arith, length-insert d k v)

  -- Removing a key that is not there changes nothing.
  pub remove_absent : (d : Dict V) (k : Bytes) → get d k ≡ none → remove d k ≡ d
  unfolding get remove
  remove_absent [] k h = refl
  remove_absent ((i, w) ∷ d) k h = ground (arith, remove_absent d k)

  pub length-remove :
      (d : Dict V) (k : Bytes)
      → NoDup d
      → length d ≡ (if contains_key d k then length (remove d k) + 1 else length (remove d k))
  unfolding get remove
  length-remove [] k h = omega arith
  length-remove ((i, w) ∷ d) k h =
      ground (arith, beq_iff i k, remove_absent d k, length-remove d k h.1)

module _ {ℓ} {V : Type ℓ} where
  -- A second insertion at a key replaces the first.
  pub insert-insert : (d : Dict V) (k : Bytes) (v w : V) → insert (insert d k v) k w ≡ insert d k w
  unfolding insert
  insert-insert [] k v w = ground (arith, beq_iff k k)
  insert-insert ((i, x) ∷ d) k v w = ground (arith, beq_iff i k, insert-insert d k v w)

  pub remove-insert : (d : Dict V) (k : Bytes) (v : V) → remove (insert d k v) k ≡ remove d k
  unfolding insert remove
  remove-insert [] k v = ground (arith, beq_iff k k)
  remove-insert ((i, x) ∷ d) k v = ground (arith, beq_iff i k, remove-insert d k v)

pub ruleset dict_laws = (get-insert, get-remove)
