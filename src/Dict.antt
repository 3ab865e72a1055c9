-- ===== src/Dict.antt =====
-- The hash tables of the program: `HashMap` and `DashMap` with string or byte keys, and
-- `HashSet<Bytes>` as a map to the unit type. A table is the list of its entries, in the order in
-- which it would be iterated: the theorems hold for every such order. The laws are in Dict/Laws.
pub mod Laws
pub mod Rebuild
use fire_redis.Prelude.{
  ℕ, Bool, true, false, Option, none, some, List, [], ◌∷◌, map, Bytes, beq, if◌then◌else◌,
}

abbrev pub Dict {ℓ} : Type ℓ → Type ℓ
Dict V = List (Bytes × V)

module _ {ℓ} {V : Type ℓ} where
  -- map.get(k)
  unfoldable pub get : Dict V → Bytes → Option V
  get [] k = none
  get ((j, v) ∷ d) k = if beq j k then some v else get d k

  -- map.insert(k, v): an entry that is there keeps its place.
  unfoldable pub insert : Dict V → Bytes → V → Dict V
  insert [] k v = (k, v) ∷ []
  insert ((j, w) ∷ d) k v = if beq j k then (j, v) ∷ d else (j, w) ∷ insert d k v

  -- map.remove(k)
  unfoldable pub remove : Dict V → Bytes → Dict V
  remove [] k = []
  remove ((j, w) ∷ d) k = let rest = remove d k in if beq j k then rest else (j, w) ∷ rest

  abbrev pub is_some : Option V → Bool
  is_some none = false
  is_some (some v) = true

  -- map.contains_key(k)
  abbrev pub contains_key : Dict V → Bytes → Bool
  contains_key d k = is_some (get d k)

  -- map.keys() and map.values()
  abbrev pub keys : Dict V → List Bytes
  keys d = map (λ e. e.0) d

  abbrev pub values : Dict V → List V
  values d = map (λ e. e.1) d

-- `HashSet<Bytes>`
abbrev pub HashSet : Type 0
HashSet = Dict (Unit {0})
