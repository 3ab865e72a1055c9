-- ===== src/Store/Hashes.antt =====
-- src/store/hash.rs: hashes.
pub mod Reads
use fire_redis.Prelude.{
  ℕ, ◌+◌, Bool, false, not, Option, none, some, List, [], ◌∷◌, Bytes, if◌then◌else◌, length,
  is_empty,
}
use fire_redis.Dict
use fire_redis.Dict.{Dict, is_some}
use fire_redis.Store.{
  StoredValue, hash, Store, Instant, write, write_or_forget, check_expiration, or_insert,
}

-- `map.insert(field, value).is_none()`
unfoldable pub set_entry : Bytes → Bytes → Bytes → StoredValue → Store → Store × Bool
set_entry key field v (hash map) s =
    (write key (hash (Dict.insert map field v)) s, not (Dict.contains_key map field))
set_entry key field v _ s = (s, false)

unfoldable pub h_set : Instant → Bytes → Bytes → Bytes → Store → Store × Bool
unfolding set_entry check_expiration or_insert
h_set now key field v s =
    let (s', _) = check_expiration now key s in
    let (s'', entry) = or_insert key (hash []) s' in set_entry key field v entry s''

-- The fields of an entry; a value of another type and a missing key have none.
abbrev pub fields_of : Option StoredValue → Dict Bytes
fields_of (some (hash map)) = map
fields_of _ = []

-- Every read of a hash is a function of its fields; `absent` is its result on a dropped key.
unfoldable pub read_fields {ℓ} :
    {A : Type ℓ} → A → (Dict Bytes → A) → Instant → Bytes → Store → Store × A
unfolding check_expiration
read_fields absent f now key s =
    let (s', expired) = check_expiration now key s in
    if expired then (s', absent) else (s', f (fields_of (Dict.get s'.entries key)))

unfoldable pub h_get : Instant → Bytes → Bytes → Store → Store × Option Bytes
unfolding read_fields
h_get now key field s = read_fields none (λ map. Dict.get map field) now key s

unfoldable pub h_get_all : Instant → Bytes → Store → Store × Dict Bytes
unfolding read_fields
h_get_all now key s = read_fields [] (λ map. map) now key s

-- fields.iter().filter(|f| map.remove(*f).is_some()).count()
unfoldable pub remove_fields {ℓ} : {V : Type ℓ} → List Bytes → Dict V → Dict V × ℕ
remove_fields [] map = (map, 0)
remove_fields (field ∷ fields) map =
    let (rest, n) = remove_fields fields (Dict.remove map field) in
    (rest, (if Dict.contains_key map field then 1 else 0) + n)

unfoldable pub del_entry : Bytes → List Bytes → Option StoredValue → Store → Store × ℕ
unfolding remove_fields
del_entry key fields (some (hash map)) s =
    let (rest, removed) = remove_fields fields map in
    (write_or_forget key (hash rest) (is_empty rest) s, removed)
del_entry key fields _ s = (s, 0)

unfoldable pub h_del : Instant → Bytes → List Bytes → Store → Store × ℕ
unfolding del_entry check_expiration
h_del now key fields s =
    let (s', expired) = check_expiration now key s in
    if expired then (s', 0) else del_entry key fields (Dict.get s'.entries key) s'

unfoldable pub h_len : Instant → Bytes → Store → Store × ℕ
unfolding read_fields
h_len now key s = read_fields 0 (λ map. length map) now key s

unfoldable pub h_exists : Instant → Bytes → Bytes → Store → Store × Bool
unfolding read_fields
h_exists now key field s = read_fields false (λ map. Dict.contains_key map field) now key s

unfoldable pub h_keys : Instant → Bytes → Store → Store × List Bytes
unfolding read_fields
h_keys now key s = read_fields [] (λ map. Dict.keys map) now key s

unfoldable pub h_vals : Instant → Bytes → Store → Store × List Bytes
unfolding read_fields
h_vals now key s = read_fields [] (λ map. Dict.values map) now key s
