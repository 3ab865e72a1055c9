-- ===== src/Store/Sets.antt =====
-- src/store/set.rs: sets.
use fire_redis.Prelude.{
  ℕ, zero, suc, ◌+◌, Bool, false, Option, some, List, [], ◌∷◌, Bytes, if◌then◌else◌, length,
  is_empty,
}
use fire_redis.Dict
use fire_redis.Dict.{HashSet}
use fire_redis.Store.{
  StoredValue, set, Store, Instant, write, write_or_forget, check_expiration, or_insert,
}

-- The loop over the members: the set behind it, and how many were new.
unfoldable pub insert_members : List Bytes → HashSet → HashSet × ℕ
insert_members [] members = (members, 0)
insert_members (m ∷ ms) members =
    let (members', n) = insert_members ms (Dict.insert members m tt) in
    (members', (if Dict.contains_key members m then 0 else 1) + n)

unfoldable pub add_entry : Bytes → List Bytes → StoredValue → Store → Store × ℕ
unfolding insert_members
add_entry key ms (set members) s =
    let (members', added) = insert_members ms members in (write key (set members') s, added)
add_entry key ms _ s = (s, 0)

unfoldable pub s_add : Instant → Bytes → List Bytes → Store → Store × ℕ
unfolding add_entry check_expiration or_insert
s_add now key ms s =
    let (s', _) = check_expiration now key s in
    let (s'', entry) = or_insert key (set []) s' in add_entry key ms entry s''

-- members.iter().filter(|m| set.remove(*m)).count()
unfoldable pub remove_members : List Bytes → HashSet → HashSet × ℕ
remove_members [] members = (members, 0)
remove_members (m ∷ ms) members =
    let (rest, n) = remove_members ms (Dict.remove members m) in
    (rest, (if Dict.contains_key members m then 1 else 0) + n)

unfoldable pub rem_entry : Bytes → List Bytes → Option StoredValue → Store → Store × ℕ
unfolding remove_members
rem_entry key ms (some (set members)) s =
    let (rest, removed) = remove_members ms members in
    (write_or_forget key (set rest) (is_empty rest) s, removed)
rem_entry key ms _ s = (s, 0)

unfoldable pub s_rem : Instant → Bytes → List Bytes → Store → Store × ℕ
unfolding rem_entry check_expiration
s_rem now key ms s =
    let (s', expired) = check_expiration now key s in
    if expired then (s', 0) else rem_entry key ms (Dict.get s'.entries key) s'

abbrev pub members_of : Option StoredValue → HashSet
members_of (some (set members)) = members
members_of _ = []

-- Every read of a set is a function of its members; `absent` is its result on a dropped key.
unfoldable pub read_members {ℓ} :
    {A : Type ℓ} → A → (HashSet → A) → Instant → Bytes → Store → Store × A
unfolding check_expiration
read_members absent f now key s =
    let (s', expired) = check_expiration now key s in
    if expired then (s', absent) else (s', f (members_of (Dict.get s'.entries key)))

unfoldable pub s_members : Instant → Bytes → Store → Store × List Bytes
unfolding read_members
s_members now key s = read_members [] (λ members. Dict.keys members) now key s

unfoldable pub s_is_member : Instant → Bytes → Bytes → Store → Store × Bool
unfolding read_members
s_is_member now key m s = read_members false (λ members. Dict.contains_key members m) now key s

unfoldable pub s_card : Instant → Bytes → Store → Store × ℕ
unfolding read_members
s_card now key s = read_members 0 (λ members. length members) now key s

-- `count` rounds of `set.iter().next()` and `set.remove`, until the set is empty. The order of the
-- table decides which members go.
unfoldable pub pop_members : ℕ → HashSet → HashSet × List Bytes
pop_members zero members = (members, [])
pop_members (suc n) [] = ([], [])
pop_members (suc n) ((m, u) ∷ members) =
    let (rest, popped) = pop_members n members in (rest, m ∷ popped)

unfoldable pub pop_entry : Bytes → ℕ → Option StoredValue → Store → Store × List Bytes
unfolding pop_members
pop_entry key n (some (set members)) s =
    let (rest, popped) = pop_members n members in
    (write_or_forget key (set rest) (is_empty rest) s, popped)
pop_entry key n _ s = (s, [])

unfoldable pub s_pop : Instant → Bytes → ℕ → Store → Store × List Bytes
unfolding pop_entry check_expiration
s_pop now key n s =
    let (s', expired) = check_expiration now key s in
    if expired then (s', []) else pop_entry key n (Dict.get s'.entries key) s'
