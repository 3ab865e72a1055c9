-- ===== src/Store.antt =====
-- src/store/mod.rs: the keyspace, the deadlines of its keys, and the operations on keys of any type.
-- The operations on one type are in Store/Strings, Lists, Hashes, Sets and SortedSets.
--
-- A store is the pair of tables behind the shared handle, so a method takes the store and returns
-- it beside its result; `now` is what `Instant::now()` reads during the method, in nanoseconds.
pub mod Strings
pub mod Lists
pub mod Hashes
pub mod Sets
pub mod SortedSets
pub mod Expiry
use fire_redis.Prelude.{
  ℕ, zero, suc, ◌+◌, ◌-◌, ◌*◌, ◌/◌, Bool, true, false, ◌&&◌, not, Option, none, some, List, [], ◌∷◌,
  Bytes, codes, ltb, leb, if◌then◌else◌, length, ℤ, pos, negsuc, as_i64,
}
use fire_redis.Dict
use fire_redis.Dict.{Dict, HashSet, is_some}
use fire_redis.Platform.{Score}
use fire_redis.Metrics.{Metrics, record_evicted}

-- The `BTreeMap` of a sorted set: its entries from the lowest score to the highest.
abbrev pub Tree : Type 0
Tree = List (Score × HashSet)

pub data StoredValue : Type 0 where
  string : Bytes → StoredValue
  list : List Bytes → StoredValue
  set : HashSet → StoredValue
  hash : Dict Bytes → StoredValue
  sorted_set : Dict Score → Tree → StoredValue

abbrev pub Instant : Type 0
Instant = ℕ

pub record Store : Type 0 where
  pub entries : Dict StoredValue
  pub expirations : Dict Instant
  pub metrics : Metrics

unfoldable pub with_metrics : Metrics → Store
with_metrics m = record { entries = []; expirations = []; metrics = m }

-- Duration::from_millis and Duration::as_millis
abbrev pub from_millis : ℕ → ℕ
from_millis ms = ms * 1000000

abbrev pub as_millis : ℕ → ℕ
as_millis ns = ns / 1000000

-- The two tables' changes of one key.
abbrev pub write : Bytes → StoredValue → Store → Store
write key v s = record s { entries = Dict.insert s.entries key v }

abbrev pub set_deadline : Bytes → Instant → Store → Store
set_deadline key t s = record s { expirations = Dict.insert s.expirations key t }

abbrev pub clear_deadline : Bytes → Store → Store
clear_deadline key s = record s { expirations = Dict.remove s.expirations key }

-- data.remove(key); expirations.remove(key)
abbrev pub forget : Bytes → Store → Store
forget key s = record s {
  entries = Dict.remove s.entries key;
  expirations = Dict.remove s.expirations key;
}

-- A collection that has become empty goes with its deadline.
abbrev pub write_or_forget : Bytes → StoredValue → Bool → Store → Store
write_or_forget key v empty s = if empty then forget key (write key v s) else write key v s

abbrev pub is_due : Instant → Option Instant → Bool
is_due now none = false
is_due now (some t) = leb t now

-- Lazy expiration: whether the key was dropped.
unfoldable pub check_expiration : Instant → Bytes → Store → Store × Bool
check_expiration now key s =
    if is_due now (Dict.get s.expirations key) then (forget key s, true) else (s, false)

unfoldable pub set_expiration : Instant → Bytes → Option ℕ → Store → Store
set_expiration now key none s = clear_deadline key s
set_expiration now key (some ms) s = set_deadline key (now + from_millis ms) s

-- The keys whose deadline has passed.
unfoldable pub due_keys : Instant → Dict Instant → List Bytes
due_keys now [] = []
due_keys now ((key, t) ∷ d) = let rest = due_keys now d in if leb t now then key ∷ rest else rest

-- The loop of `evict_expired`, and of `del`: every key goes, and those that held a value are counted.
unfoldable pub forget_all : List Bytes → Store → Store × ℕ
forget_all [] s = (s, 0)
forget_all (key ∷ keys) s =
    let (s', n) = forget_all keys (forget key s) in
    (s', (if is_some (Dict.get s.entries key) then 1 else 0) + n)

unfoldable pub evict_expired : Instant → Store → Store × ℕ
unfolding due_keys forget_all
evict_expired now s =
    let (s', evicted) = forget_all (due_keys now s.expirations) s in
    (record s' { metrics = record_evicted evicted s'.metrics }, evicted)

unfoldable pub snapshot : Instant → Store → Store × (Dict StoredValue × Dict Instant)
unfolding evict_expired
snapshot now s = let (s', _) = evict_expired now s in (s', (s'.entries, s'.expirations))

unfoldable pub restore : Bytes → StoredValue → Store → Store
restore key v s = write key v s

unfoldable pub set_with_ttl : Instant → Bytes → StoredValue → ℕ → Store → Store
set_with_ttl now key v ttl_ms s = set_deadline key (now + from_millis ttl_ms) (write key v s)

unfoldable pub get_for_restore : Bytes → Store → Option StoredValue
get_for_restore key s = Dict.get s.entries key

abbrev pub at_least_one : ℕ → ℕ
at_least_one n = if leb n 1 then 1 else n

unfoldable pub ttl_ms_for_persistence : Instant → Bytes → Store → Option ℕ
ttl_ms_for_persistence now key s = elim (Dict.get s.expirations key) [
  | none ↦ none
  | some t ↦ some (at_least_one (as_millis (t - now)))
]

unfoldable pub clear_all : Store → Store
clear_all s = record s { entries = []; expirations = [] }

unfoldable pub del : List Bytes → Store → Store × ℕ
unfolding forget_all
del keys s = forget_all keys s

unfoldable pub exists : Instant → Bytes → Store → Store × Bool
unfolding check_expiration
exists now key s =
    let (s', expired) = check_expiration now key s in
    (s', not expired && is_some (Dict.get s'.entries key))

abbrev pub type_name : StoredValue → Bytes
type_name (string _) = codes "string"
type_name (list _) = codes "list"
type_name (set _) = codes "set"
type_name (hash _) = codes "hash"
type_name (sorted_set _ _) = codes "zset"

abbrev pub type_of_entry : Option StoredValue → Option Bytes
type_of_entry none = none
type_of_entry (some v) = some (type_name v)

unfoldable pub type_of : Instant → Bytes → Store → Store × Option Bytes
unfolding check_expiration
type_of now key s =
    let (s', expired) = check_expiration now key s in
    if expired then (s', none) else (s', type_of_entry (Dict.get s'.entries key))

unfoldable pub keys : Instant → Store → Store × List Bytes
unfolding evict_expired
keys now s = let (s', _) = evict_expired now s in (s', Dict.keys s'.entries)

unfoldable pub key_count : Store → ℕ
key_count s = length s.entries

unfoldable pub flush_all : Store → Store
flush_all s = record s { entries = []; expirations = [] }

unfoldable pub expire : Instant → Bytes → ℕ → Store → Store × Bool
unfolding check_expiration set_expiration
expire now key expire_ms s =
    let (s', expired) = check_expiration now key s in
    if expired
    then (s', false)
    else if Dict.contains_key s'.entries key
    then (set_expiration now key (some expire_ms) s', true)
    else (s', false)

-- The remaining time; `-1` with no deadline.
abbrev pub remaining : Instant → Option Instant → ℤ
remaining now none = negsuc 0
remaining now (some t) = as_i64 (as_millis (t - now))

unfoldable pub pttl : Instant → Bytes → Store → Store × ℤ
unfolding exists
pttl now key s =
    let (s', found) = exists now key s in
    if found then (s', remaining now (Dict.get s'.expirations key)) else (s', negsuc 1)

-- `ms / 1000` on i64 truncates towards zero.
abbrev pub to_seconds : ℤ → ℤ
to_seconds (pos n) = pos (n / 1000)
to_seconds (negsuc zero) = negsuc 0
to_seconds (negsuc (suc zero)) = negsuc 1
to_seconds (negsuc n) = elim ((n + 1) / 1000) [ zero ↦ pos 0 | suc q ↦ negsuc q ]

unfoldable pub ttl : Instant → Bytes → Store → Store × ℤ
unfolding pttl
ttl now key s = let (s', ms) = pttl now key s in (s', to_seconds ms)

abbrev or_insert_at : Bytes → StoredValue → Option StoredValue → Store → Store × StoredValue
or_insert_at key v none s = (write key v s, v)
or_insert_at key v (some w) s = (s, w)

-- data.entry(key).or_insert_with(default): the value to be changed in place.
unfoldable pub or_insert : Bytes → StoredValue → Store → Store × StoredValue
or_insert key v s = or_insert_at key v (Dict.get s.entries key) s
