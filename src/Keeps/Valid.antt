-- ===== src/Keeps/Valid.antt =====
-- The invariant of the keyspace of src/store.
use mathlib.Core.Path.{subst}
use fire_redis.Prelude.{
  ℤ, ◌≡◌, refl, true, false, Option, List, [], ◌∷◌, Bytes, All, beq, beq_iff, none, some, arith,
  is_empty, ◌⊎◌, inl, inr, Bool-cases,
}
use fire_redis.Dict
use fire_redis.Dict.{Dict, HashSet}
use fire_redis.Dict.Laws.{NoDup, get-insert, get-remove, insert-NoDup, remove-NoDup}
use fire_redis.Platform.{Platform, Score}
use fire_redis.Metrics.{Metrics}
use fire_redis.Store
use fire_redis.Store.{
  StoredValue, string, list, set, hash, sorted_set, Store, Instant, Tree, check_expiration,
}
use fire_redis.Store.SortedSets
use fire_redis.Commands.Types.{Command}
use fire_redis.Commands.Execute.{execute}
use fire_redis.Store.SortedSets.Order.{
  IsOrdered, IsAscending, all_members-IsAscending, members_range-IsAscending,
}
use fire_redis.Store.SortedSets.Agreement.{
  Agrees, empty-Agrees, replace-Agrees, remove_scored-Agrees,
}
use fire_redis.Keeps.Keys.{check_keeps}
use fire_redis.Keeps.Loops.{
  insert_full, remove_fields-NoDup, insert_members-NoDup, insert_members_full, remove_members-NoDup,
  pop_members-NoDup,
}
use fire_redis.Keeps.{Closed}
use fire_redis.Keeps.Values.{Admits}
use fire_redis.Keeps.Named.{keys_of, HasMembers}
use fire_redis.Keeps.Commands.{execute_keeps, forget_all_keeps}

-- A collection has distinct keys and is not empty.
abbrev Full {ℓ} : {V : Type ℓ} → Dict V → Type ℓ
Full d = NoDup d × (is_empty d ≡ false)

-- A stored collection is never empty, and its members or fields are distinct; the scores of a sorted
-- set's index go up, each with at least one member, and the index holds every member under its score
-- and no other.
abbrev pub IsGood : Platform → StoredValue → Type 0
IsGood fl (string b) = Unit
IsGood fl (list xs) = is_empty xs ≡ false
IsGood fl (set members) = Full members
IsGood fl (hash map) = Full map
IsGood fl (sorted_set scores tree) = Full scores × Agrees fl scores tree

-- Keys stand once, a deadline belongs to a key that is there, and every value is good.
pub record IsValid (fl : Platform) (s : Store) : Type 0 where
  pub distinct : NoDup s.entries
  pub deadlines : NoDup s.expirations
  pub attached :
      (k : Bytes) → Dict.contains_key s.expirations k ≡ true → Dict.contains_key s.entries k ≡ true
  pub good : (k : Bytes) (v : StoredValue) → Dict.get s.entries k ≡ some v → IsGood fl v

start {ℓ} : {V : Type ℓ} (d : Dict V) → Full d ⊎ (d ≡ []) → NoDup d
start d (inl h) = h.0
start d (inr e) = rw e tt

scores_start :
    (fl : Platform) (scores : Dict Score) (tree : Tree)
    → (Full scores × Agrees fl scores tree) ⊎ ((scores ≡ []) × (tree ≡ []))
    → Agrees fl scores tree
scores_start fl scores tree (inl h) = h.1
scores_start fl scores tree (inr e) = rw (e.0, e.1) (empty-Agrees fl)

IsGood-Admits : (fl : Platform) → Admits fl (IsGood fl)
IsGood-Admits fl = record {
  strings = λ b. tt;
  lists = λ xs h. h;
  hash_grow = λ map f v h. (insert-NoDup map f v (start map h), insert_full map f v);
  hash_shrink = λ map fs q h. (remove_fields-NoDup fs map q.0, h);
  set_grow = λ ms members h q.
      (insert_members-NoDup ms members (start members q), insert_members_full ms members (inl h));
  set_shrink = λ ms members q h. (remove_members-NoDup ms members q.0, h);
  set_pop = λ n members q h. (pop_members-NoDup n members q.0, h);
  scores_grow = λ scores tree x m q.
      let kept = replace-Agrees fl scores tree x m (scores_start fl scores tree q) in
      ((kept.distinct, insert_full (Dict.remove scores m) m x), kept);
  scores_shrink = λ scores tree ms q h.
      let kept = remove_scored-Agrees fl ms scores tree q.1 in ((kept.distinct, h), kept);
}

IsGood-at :
    (fl : Platform) (k : Bytes) (v : StoredValue) (s : Store)
    → IsValid fl s
    → IsGood fl v
    → (j : Bytes) (w : StoredValue) → Dict.get (Dict.insert s.entries k v) j ≡ some w
    → IsGood fl w
IsGood-at fl k v s h q j w e = elim (Bool-cases (beq k j)) [
  | inl same ↦
      let p : some v ≡ some w = ground (arith, get-insert s.entries k j v) in
      let u : v ≡ w = cc in subst (IsGood fl) u q
  | inr other ↦ h.good j w (ground (arith, get-insert s.entries k j v))
]

pub IsValid-Closed : (fl : Platform) (k : Bytes) → Closed (IsGood fl) (IsValid fl) k
IsValid-Closed fl k = record {
  on_forget = λ s h. record {
    distinct = remove-NoDup s.entries k h.distinct;
    deadlines = remove-NoDup s.expirations k h.deadlines;
    attached =
        λ j. ground (arith, get-remove s.entries k j, get-remove s.expirations k j, h.attached j);
    good = λ j v. ground (arith, get-remove s.entries k j, h.good j v);
  };
  on_write = λ s v q h. record {
    distinct = insert-NoDup s.entries k v h.distinct;
    deadlines = h.deadlines;
    attached = λ j. ground (arith, get-insert s.entries k j v, h.attached j);
    good = λ j w e. IsGood-at fl k v s h q j w e;
  };
  on_deadline = λ s t q h. record {
    distinct = h.distinct;
    deadlines = insert-NoDup s.expirations k t h.deadlines;
    attached = λ j. ground (arith, get-insert s.expirations k j t, h.attached j, beq_iff k j);
    good = h.good;
  };
  on_clear = λ s h. record {
    distinct = h.distinct;
    deadlines = remove-NoDup s.expirations k h.deadlines;
    attached = λ j. ground (arith, get-remove s.expirations k j, h.attached j);
    good = h.good;
  };
  on_read = λ s v e h. h.good k v e;
}

All-Closed : (fl : Platform) (ks : List Bytes) → All (Closed (IsGood fl) (IsValid fl)) ks
All-Closed fl [] = tt
All-Closed fl (k ∷ ks) = (IsValid-Closed fl k, All-Closed fl ks)

none-some : (v : StoredValue) → none ≡ some v → ⊥
none-some v e = cc

pub evict_keeps :
    (fl : Platform) (now : Instant) (s : Store)
    → IsValid fl s
    → IsValid fl (Store.evict_expired now s).0
unfolding Store.evict_expired
evict_keeps fl now s h =
    let kept : IsValid fl (Store.forget_all (Store.due_keys now s.expirations) s).0 =
      forget_all_keeps (IsValid fl) (IsGood-Admits fl) (Store.due_keys now s.expirations) s
        (All-Closed fl (Store.due_keys now s.expirations)) h in
    record {
      distinct = kept.distinct;
      deadlines = kept.deadlines;
      attached = kept.attached;
      good = kept.good;
    }

pub keys_keeps :
    (fl : Platform) (now : Instant) (s : Store) → IsValid fl s → IsValid fl (Store.keys now s).0
unfolding Store.keys
keys_keeps fl now s h = evict_keeps fl now s h

flush_keeps : (fl : Platform) (s : Store) → IsValid fl (Store.flush_all s)
unfolding Store.flush_all Dict.get
flush_keeps fl s = record {
  distinct = tt;
  deadlines = tt;
  attached = λ k e. e;
  good = λ k v e. absurd (none-some v e);
}

-- Every command with at least one member to add (SADD) keeps the keyspace valid: each key stands
-- once, only keys that are there have a deadline, no stored collection is empty, the members and
-- fields of a collection are distinct, and the two indexes of a sorted set agree: the scores go up, each
-- with its members, every member stands under its own score and nowhere else, and once.
pub execute-IsValid :
    (fl : Platform) (info : Metrics → Bytes) (now : Instant) (c : Command) (s : Store)
    → HasMembers c
    → IsValid fl s
    → IsValid fl (execute fl info now c s).0
execute-IsValid fl info now c s m h =
    execute_keeps (IsValid fl) (IsGood-Admits fl) info now c s m (All-Closed fl (keys_of c))
      (λ w. (flush_keeps fl s, keys_keeps fl now s h)) h

tree-IsOrdered :
    (fl : Platform) (o : Option StoredValue)
    → ((v : StoredValue) → o ≡ some v → IsGood fl v)
    → IsOrdered fl (SortedSets.tree_of o)
tree-IsOrdered fl none h = tt
tree-IsOrdered fl (some (string b)) h = tt
tree-IsOrdered fl (some (list xs)) h = tt
tree-IsOrdered fl (some (set xs)) h = tt
tree-IsOrdered fl (some (hash xs)) h = tt
tree-IsOrdered fl (some (sorted_set scores tree)) h = (h (sorted_set scores tree) refl).1.ordered

-- In a valid keyspace, ZRANGE returns members by ascending score, for any two offsets.
pub z_range-IsAscending :
    (fl : Platform) (now : Instant) (key : Bytes) (i j : ℤ) (s : Store)
    → IsValid fl s
    → IsAscending fl (SortedSets.z_range now key i j s).1
unfolding SortedSets.z_range
z_range-IsAscending fl now key i j s h =
    let t : Store = (check_expiration now key s).0 in
    let valid : IsValid fl t = check_keeps (IsValid-Closed fl key) now s h in
    elim (Bool-cases (check_expiration now key s).1) [
      | inl gone ↦ rw gone tt
      | inr there ↦ rw there (
          members_range-IsAscending fl _ i j (
            all_members-IsAscending fl _
              (tree-IsOrdered fl (Dict.get t.entries key) (λ v e. valid.good key v e))))
    ]
