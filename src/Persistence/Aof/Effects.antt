-- ===== src/Persistence/Aof/Effects.antt =====
-- What the commands of `value_to_commands` (src/persistence/aof.rs) do to a key that is not there.
use fire_redis.Prelude.{
  ℕ, ◌+◌, ◌≡◌, refl, false, none, some, List, [], ◌∷◌, ◌++◌, Bytes, beq_refl, append_assoc,
  append-nil,
}
use fire_redis.Dict
use fire_redis.Dict.{Dict, HashSet}
use fire_redis.Dict.Laws.{NoDup, get-insert, get-remove, remove_absent}
use fire_redis.Dict.Rebuild.{insert_all, Apart, Apart-insert, Apart-nil}
use fire_redis.Platform.{Platform, Score}
use fire_redis.Store
use fire_redis.Store.{
  StoredValue, string, list, set, hash, sorted_set, Store, Instant, Tree, check_expiration,
  or_insert, type_of, exists, expire, set_expiration, from_millis, set_deadline,
}
use fire_redis.Store.Strings
use fire_redis.Store.Lists.{r_push, push_with, push_entry}
use fire_redis.Store.Sets.{s_add, insert_members}
use fire_redis.Store.Sets
use fire_redis.Store.Hashes.{h_set, set_entry}
use fire_redis.Store.SortedSets.{z_add, add_entry, tree_insert, drop_old}
use fire_redis.Commands.Data.Replies.{Handled, typed, ensure_type}
use fire_redis.Commands.Data.Lists.{push_all}
use fire_redis.Commands.Data.Hashes.{set_fields}
use fire_redis.Commands.Data.SortedSets.{add_scores}
use fire_redis.Persistence.Aof.Parses.{swapped}
use fire_redis.Persistence.Entries.{Holds}

-- A sorted set's index follows from its scores.
abbrev pub content : StoredValue → StoredValue
content (string b) = string b
content (list xs) = list xs
content (set ms) = set ms
content (hash map) = hash map
content (sorted_set scores tree) = sorted_set scores []

get_nil {ℓ} : {V : Type ℓ} (k : Bytes) → Dict.get {V = V} [] k ≡ none
unfolding Dict.get
get_nil k = refl

module _ (now : Instant) (key : Bytes) where
  pub unchecked :
      (t : Store) → Dict.get t.expirations key ≡ none → check_expiration now key t ≡ (t, false)
  unfolding check_expiration
  unchecked t h = rw h refl

  Holds-write :
      (v : StoredValue) (t : Store)
      → Dict.get t.expirations key ≡ none
      → Holds key (some v) (Store.write key v t)
  Holds-write v t h = (rw get-insert (rw (beq_refl key) refl), h)

  -- `typed` lets a missing key pass.
  pub typed-missing :
      (expected : Bytes) (f : Store → Handled) (t : Store)
      → Holds key none t
      → typed expected now key f t ≡ f t
  unfolding typed ensure_type type_of
  typed-missing expected f t h = rw (unchecked t h.1) (rw (h.0) refl)

  pub exists-missing : (t : Store) → Holds key none t → (exists now key t).0 ≡ t
  unfolding exists
  exists-missing t h = rw (unchecked t h.1) refl

  fields_first :
      (f v : Bytes) (t : Store)
      → Holds key none t
      → Holds key (some (hash (Dict.insert [] f v))) (h_set now key f v t).0
  unfolding h_set set_entry or_insert
  fields_first f v t h =
      rw (unchecked t h.1) (rw (h.0) (Holds-write _ (Store.write key (hash []) t) h.1))

  fields_next :
      (f v : Bytes) (acc : Dict Bytes) (t : Store)
      → Holds key (some (hash acc)) t
      → Holds key (some (hash (Dict.insert acc f v))) (h_set now key f v t).0
  unfolding h_set set_entry or_insert
  fields_next f v acc t h = rw (unchecked t h.1) (rw (h.0) (Holds-write _ t h.1))

  fields_rest :
      (d acc : Dict Bytes) (t : Store)
      → Holds key (some (hash acc)) t
      → Holds key (some (hash (insert_all d acc))) (set_fields now key d t).0
  unfolding set_fields insert_all
  fields_rest [] acc t h = h
  fields_rest ((f, v) ∷ d) acc t h =
      fields_rest d (Dict.insert acc f v) (h_set now key f v t).0 (fields_next f v acc t h)

  pub set_fields-missing :
      (f v : Bytes) (d : Dict Bytes) (t : Store)
      → Holds key none t
      → Holds key (some (hash (insert_all ((f, v) ∷ d) []))) (set_fields now key ((f, v) ∷ d) t).0
  unfolding set_fields insert_all
  set_fields-missing f v d t h =
      fields_rest d (Dict.insert [] f v) (h_set now key f v t).0 (fields_first f v t h)

  pub push_first :
      (x : Bytes) (t : Store)
      → Holds key none t
      → Holds key (some (list (x ∷ []))) (r_push now key x t).0
  unfolding r_push push_with push_entry or_insert
  push_first x t h =
      rw (unchecked t h.1) (rw (h.0) (Holds-write _ (Store.write key (list []) t) h.1))

  pub push_next :
      (x : Bytes) (xs : List Bytes) (t : Store)
      → Holds key (some (list xs)) t
      → Holds key (some (list (xs ++ x ∷ []))) (r_push now key x t).0
  unfolding r_push push_with push_entry or_insert
  push_next x xs t h = rw (unchecked t h.1) (rw (h.0) (Holds-write _ t h.1))

  push_rest :
      (ys xs : List Bytes) (n : ℕ) (t : Store)
      → Holds key (some (list xs)) t
      → Holds key (some (list (xs ++ ys))) (push_all (r_push now) key ys n t).0
  unfolding push_all
  push_rest [] xs n t h = rw (append-nil xs) h
  push_rest (y ∷ ys) xs n t h = rw (append_assoc xs (y ∷ []) ys) at (
      push_rest ys (xs ++ y ∷ []) (r_push now key y t).1 (r_push now key y t).0
        (push_next y xs t h))

  pub push_all-missing :
      (x : Bytes) (xs : List Bytes) (n : ℕ) (t : Store)
      → Holds key none t
      → Holds key (some (list (x ∷ xs))) (push_all (r_push now) key (x ∷ xs) n t).0
  unfolding push_all
  push_all-missing x xs n t h =
      push_rest xs (x ∷ []) (r_push now key x t).1 (r_push now key x t).0 (push_first x t h)

  insert_members-insert_all :
      (d acc : HashSet) → (insert_members (Dict.keys d) acc).0 ≡ insert_all d acc
  unfolding insert_members insert_all
  insert_members-insert_all [] acc = refl
  insert_members-insert_all ((m, u) ∷ d) acc = insert_members-insert_all d (Dict.insert acc m tt)

  pub s_add-missing :
      (d : HashSet) (t : Store)
      → Holds key none t
      → Holds key (some (set (insert_all d []))) (s_add now key (Dict.keys d) t).0
  unfolding s_add Sets.add_entry or_insert
  s_add-missing d t h = rw (unchecked t h.1) (
      rw (h.0)
        (rw (insert_members-insert_all d []) (Holds-write _ (Store.write key (set []) t) h.1)))

  pub set-missing :
      (v : Bytes) (t : Store)
      → Holds key none t
      → Holds key (some (string v)) (Strings.set now key v none t)
  unfolding Strings.set set_expiration
  set-missing v t h =
      (rw get-insert (rw (beq_refl key) refl), rw get-remove (rw (beq_refl key) refl))

  scores_first :
      (fl : Platform) (m : Bytes) (x : Score) (t : Store)
      → Holds key none t
      → (tree : Tree) × Holds key
          (some (sorted_set (Dict.insert [] m x) tree))
          (z_add fl now key x m t).0
  unfolding z_add add_entry or_insert
  scores_first fl m x t h = (
    tree_insert fl x m (drop_old fl (Dict.get [] m) m []),
    rw (unchecked t h.1) (
        rw (h.0) (
          rw (remove_absent {V = Score} [] m (get_nil m))
            (Holds-write _ (Store.write key (sorted_set [] []) t) h.1))),
  )

  scores_next :
      (fl : Platform) (m : Bytes) (x : Score) (acc : Dict Score) (old : Tree) (t : Store)
      → Dict.get acc m ≡ none
      → Holds key (some (sorted_set acc old)) t
      → (tree : Tree) × Holds key
          (some (sorted_set (Dict.insert acc m x) tree))
          (z_add fl now key x m t).0
  unfolding z_add add_entry or_insert
  scores_next fl m x acc old t e h = (
    tree_insert fl x m (drop_old fl (Dict.get acc m) m old),
    rw (unchecked t h.1) (rw (h.0) (rw (remove_absent acc m e) (Holds-write _ t h.1))),
  )

  scores_rest :
      (fl : Platform) (d acc : Dict Score) (old : Tree) (t : Store)
      → NoDup d
      → Apart d acc
      → Holds key (some (sorted_set acc old)) t
      → (tree : Tree) × Holds key
          (some (sorted_set (insert_all d acc) tree))
          (add_scores fl now key (swapped d) t).0
  unfolding add_scores insert_all swapped
  scores_rest fl [] acc old t n a h = (old, h)
  scores_rest fl ((m, x) ∷ d) acc old t n a h =
      let (tree, k) = scores_next fl m x acc old t a.0 h in
      scores_rest fl d (Dict.insert acc m x) tree (z_add fl now key x m t).0 n.1
        (Apart-insert d acc m x n.0 a.1) k

  pub add_scores-missing :
      (fl : Platform) (m : Bytes) (x : Score) (d : Dict Score) (t : Store)
      → NoDup ((m, x) ∷ d)
      → Holds key none t
      → (tree : Tree) × Holds key
          (some (sorted_set (insert_all ((m, x) ∷ d) []) tree))
          (add_scores fl now key (swapped ((m, x) ∷ d)) t).0
  unfolding add_scores insert_all swapped
  add_scores-missing fl m x d t n h =
      let (tree, k) = scores_first fl m x t h in
      scores_rest fl d (Dict.insert [] m x) tree (z_add fl now key x m t).0 n.1
        (Apart-insert d [] m x n.0 (Apart-nil d)) k

  -- EXPIRE on a key that is there and has no deadline.
  pub expire-Holds :
      (ms : ℕ) (v : StoredValue) (t : Store)
      → Holds key (some v) t
      → (Dict.get (expire now key ms t).0.entries key ≡ some v)
        × (Dict.get (expire now key ms t).0.expirations key ≡ some (now + from_millis ms))
  unfolding expire set_expiration
  expire-Holds ms v t h =
      rw (unchecked t h.1) (rw (h.0) (h.0, rw get-insert (rw (beq_refl key) refl)))
