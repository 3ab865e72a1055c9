-- ===== src/Store/SortedSets/Buckets.antt =====
-- The members of one score in the score index of src/store/sorted_set.rs.
use fire_redis.Prelude.{
  ℕ, ◌+◌, ◌≡◌, refl, sym, subst, true, List, [], ◌∷◌, map, ltb→lt, Bytes, Bool-cases, inl, inr, ltb,
  ◌==◌, if◌then◌else◌, arith, length, length-append, is_empty,
}
use fire_redis.Dict
use fire_redis.Dict.{HashSet}
use fire_redis.Dict.Laws.{NoDup, insert-NoDup, remove-NoDup, length-insert, length-remove}
use fire_redis.Platform.{Platform, Score}
use fire_redis.Store.{Tree}
use fire_redis.Store.SortedSets.{tree_insert, tree_remove, all_members, scored}
use fire_redis.Store.SortedSets.Order.{Above, IsOrdered}

module _ (fl : Platform) where
  -- The members that stand under a score of this rank.
  unfoldable pub bucket : ℕ → Tree → HashSet
  bucket n [] = []
  bucket n ((y, ms) ∷ tree) = if n == fl.rank y then ms else bucket n tree

  pub bucket_below :
      (n : ℕ) (tree : Tree) → Above fl n tree → IsOrdered fl tree → bucket n tree ≡ []
  unfolding bucket
  bucket_below n [] h k = refl
  bucket_below n ((y, ms) ∷ []) h k = ground arith
  bucket_below n ((y, ms) ∷ (z, ns) ∷ tree) h k = ground (arith, bucket_below n ((z, ns) ∷ tree))

  bucket_cons :
      (n : ℕ) (y : Score) (ms : HashSet) (tree : Tree)
      → bucket n ((y, ms) ∷ tree) ≡ (if n == fl.rank y then ms else bucket n tree)
  unfolding bucket
  bucket_cons n y ms tree = refl

  bucket_at :
      (n : ℕ) (tree : Tree) (k : ℕ)
      → n ≡ k
      → Above fl k tree
      → IsOrdered fl tree
      → bucket n tree ≡ []
  bucket_at n tree k e above h =
      subst (λ i. bucket i tree ≡ []) (sym e) (bucket_below k tree above h)

  -- A new score in front of the ones that are there.
  bucket_front :
      (n : ℕ) (x : Score) (m : Bytes) (tree : Tree)
      → Above fl (fl.rank x) tree
      → IsOrdered fl tree
      → bucket n ((x, Dict.insert [] m tt) ∷ tree)
        ≡ (if n == fl.rank x then Dict.insert (bucket n tree) m tt else bucket n tree)
  bucket_front n x m tree above h = elim (Bool-cases (n == fl.rank x)) [
    | inl same ↦
        rw
          (
            bucket_cons n x (Dict.insert [] m tt) tree,
            same,
            bucket_at n tree (fl.rank x) (ground arith) above h,
          )
          refl
    | inr other ↦ rw (bucket_cons n x (Dict.insert [] m tt) tree, other) refl
  ]

  pub bucket-insert :
      (n : ℕ) (x : Score) (m : Bytes) (tree : Tree)
      → IsOrdered fl tree
      → bucket n (tree_insert fl x m tree)
        ≡ (if n == fl.rank x then Dict.insert (bucket n tree) m tt else bucket n tree)
  unfolding bucket tree_insert
  bucket-insert n x m [] h = ground arith
  bucket-insert n x m ((y, ms) ∷ tree) h = elim (Bool-cases (fl.rank x == fl.rank y)) [
    | inl same ↦ rw same (ground arith)
    | inr other ↦ rw other (elim (Bool-cases (ltb (fl.rank x) (fl.rank y))) [
      | inl below ↦ rw below (bucket_front n x m ((y, ms) ∷ tree) (ltb→lt _ _ below) h)
      | inr above ↦ rw above (ground (arith, bucket-insert n x m tree h.2))
    ])
  ]

  empty-nil : (ms : HashSet) → is_empty ms ≡ true → ms ≡ []
  empty-nil [] h = refl
  empty-nil (e ∷ ms) h = cc

  -- The last member of the first score.
  bucket_emptied :
      (n : ℕ) (x y : Score) (m : Bytes) (ms : HashSet) (tree : Tree)
      → fl.rank x ≡ fl.rank y
      → Dict.remove ms m ≡ []
      → Above fl (fl.rank y) tree
      → IsOrdered fl tree
      → bucket n tree ≡ (
          if n == fl.rank x
          then Dict.remove (bucket n ((y, ms) ∷ tree)) m
          else bucket n ((y, ms) ∷ tree))
  bucket_emptied n x y m ms tree e gone above h = elim (Bool-cases (n == fl.rank y)) [
    | inl same ↦
        rw (bucket_cons n y ms tree, e, same, gone)
          (bucket_at n tree (fl.rank y) (ground arith) above h)
    | inr other ↦ rw (bucket_cons n y ms tree, e, other) refl
  ]

  pub bucket-remove :
      (n : ℕ) (x : Score) (m : Bytes) (tree : Tree)
      → IsOrdered fl tree
      → bucket n (tree_remove fl x m tree)
        ≡ (if n == fl.rank x then Dict.remove (bucket n tree) m else bucket n tree)
  unfolding bucket tree_remove Dict.remove
  bucket-remove n x m [] h = ground arith
  bucket-remove n x m ((y, ms) ∷ tree) h = elim (Bool-cases (fl.rank x == fl.rank y)) [
    | inl same ↦ elim (Bool-cases (is_empty (Dict.remove ms m))) [
      | inl gone ↦
          rw (same, gone) (bucket_emptied n x y m ms tree (ground arith) (empty-nil _ gone) h.0 h.2)
      | inr left ↦ rw (same, left) (ground arith)
    ]
    | inr other ↦ rw other (ground (arith, bucket-remove n x m tree h.2))
  ]

  -- The members under each score are distinct.
  abbrev pub AreDistinct : Tree → Type 0
  AreDistinct [] = Unit
  AreDistinct ((x, ms) ∷ tree) = NoDup ms × AreDistinct tree

  pub insert-AreDistinct :
      (x : Score) (m : Bytes) (tree : Tree)
      → AreDistinct tree
      → AreDistinct (tree_insert fl x m tree)
  unfolding tree_insert
  insert-AreDistinct x m [] h = (insert-NoDup {0} [] m tt tt, tt)
  insert-AreDistinct x m ((y, ms) ∷ tree) h = ground (
    arith,
    insert-NoDup ms m tt h.0,
    insert-NoDup {0} [] m tt tt,
    insert-AreDistinct x m tree h.1,
  )

  pub remove-AreDistinct :
      (x : Score) (m : Bytes) (tree : Tree)
      → AreDistinct tree
      → AreDistinct (tree_remove fl x m tree)
  unfolding tree_remove
  remove-AreDistinct x m [] h = tt
  remove-AreDistinct x m ((y, ms) ∷ tree) h =
      ground (arith, remove-NoDup ms m h.0, remove-AreDistinct x m tree h.1)

  -- How many members the tree has.
  unfoldable pub size : Tree → ℕ
  size [] = 0
  size ((x, ms) ∷ tree) = length ms + size tree

  length-map {ℓ κ} :
      {A : Type ℓ} {B : Type κ} (f : A → B) (xs : List A) → length (map f xs) ≡ length xs
  length-map f [] = refl
  length-map f (x ∷ xs) = omega (arith, length-map f xs)

  pub length-all_members : (tree : Tree) → length (all_members tree) ≡ size tree
  unfolding all_members size
  length-all_members [] = refl
  length-all_members ((x, ms) ∷ tree) = omega (
    arith,
    length-append (scored (x, ms)) (all_members tree),
    length-map {B = Bytes × Score} (λ m. (m, x)) (Dict.keys ms),
    length-map {A = Bytes × Unit {0}} {B = Bytes} (λ e. e.0) ms,
    length-all_members tree,
  )

  pub size-insert :
      (x : Score) (m : Bytes) (tree : Tree)
      → IsOrdered fl tree
      → size (tree_insert fl x m tree)
        ≡ (if Dict.contains_key (bucket (fl.rank x) tree) m then size tree else size tree + 1)
  unfolding size bucket tree_insert Dict.get Dict.insert
  size-insert x m [] h = ground (arith, length-insert {0} [] m tt)
  size-insert x m ((y, ms) ∷ tree) h = elim (Bool-cases (fl.rank x == fl.rank y)) [
    | inl same ↦ rw same (ground (arith, length-insert ms m tt))
    | inr other ↦ rw other (elim (Bool-cases (ltb (fl.rank x) (fl.rank y))) [
      | inl below ↦ rw (below, bucket_below (fl.rank x) tree (ground arith) h.2) (omega arith)
      | inr above ↦ rw above (ground (arith, size-insert x m tree h.2))
    ])
  ]

  pub size-remove :
      (x : Score) (m : Bytes) (tree : Tree)
      → AreDistinct tree
      → size tree ≡ (
          if Dict.contains_key (bucket (fl.rank x) tree) m
          then size (tree_remove fl x m tree) + 1
          else size (tree_remove fl x m tree))
  unfolding size bucket tree_remove Dict.get
  size-remove x m [] h = refl
  size-remove x m ((y, ms) ∷ tree) h =
      ground (arith, length-remove ms m h.0, empty-nil (Dict.remove ms m), size-remove x m tree h.1)
