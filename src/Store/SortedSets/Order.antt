-- ===== src/Store/SortedSets/Order.antt =====
-- The order of the score index of src/store/sorted_set.rs.
use fire_redis.Prelude.{
  ℕ, zero, suc, ℤ, ◌||◌, take, drop, Bool-cases, inl, inr, ltb→lt, ◌≡◌, ◌≤◌, ◌<◌, refl, false, List,
  [], ◌∷◌, ◌++◌, Bytes, ltb, leb, ◌==◌, arith, length, is_empty, All,
}
use fire_redis.Dict
use fire_redis.Dict.{Dict, HashSet}
use fire_redis.Platform.{Platform, Score}
use fire_redis.Store.{Tree}
use fire_redis.Store.SortedSets.{tree_insert, tree_remove, all_members, scored, members_range}
use fire_redis.Store.Lists.{range_start, range_stop}

module _ (fl : Platform) where
  -- The first score of the tree, if there is one, is above the bound.
  abbrev pub Above : ℕ → Tree → Type 0
  Above n [] = Unit
  Above n ((x, ms) ∷ tree) = n < fl.rank x

  -- The scores go up strictly, and no score stands without members.
  abbrev pub IsOrdered : Tree → Type 0
  IsOrdered [] = Unit
  IsOrdered ((x, ms) ∷ tree) = Above (fl.rank x) tree × (is_empty ms ≡ false) × IsOrdered tree

  insert_not_empty : (ms : HashSet) (m : Bytes) → is_empty (Dict.insert ms m tt) ≡ false
  unfolding Dict.insert
  insert_not_empty [] m = refl
  insert_not_empty ((j, w) ∷ ms) m = ground arith

  Above-insert :
      (n : ℕ) (x : Score) (m : Bytes) (tree : Tree)
      → n < fl.rank x
      → Above n tree
      → Above n (tree_insert fl x m tree)
  unfolding tree_insert
  Above-insert n x m [] h k = h
  Above-insert n x m ((y, ms) ∷ tree) h k = ground arith

  pub insert-IsOrdered :
      (x : Score) (m : Bytes) (tree : Tree) → IsOrdered tree → IsOrdered (tree_insert fl x m tree)
  unfolding tree_insert
  insert-IsOrdered x m [] h = (tt, insert_not_empty [] m, tt)
  insert-IsOrdered x m ((y, ms) ∷ tree) h = elim (Bool-cases (fl.rank x == fl.rank y)) [
    | inl same ↦ rw same (h.0, insert_not_empty ms m, h.2)
    | inr other ↦ rw other (elim (Bool-cases (ltb (fl.rank x) (fl.rank y))) [
      | inl below ↦ rw below (ltb→lt (fl.rank x) (fl.rank y) below, insert_not_empty [] m, h)
      | inr above ↦
          rw above (
            Above-insert (fl.rank y) x m tree (ground arith) h.0,
            h.1,
            insert-IsOrdered x m tree h.2,
          )
    ])
  ]

  Above-remove :
      (n : ℕ) (x : Score) (m : Bytes) (tree : Tree)
      → IsOrdered tree
      → Above n tree
      → Above n (tree_remove fl x m tree)
  unfolding tree_remove
  Above-remove n x m [] h k = tt
  Above-remove n x m ((y, ms) ∷ []) h k = ground arith
  Above-remove n x m ((y, ms) ∷ (z, ns) ∷ tree) h k = ground arith

  pub remove-IsOrdered :
      (x : Score) (m : Bytes) (tree : Tree) → IsOrdered tree → IsOrdered (tree_remove fl x m tree)
  unfolding tree_remove
  remove-IsOrdered x m [] h = tt
  remove-IsOrdered x m ((y, ms) ∷ tree) h =
      ground (arith, remove-IsOrdered x m tree h.2, Above-remove (fl.rank y) x m tree h.2)

  -- The members of a tree below a first one come out with ascending scores.
  abbrev pub IsAscending : List (Bytes × Score) → Type 0
  IsAscending [] = Unit
  IsAscending ((m, x) ∷ []) = Unit
  IsAscending ((m, x) ∷ (n, y) ∷ all) = (fl.rank x ≤ fl.rank y) × IsAscending ((n, y) ∷ all)

  -- All scores are at or above the bound.
  abbrev From : ℕ → List (Bytes × Score) → Type 0
  From lo all = All (λ e. lo ≤ fl.rank e.1) all

  IsAscending-cons :
      (m : Bytes) (x : Score) (all : List (Bytes × Score))
      → From (fl.rank x) all
      → IsAscending all
      → IsAscending ((m, x) ∷ all)
  IsAscending-cons m x [] h k = tt
  IsAscending-cons m x ((n, y) ∷ all) h k = (h.0, k)

  IsAscending-scored :
      (x : Score) (ms : HashSet) (all : List (Bytes × Score))
      → From (fl.rank x) all
      → IsAscending all
      → From (fl.rank x) (scored (x, ms) ++ all) × IsAscending (scored (x, ms) ++ all)
  IsAscending-scored x [] all h k = (h, k)
  IsAscending-scored x ((m, u) ∷ ms) all h k =
      let (f, a) = IsAscending-scored x ms all h k in
      ((omega arith, f), IsAscending-cons m x (scored (x, ms) ++ all) f a)

  From-weaker : (lo hi : ℕ) (all : List (Bytes × Score)) → lo ≤ hi → From hi all → From lo all
  From-weaker lo hi [] h k = tt
  From-weaker lo hi (e ∷ all) h k = (omega (arith, k.0), From-weaker lo hi all h k.1)

  members-From :
      (lo : ℕ) (tree : Tree)
      → Above lo tree
      → IsOrdered tree
      → From lo (all_members tree) × IsAscending (all_members tree)
  unfolding all_members
  members-From lo [] h k = (tt, tt)
  members-From lo ((x, ms) ∷ tree) h k =
      let (f, a) = members-From (fl.rank x) tree k.0 k.2 in
      let (g, b) = IsAscending-scored x ms (all_members tree) f a in
      (From-weaker lo (fl.rank x) (scored (x, ms) ++ all_members tree) (omega arith) g, b)

  pub all_members-IsAscending : (tree : Tree) → IsOrdered tree → IsAscending (all_members tree)
  unfolding all_members
  all_members-IsAscending [] h = tt
  all_members-IsAscending ((x, ms) ∷ tree) h =
      let (f, a) = members-From (fl.rank x) tree h.0 h.2 in
      (IsAscending-scored x ms (all_members tree) f a).1

  IsAscending-tail :
      (e : Bytes × Score) (all : List (Bytes × Score)) → IsAscending (e ∷ all) → IsAscending all
  IsAscending-tail e [] h = tt
  IsAscending-tail (m, x) ((n, y) ∷ all) h = h.1

  IsAscending-drop :
      (n : ℕ) (all : List (Bytes × Score)) → IsAscending all → IsAscending (drop n all)
  IsAscending-drop zero all h = h
  IsAscending-drop (suc n) [] h = tt
  IsAscending-drop (suc n) (e ∷ all) h = IsAscending-drop n all (IsAscending-tail e all h)

  IsAscending-take_one : (n : ℕ) (e : Bytes × Score) → IsAscending (take (suc n) (e ∷ []))
  IsAscending-take_one zero e = tt
  IsAscending-take_one (suc n) e = tt

  IsAscending-take :
      (n : ℕ) (all : List (Bytes × Score)) → IsAscending all → IsAscending (take n all)
  IsAscending-take zero all h = tt
  IsAscending-take (suc n) [] h = tt
  IsAscending-take (suc n) ((m, x) ∷ []) h = IsAscending-take_one n (m, x)
  IsAscending-take (suc zero) ((m, x) ∷ (k, y) ∷ all) h = tt
  IsAscending-take (suc (suc n)) ((m, x) ∷ (k, y) ∷ all) h =
      (h.0, IsAscending-take (suc n) ((k, y) ∷ all) h.1)

  pub members_range-IsAscending :
      (all : List (Bytes × Score)) (i j : ℤ) → IsAscending all → IsAscending (members_range all i j)
  unfolding members_range
  members_range-IsAscending all i j h =
      elim (Bool-cases (
        ltb (range_stop (length all) j) (range_start (length all) i)
        || leb (length all) (range_start (length all) i))) [
          | inl outside ↦ rw outside tt
          | inr inside ↦ rw inside (IsAscending-take _ _ (IsAscending-drop _ all h))
        ]
