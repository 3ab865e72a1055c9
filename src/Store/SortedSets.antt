-- ===== src/Store/SortedSets.antt =====
-- src/store/sorted_set.rs: sorted sets, the scores by member beside the members by score.
pub mod Order
pub mod Reads
pub mod Buckets
pub mod Agreement
pub mod Whole
use fire_redis.Prelude.{
  ℕ, zero, suc, ◌+◌, ◌-◌, Bool, true, false, not, ◌&&◌, ◌||◌, Option, none, some, List, [], ◌∷◌,
  ◌++◌, map, Bytes, ltb, leb, ◌==◌, if◌then◌else◌, length, take, drop, is_empty, ℤ, Outcome,
  returns, panics,
}
use mathlib.Core.List.{reverse}
use fire_redis.Dict
use fire_redis.Dict.{Dict, HashSet, is_some}
use fire_redis.Platform.{Platform, Score}
use fire_redis.Store.{
  Tree, StoredValue, sorted_set, Store, Instant, write, write_or_forget, check_expiration,
  or_insert,
}
use fire_redis.Store.Lists.{range_start, range_stop}

-- tree.entry(score).or_insert_with(HashSet::new).insert(member)
unfoldable pub tree_insert : Platform → Score → Bytes → Tree → Tree
tree_insert fl x m [] = (x, Dict.insert [] m tt) ∷ []
tree_insert fl x m ((y, ms) ∷ tree) =
    if fl.rank x == fl.rank y
    then (y, Dict.insert ms m tt) ∷ tree
    else if ltb (fl.rank x) (fl.rank y)
    then (x, Dict.insert [] m tt) ∷ (y, ms) ∷ tree
    else (y, ms) ∷ tree_insert fl x m tree

-- The member goes from the set of its score, and that set goes if it is empty then.
unfoldable pub tree_remove : Platform → Score → Bytes → Tree → Tree
tree_remove fl x m [] = []
tree_remove fl x m ((y, ms) ∷ tree) =
    let rest = Dict.remove ms m in
    if fl.rank x == fl.rank y
    then if is_empty rest then tree else (y, rest) ∷ tree
    else (y, ms) ∷ tree_remove fl x m tree

abbrev pub drop_old : Platform → Option Score → Bytes → Tree → Tree
drop_old fl none m tree = tree
drop_old fl (some old) m tree = tree_remove fl old m tree

unfoldable pub add_entry : Platform → Bytes → Score → Bytes → StoredValue → Store → Store × Bool
unfolding tree_insert tree_remove
add_entry fl key x m (sorted_set scores tree) s =
    let tree' = drop_old fl (Dict.get scores m) m tree in
    let scores' = Dict.insert (Dict.remove scores m) m x in
    (write key (sorted_set scores' (tree_insert fl x m tree')) s, not (Dict.contains_key scores m))
add_entry fl key x m _ s = (s, false)

unfoldable pub z_add : Platform → Instant → Bytes → Score → Bytes → Store → Store × Bool
unfolding add_entry check_expiration or_insert
z_add fl now key x m s =
    let (s', _) = check_expiration now key s in
    let (s'', entry) = or_insert key (sorted_set [] []) s' in add_entry fl key x m entry s''

-- members.iter().map(|m| (m.clone(), score.0))
abbrev pub scored : Score × HashSet → List (Bytes × Score)
scored (x, ms) = map (λ m. (m, x)) (Dict.keys ms)

unfoldable pub all_members : Tree → List (Bytes × Score)
all_members [] = []
all_members (e ∷ tree) = scored e ++ all_members tree

-- `all_members[start..=stop.min(len - 1)]`, which cannot reach past the end.
unfoldable pub members_range : List (Bytes × Score) → ℤ → ℤ → List (Bytes × Score)
unfolding range_start range_stop
members_range all start stop =
    let len = length all in
    let from = range_start len start in
    let to = range_stop len stop in
    if ltb to from || leb len from
    then []
    else take ((if leb to (len - 1) then to else len - 1) - from + 1) (drop from all)

abbrev pub tree_of : Option StoredValue → Tree
tree_of (some (sorted_set scores tree)) = tree
tree_of _ = []

unfoldable pub z_range : Instant → Bytes → ℤ → ℤ → Store → Store × List (Bytes × Score)
unfolding check_expiration members_range all_members
z_range now key start stop s =
    let (s', expired) = check_expiration now key s in
    if expired
    then (s', [])
    else (s', members_range (all_members (tree_of (Dict.get s'.entries key))) start stop)

unfoldable pub z_rev_range : Instant → Bytes → ℤ → ℤ → Store → Store × List (Bytes × Score)
unfolding check_expiration members_range all_members
z_rev_range now key start stop s =
    let (s', expired) = check_expiration now key s in
    if expired
    then (s', [])
    else (s', members_range (all_members (reverse (tree_of (Dict.get s'.entries key)))) start stop)

abbrev pub scores_of : Option StoredValue → Dict Score
scores_of (some (sorted_set scores tree)) = scores
scores_of _ = []

unfoldable pub z_score : Instant → Bytes → Bytes → Store → Store × Option Score
unfolding check_expiration
z_score now key m s =
    let (s', expired) = check_expiration now key s in
    if expired then (s', none) else (s', Dict.get (scores_of (Dict.get s'.entries key)) m)

-- The loop of `z_rem`: both indexes behind it, and how many members were there.
unfoldable pub remove_scored : Platform → List Bytes → Dict Score → Tree → (Dict Score × Tree) × ℕ
unfolding tree_remove
remove_scored fl [] scores tree = ((scores, tree), 0)
remove_scored fl (m ∷ ms) scores tree =
    let (rest, n) =
      remove_scored fl ms (Dict.remove scores m) (drop_old fl (Dict.get scores m) m tree) in
    (rest, (if Dict.contains_key scores m then 1 else 0) + n)

unfoldable pub rem_entry : Platform → Bytes → List Bytes → Option StoredValue → Store → Store × ℕ
unfolding remove_scored
rem_entry fl key ms (some (sorted_set scores tree)) s =
    let ((scores', tree'), removed) = remove_scored fl ms scores tree in
    (write_or_forget key (sorted_set scores' tree') (is_empty scores') s, removed)
rem_entry fl key ms _ s = (s, 0)

unfoldable pub z_rem : Platform → Instant → Bytes → List Bytes → Store → Store × ℕ
unfolding rem_entry check_expiration
z_rem fl now key ms s =
    let (s', expired) = check_expiration now key s in
    if expired then (s', 0) else rem_entry fl key ms (Dict.get s'.entries key) s'

unfoldable pub z_card : Instant → Bytes → Store → Store × ℕ
unfolding check_expiration
z_card now key s =
    let (s', expired) = check_expiration now key s in
    if expired then (s', 0) else (s', length (scores_of (Dict.get s'.entries key)))

unfoldable pub count_between : Platform → Score → Score → Tree → ℕ
count_between fl lo hi [] = 0
count_between fl lo hi ((x, ms) ∷ tree) =
    (if leb (fl.rank lo) (fl.rank x) && leb (fl.rank x) (fl.rank hi) then length ms else 0)
    + count_between fl lo hi tree

-- `BTreeMap::range` panics where the start of the range is above its end.
abbrev pub count_of_entry : Platform → Option StoredValue → Score → Score → Outcome ℕ
count_of_entry fl (some (sorted_set scores tree)) lo hi =
    if ltb (fl.rank hi) (fl.rank lo) then panics else returns (count_between fl lo hi tree)
count_of_entry fl _ lo hi = returns 0

unfoldable pub z_count : Platform → Instant → Bytes → Score → Score → Store → Store × Outcome ℕ
unfolding check_expiration count_between
z_count fl now key lo hi s =
    let (s', expired) = check_expiration now key s in
    if expired then (s', returns 0) else (s', count_of_entry fl (Dict.get s'.entries key) lo hi)
