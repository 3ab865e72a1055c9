-- ===== src/Metrics/Order.antt =====
-- The commands' counts of a snapshot (src/metrics.rs) are the table's, from the most used on.
use mathlib.Core.List.{Perm}
use mathlib.Core.List.Perm
use fire_redis.Prelude.{ℕ, ◌≤◌, List, [], ◌∷◌, All, Bytes, leb, arith, Bool-cases, inl, inr}
use fire_redis.Dict.{Dict}
use fire_redis.Metrics.{Metrics}
use fire_redis.Metrics.Snapshot.{insert_sorted, sort_by_count, snapshot}

-- Each entry's count is not below any that comes behind it.
abbrev pub IsDescending : List (Bytes × ℕ) → Type 0
IsDescending [] = Unit
IsDescending (e ∷ xs) = All (λ x. x.1 ≤ e.1) xs × IsDescending xs

insert_sorted-Perm : (e : Bytes × ℕ) (xs : List (Bytes × ℕ)) → Perm (e ∷ xs) (insert_sorted e xs)
unfolding insert_sorted
insert_sorted-Perm e [] = Perm.refl (e ∷ [])
insert_sorted-Perm e (x ∷ xs) = elim (Bool-cases (leb x.1 e.1)) [
  | inl low ↦ rw low (Perm.refl (e ∷ x ∷ xs))
  | inr high ↦ rw high (Perm.trans (Perm.swap x e xs) (Perm.cons x (insert_sorted-Perm e xs)))
]

sort_by_count-Perm : (counts : Dict ℕ) → Perm counts (sort_by_count counts)
unfolding sort_by_count
sort_by_count-Perm [] = Perm.refl []
sort_by_count-Perm (e ∷ counts) =
    Perm.trans (Perm.cons e (sort_by_count-Perm counts))
      (insert_sorted-Perm e (sort_by_count counts))

All-insert_sorted :
    (n : ℕ) (e : Bytes × ℕ) (xs : List (Bytes × ℕ))
    → e.1 ≤ n
    → All (λ x. x.1 ≤ n) xs
    → All (λ x. x.1 ≤ n) (insert_sorted e xs)
unfolding insert_sorted
All-insert_sorted n e [] h k = (h, tt)
All-insert_sorted n e (x ∷ xs) h k = elim (Bool-cases (leb x.1 e.1)) [
  | inl low ↦ rw low (h, k)
  | inr high ↦ rw high (k.0, All-insert_sorted n e xs h k.1)
]

All-lower :
    (n m : ℕ) (xs : List (Bytes × ℕ)) → n ≤ m → All (λ x. x.1 ≤ n) xs → All (λ x. x.1 ≤ m) xs
All-lower n m [] h k = tt
All-lower n m (x ∷ xs) h k = (omega arith, All-lower n m xs h k.1)

insert_sorted-IsDescending :
    (e : Bytes × ℕ) (xs : List (Bytes × ℕ)) → IsDescending xs → IsDescending (insert_sorted e xs)
unfolding insert_sorted
insert_sorted-IsDescending e [] h = (tt, tt)
insert_sorted-IsDescending e (x ∷ xs) h = elim (Bool-cases (leb x.1 e.1)) [
  | inl low ↦ rw low (((ground arith), All-lower x.1 e.1 xs (ground arith) h.0), h)
  | inr high ↦
      rw high (All-insert_sorted x.1 e xs (ground arith) h.0, insert_sorted-IsDescending e xs h.1)
]

sort_by_count-IsDescending : (counts : Dict ℕ) → IsDescending (sort_by_count counts)
unfolding sort_by_count
sort_by_count-IsDescending [] = tt
sort_by_count-IsDescending (e ∷ counts) =
    insert_sorted-IsDescending e (sort_by_count counts) (sort_by_count-IsDescending counts)

-- A snapshot lists the counts of all commands and nothing else, with no count behind a lower one.
pub snapshot-IsDescending :
    (uptime : ℕ) (m : Metrics)
    → Perm m.command_counts (snapshot uptime m).command_counts
      × IsDescending (snapshot uptime m).command_counts
unfolding snapshot
snapshot-IsDescending uptime m =
    (sort_by_count-Perm m.command_counts, sort_by_count-IsDescending m.command_counts)
