-- ===== src/Store/SortedSets/Agreement.antt =====
-- The two indexes of a sorted set of src/store/sorted_set.rs agree.
use fire_redis.Prelude.{
  ℕ, ◌≡◌, refl, Bool, false, Option, none, some, List, [], ◌∷◌, Bytes, beq_iff, beq_refl, ◌==◌,
  arith, length, subst,
}
use fire_redis.Dict
use fire_redis.Dict.{Dict}
use fire_redis.Dict.Laws.{
  NoDup, insert-NoDup, remove-NoDup, length-insert, length-remove, get-insert, get-remove,
  remove_absent,
}
use fire_redis.Platform.{Platform, Score}
use fire_redis.Store.{Tree}
use fire_redis.Store.SortedSets.{tree_insert, drop_old, remove_scored}
use fire_redis.Store.SortedSets.Order.{IsOrdered, insert-IsOrdered, remove-IsOrdered}
use fire_redis.Store.SortedSets.Buckets.{
  bucket, bucket-insert, bucket-remove, AreDistinct, insert-AreDistinct, remove-AreDistinct, size,
  size-insert, size-remove,
}

module _ (fl : Platform) where
  -- Whether the member has a score of this rank.
  abbrev pub has_rank : ℕ → Option Score → Bool
  has_rank n none = false
  has_rank n (some x) = n == fl.rank x

  -- A member stands under a score exactly where its own score is of that rank, and neither index
  -- holds a member twice.
  pub record Agrees (scores : Dict Score) (tree : Tree) : Type 0 where
    pub ordered : IsOrdered fl tree
    pub distinct : NoDup scores
    pub apart : AreDistinct fl tree
    pub same :
        (m : Bytes) (n : ℕ)
        → Dict.contains_key (bucket fl n tree) m ≡ has_rank n (Dict.get scores m)
    pub counted : size fl tree ≡ length scores

  pub empty-Agrees : Agrees [] []
  unfolding bucket size Dict.get
  empty-Agrees = record {
    ordered = tt;
    distinct = tt;
    apart = tt;
    same = λ m n. refl;
    counted = refl;
  }

  added_same :
      (scores : Dict Score) (tree : Tree) (x : Score) (m : Bytes)
      → Agrees scores tree
      → Dict.get scores m ≡ none
      → (j : Bytes) (n : ℕ)
      → Dict.contains_key (bucket fl n (tree_insert fl x m tree)) j
        ≡ has_rank n (Dict.get (Dict.insert scores m x) j)
  added_same scores tree x m h new j n =
      let key : m ≡ j → has_rank n (Dict.get scores j) ≡ false =
        λ e. subst (λ k. has_rank n (Dict.get scores k) ≡ false) e (rw new refl) in
      ground (
        arith,
        bucket-insert fl n x m tree h.ordered,
        get-insert (bucket fl n tree) m j tt,
        get-insert scores m j x,
        h.same j n,
        beq_iff m j,
        key,
      )

  pub add-Agrees :
      (scores : Dict Score) (tree : Tree) (x : Score) (m : Bytes)
      → Agrees scores tree
      → Dict.get scores m ≡ none
      → Agrees (Dict.insert scores m x) (tree_insert fl x m tree)
  add-Agrees scores tree x m h new = record {
    ordered = insert-IsOrdered fl x m tree h.ordered;
    distinct = insert-NoDup scores m x h.distinct;
    apart = insert-AreDistinct fl x m tree h.apart;
    same = added_same scores tree x m h new;
    counted = ground (
      arith,
      size-insert fl x m tree h.ordered,
      h.same m (fl.rank x),
      length-insert scores m x,
      h.counted,
    );
  }

  dropped_same :
      (scores : Dict Score) (tree : Tree) (m : Bytes) (y : Score)
      → Agrees scores tree
      → Dict.get scores m ≡ some y
      → (j : Bytes) (n : ℕ)
      → Dict.contains_key (bucket fl n (drop_old fl (some y) m tree)) j
        ≡ has_rank n (Dict.get (Dict.remove scores m) j)
  dropped_same scores tree m y h old j n =
      let key : m ≡ j → has_rank n (Dict.get scores j) ≡ (n == fl.rank y) =
        λ e. subst (λ k. has_rank n (Dict.get scores k) ≡ (n == fl.rank y)) e (rw old refl) in
      ground (
        arith,
        bucket-remove fl n y m tree h.ordered,
        get-remove (bucket fl n tree) m j,
        get-remove scores m j,
        h.same j n,
        beq_iff m j,
        key,
      )

  drop_at :
      (scores : Dict Score) (tree : Tree) (m : Bytes) (y : Score)
      → Agrees scores tree
      → Dict.get scores m ≡ some y
      → Agrees (Dict.remove scores m) (drop_old fl (some y) m tree)
  drop_at scores tree m y h old = record {
    ordered = remove-IsOrdered fl y m tree h.ordered;
    distinct = remove-NoDup scores m h.distinct;
    apart = remove-AreDistinct fl y m tree h.apart;
    same = dropped_same scores tree m y h old;
    counted = ground (
      arith,
      size-remove fl y m tree h.apart,
      h.same m (fl.rank y),
      length-remove scores m h.distinct,
      h.counted,
    );
  }

  drop_found :
      (scores : Dict Score) (tree : Tree) (m : Bytes) (o : Option Score)
      → Agrees scores tree
      → Dict.get scores m ≡ o
      → Agrees (Dict.remove scores m) (drop_old fl o m tree)
  drop_found scores tree m none h e = rw (remove_absent scores m e) h
  drop_found scores tree m (some y) h e = drop_at scores tree m y h e

  -- Dropping a member, at its score if it has one, keeps the agreement.
  pub drop-Agrees :
      (scores : Dict Score) (tree : Tree) (m : Bytes)
      → Agrees scores tree
      → Agrees (Dict.remove scores m) (drop_old fl (Dict.get scores m) m tree)
  drop-Agrees scores tree m h = drop_found scores tree m (Dict.get scores m) h refl

  removed : (scores : Dict Score) (m : Bytes) → Dict.get (Dict.remove scores m) m ≡ none
  removed scores m = ground (arith, get-remove scores m m, beq_refl m)

  pub replace-Agrees :
      (scores : Dict Score) (tree : Tree) (x : Score) (m : Bytes)
      → Agrees scores tree
      → Agrees
          (Dict.insert (Dict.remove scores m) m x)
          (tree_insert fl x m (drop_old fl (Dict.get scores m) m tree))
  replace-Agrees scores tree x m h =
      add-Agrees (Dict.remove scores m) (drop_old fl (Dict.get scores m) m tree) x m
        (drop-Agrees scores tree m h) (removed scores m)

  pub remove_scored-Agrees :
      (ms : List Bytes) (scores : Dict Score) (tree : Tree)
      → Agrees scores tree
      → let ((scores', tree'), n) = remove_scored fl ms scores tree in Agrees scores' tree'
  unfolding remove_scored
  remove_scored-Agrees [] scores tree h = h
  remove_scored-Agrees (m ∷ ms) scores tree h =
      remove_scored-Agrees ms (Dict.remove scores m) (drop_old fl (Dict.get scores m) m tree)
        (drop-Agrees scores tree m h)
