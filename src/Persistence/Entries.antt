-- ===== src/Persistence/Entries.antt =====
-- The entries of a saved store, restored one after the other into a store without those keys.
use fire_redis.Prelude.{
  ◌≡◌, refl, ◌∙◌, false, none, some, Option, [], ◌∷◌, Bytes, beq, beq_iff, beq_refl, All, arith,
  subst, Bool-cases, inl, inr,
}
use fire_redis.Dict
use fire_redis.Dict.{Dict}
use fire_redis.Dict.Laws.{NoDup}
use fire_redis.Metrics.{Metrics}
use fire_redis.Store.{StoredValue, Store, with_metrics}
use fire_redis.Keeps.Frame.{SameAt}

not_none : (v : StoredValue) → some v ≡ none → ⊥
not_none v e = cc

later :
    (k : Bytes) (v : StoredValue) (d : Dict StoredValue) (j : Bytes) (w : StoredValue)
    → Dict.get d k ≡ none
    → Dict.get d j ≡ some w
    → Dict.get ((k, v) ∷ d) j ≡ some w
unfolding Dict.get
later k v d j w n e = ground (arith, beq_iff k j)

within :
    (d all : Dict StoredValue)
    → NoDup d
    → ((k : Bytes) (v : StoredValue) → Dict.get d k ≡ some v → Dict.get all k ≡ some v)
    → All (λ e. Dict.get all e.0 ≡ some e.1) d
unfolding Dict.get
within [] all n h = tt
within ((k, v) ∷ d) all n h =
    (h k v (rw (beq_refl k) refl), within d all n.1 (λ j w e. h j w (later k v d j w n.0 e)))

pub own_entries : (d : Dict StoredValue) → NoDup d → All (λ e. Dict.get d e.0 ≡ some e.1) d
own_entries d n = within d d n (λ k v p. p)

-- A key with this value, or without one, and with no deadline.
abbrev pub Holds : Bytes → Option StoredValue → Store → Type 0
Holds key o t = (Dict.get t.entries key ≡ o) × (Dict.get t.expirations key ≡ none)

pub SameAt-trans : (j : Bytes) (s t u : Store) → SameAt j s t → SameAt j t u → SameAt j s u
SameAt-trans j s t u h k = (k.0 ∙ h.0, k.1 ∙ h.1)

-- Keys other than this one are as they were.
abbrev pub Leaves : Bytes → Store → Store → Type 0
Leaves key t u = (j : Bytes) → beq key j ≡ false → SameAt j t u

-- The keys of these entries are not there.
abbrev pub Free : Dict StoredValue → Store → Type 0
Free d t = All (λ e. Holds e.0 none t) d

pub Free-with_metrics : (m : Metrics) (d : Dict StoredValue) → Free d (with_metrics m)
unfolding with_metrics Dict.get
Free-with_metrics m [] = tt
Free-with_metrics m (e ∷ d) = ((refl, refl), Free-with_metrics m d)

pub Free-Leaves :
    (d : Dict StoredValue) (k : Bytes) (t u : Store)
    → Dict.get d k ≡ none
    → Leaves k t u
    → Free d t
    → Free d u
unfolding Dict.get
Free-Leaves [] k t u e f h = tt
Free-Leaves ((j, v) ∷ d) k t u e f h = elim (Bool-cases (beq j k)) [
  | inl same ↦ absurd (not_none v (rw same at e))
  | inr other ↦
      let ne : beq k j ≡ false = ground (arith, beq_iff j k, beq_iff k j) in
      (((f j ne).0 ∙ h.0.0, (f j ne).1 ∙ h.0.1), Free-Leaves d k t u (rw other at e) f h.1)
]

-- A key of the saved store is back; any other key is as it was.
abbrev pub After :
    (Bytes → StoredValue → Store → Store → Type 0)
    → Bytes
    → Option StoredValue
    → Store
    → Store
    → Type 0
After Back j none t u = SameAt j t u
After Back j (some v) t u = Back j v t u

-- `Back j v t u`: the entry of `j` with the value `v`, restored from `t`, is as it should in `u`.
module _ (Back : Bytes → StoredValue → Store → Store → Type 0)
    (before : (j : Bytes) (v : StoredValue) (t u w : Store)
      → SameAt j t u
      → Back j v u w
      → Back j v t w)
    (behind : (j : Bytes) (v : StoredValue) (t u w : Store)
      → Back j v t u
      → SameAt j u w
      → Back j v t w) where
  After-later :
      (j : Bytes) (o : Option StoredValue) (t u v : Store)
      → SameAt j t u
      → After Back j o u v
      → After Back j o t v
  After-later j none t u v h a = SameAt-trans j t u v h a
  After-later j (some w) t u v h a = before j w t u v h a

  pub After-split :
      (d : Dict StoredValue) (k : Bytes) (v : StoredValue) (t u w : Store)
      → Dict.get d k ≡ none
      → Back k v t u
      → Leaves k t u
      → ((j : Bytes) → After Back j (Dict.get d j) u w)
      → (j : Bytes) → After Back j (Dict.get ((k, v) ∷ d) j) t w
  unfolding Dict.get
  After-split d k v t u w e r f a j = elim (Bool-cases (beq k j)) [
    | inl same ↦
        rw same
          (subst (λ i. Back i v t w) ((beq_iff k j).0 same) (behind k v t u w r (rw e at (a k))))
    | inr other ↦ rw other (After-later j (Dict.get d j) t u w (f j other) (a j))
  ]
