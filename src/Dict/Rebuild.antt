-- ===== src/Dict/Rebuild.antt =====
-- A table read out entry by entry and inserted again.
use fire_redis.Prelude.{
  ◌≡◌, refl, ◌∙◌, ap, none, [], ◌∷◌, ◌++◌, Bytes, beq_iff, arith, append_assoc, append-nil, sym,
}
use fire_redis.Dict.{Dict, get, insert}
use fire_redis.Dict.Laws.{NoDup, get-insert}

module _ {ℓ} {V : Type ℓ} where
  unfoldable pub insert_all : Dict V → Dict V → Dict V
  insert_all [] acc = acc
  insert_all ((k, v) ∷ d) acc = insert_all d (insert acc k v)

  insert_absent :
      (d : Dict V) (k : Bytes) (v : V) → get d k ≡ none → insert d k v ≡ d ++ (k, v) ∷ []
  unfolding get insert
  insert_absent [] k v h = refl
  insert_absent ((j, w) ∷ d) k v h = ground (arith, insert_absent d k v)

  -- None of the entries' keys is in the other table.
  abbrev pub Apart : Dict V → Dict V → Type ℓ
  Apart [] acc = Unit
  Apart ((k, v) ∷ d) acc = (get acc k ≡ none) × Apart d acc

  pub Apart-insert :
      (d acc : Dict V) (k : Bytes) (v : V) → get d k ≡ none → Apart d acc → Apart d (insert acc k v)
  unfolding get
  Apart-insert [] acc k v h a = tt
  Apart-insert ((j, w) ∷ d) acc k v h a = (
    ground (arith, get-insert acc k j v, beq_iff k j, beq_iff j k),
    Apart-insert d acc k v (ground arith) a.1,
  )

  rebuild : (d acc : Dict V) → NoDup d → Apart d acc → insert_all d acc ≡ acc ++ d
  unfolding insert_all
  rebuild [] acc h a = sym (append-nil acc)
  rebuild ((k, v) ∷ d) acc h a =
      rebuild d (insert acc k v) h.1 (Apart-insert d acc k v h.0 a.1)
      ∙ ap (λ t. t ++ d) (insert_absent acc k v a.0)
      ∙ append_assoc acc ((k, v) ∷ []) d

  pub Apart-nil : (d : Dict V) → Apart d []
  unfolding get
  Apart-nil [] = tt
  Apart-nil ((k, v) ∷ d) = (refl, Apart-nil d)

  -- The entries of a table with distinct keys, inserted into an empty one in their order, give it back.
  pub insert_all-nil : (d : Dict V) → NoDup d → insert_all d [] ≡ d
  insert_all-nil d h = rebuild d [] h (Apart-nil d)
