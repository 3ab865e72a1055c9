-- ===== src/Keeps/Unlogged.antt =====
-- What clients see behind a command that is not written to the append-only file (src/store/mod.rs,
-- src/persistence/aof.rs).
use fire_redis.Prelude.{
  ◌≤◌, ◌≡◌, refl, ◌∙◌, true, false, Option, none, some, List, [], ◌∷◌, Bytes, beq_iff,
  if◌then◌else◌, arith,
}
use fire_redis.Dict
use fire_redis.Dict.Laws.{NoDup, get-remove, remove-NoDup}
use fire_redis.Platform.{Platform}
use fire_redis.Metrics.{Metrics}
use fire_redis.Store
use fire_redis.Store.{Store, Instant, check_expiration, is_due, due_keys, forget_all, forget}
use fire_redis.Store.Expiry.{visible, listed, listed_due, get-forget_all}
use fire_redis.Persistence.Aof.{should_log_to_aof}
use fire_redis.Commands.Types.{Command}
use fire_redis.Commands.Execute.{execute}
use fire_redis.Keeps.Reads.{Reads, name_of, execute_reads}

-- From this time on clients see the same value at every key, until the same deadline.
record Unseen (now : Instant) (s t : Store) : Type 0 where
  distinct : NoDup t.expirations
  same : (u : Instant) (j : Bytes) → now ≤ u → visible u j t ≡ visible u j s

module _ (now : Instant) where
  later : (u : Instant) (o : Option Instant) → now ≤ u → is_due now o ≡ true → is_due u o ≡ true
  later u none h e = e
  later u (some t) h e = ground arith

  pub visible-check :
      (u : Instant) (key j : Bytes) (t : Store)
      → now ≤ u
      → visible u j (check_expiration now key t).0 ≡ visible u j t
  unfolding visible check_expiration
  visible-check u key j t h = ground (
    arith,
    get-remove t.entries key j,
    get-remove t.expirations key j,
    beq_iff key j,
    later u (Dict.get t.expirations key) h,
  )

  check-NoDup :
      (key : Bytes) (t : Store)
      → NoDup t.expirations
      → NoDup (check_expiration now key t).0.expirations
  unfolding check_expiration
  check-NoDup key t h = ground (arith, remove-NoDup t.expirations key h)

  forget_all-NoDup :
      (ks : List Bytes) (t : Store) → NoDup t.expirations → NoDup (forget_all ks t).0.expirations
  unfolding forget_all
  forget_all-NoDup [] t h = h
  forget_all-NoDup (k ∷ ks) t h = forget_all-NoDup ks (forget k t) (remove-NoDup t.expirations k h)

  deadline-forget_all :
      (ks : List Bytes) (t : Store) (j : Bytes)
      → Dict.get (forget_all ks t).0.expirations j
        ≡ (if listed j ks then none else Dict.get t.expirations j)
  unfolding forget_all listed
  deadline-forget_all [] t j = refl
  deadline-forget_all (k ∷ ks) t j =
      ground (arith, deadline-forget_all ks (forget k t) j, get-remove t.expirations k j)

  visible-evict :
      (u : Instant) (j : Bytes) (t : Store)
      → now ≤ u
      → NoDup t.expirations
      → visible u j (Store.evict_expired now t).0 ≡ visible u j t
  unfolding visible Store.evict_expired
  visible-evict u j t h d = ground (
    arith,
    get-forget_all (due_keys now t.expirations) t j,
    deadline-forget_all (due_keys now t.expirations) t j,
    listed_due now t.expirations j d,
    later u (Dict.get t.expirations j) h,
  )

  Unseen-Reads : (s : Store) → Reads now (Unseen now s)
  unfolding Store.evict_expired
  Unseen-Reads s = record {
    on_check = λ key t h. record {
      distinct = check-NoDup key t h.distinct;
      same = λ u j le. visible-check u key j t le ∙ h.same u j le;
    };
    on_evict = λ t h. record {
      distinct = forget_all-NoDup (due_keys now t.expirations) t h.distinct;
      same = λ u j le. visible-evict u j t le h.distinct ∙ h.same u j le;
    };
  }

-- A command whose name is not written to the append-only file changes nothing that a client sees: from
-- its time on there is the same value at every key, until the same deadline. The deadlines of the store
-- are distinct.
pub execute-unlogged :
    (fl : Platform) (info : Metrics → Bytes) (now u : Instant) (c : Command) (s : Store) (j : Bytes)
    → should_log_to_aof (name_of c) ≡ false
    → NoDup s.expirations
    → now ≤ u
    → visible u j (execute fl info now c s).0 ≡ visible u j s
execute-unlogged fl info now u c s j e d le =
    let kept : Unseen now s (execute fl info now c s).0 =
      execute_reads (Unseen-Reads now s) fl info c s e
        (record { distinct = d; same = λ t i h. refl }) in
    kept.same u j le
