-- ===== src/Server/System/Saves.antt =====
-- What the saves of the persistence manager keep of the keyspace (src/persistence/manager.rs): whatever an
-- eviction and the count of saves keep.
use fire_redis.Prelude.{Bool-cases, inl, inr, if◌then◌else◌}
use fire_redis.Platform.{Platform}
use fire_redis.Metrics.{record_rdb_save}
use fire_redis.Store
use fire_redis.Store.{Store, Instant}
use fire_redis.Persistence.Rdb as R
use fire_redis.Persistence.Manager as P
use fire_redis.Persistence.Manager.{PersistenceManager, SaveTimes}
use fire_redis.Server.{count_in}

-- A predicate that an eviction and the count of saves keep.
pub record SurvivesSave (P : Store → Type 0) : Type 0 where
  pub on_evict : (now : Instant) (s : Store) → P s → P (Store.evict_expired now s).0
  pub on_save : (s : Store) → P s → P (count_in record_rdb_save s)

module _ {Q : Store → Type 0} (k : SurvivesSave Q) (fl : Platform) where
  save_keeps :
      (t : SaveTimes) (m : PersistenceManager) (s : Store) → Q s → Q (P.save_rdb fl t (m, s)).1
  unfolding P.save_rdb R.save Store.snapshot
  save_keeps t m s h = k.on_save (Store.evict_expired t.now s).0 (k.on_evict t.now s h)

  pub autosave_keeps :
      (t : SaveTimes) (m : PersistenceManager) (s : Store) → Q s → Q (P.autosave fl t (m, s)).1
  unfolding P.autosave
  autosave_keeps t m s h =
      elim (Bool-cases (
        P.is_save_due m.dirty_counter (P.elapsed_secs m.last_save t.now)
          m.config.rdb_save_conditions)) [
            | inl due ↦ rw due (save_keeps t m s h)
            | inr other ↦ rw other h
          ]

  pub shutdown_keeps :
      (t : SaveTimes) (m : PersistenceManager) (s : Store) → Q s → Q (P.shutdown fl t (m, s)).1
  unfolding P.shutdown
  shutdown_keeps t m s h = elim (Bool-cases m.config.rdb_enabled) [
    | inl rdb ↦ rw rdb (save_keeps t (if m.config.aof_enabled then P.fsync_aof m else m) s h)
    | inr other ↦ rw other h
  ]
