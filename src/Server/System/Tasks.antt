-- ===== src/Server/System/Tasks.antt =====
-- What the tasks of the persistence manager leave of the append-only file (src/persistence/manager.rs).
use fire_redis.Prelude.{
  ◌≤◌, refl, Bool, true, false, Bytes, Bool-cases, Option-cases, inl, inr, arith, max_u64,
  if◌then◌else◌,
}
use fire_redis.Platform.{Platform}
use fire_redis.Store.{Store}
use fire_redis.Persistence.Aof.{fsync}
use fire_redis.Persistence.Manager as P
use fire_redis.Persistence.Manager.{
  Disk, PersistenceManager, SaveTimes, load_on_startup, from_aof, content_of,
}
use fire_redis.Persistence.Manager.Restart.{IsAt}

-- What the manager's tasks leave of the writer and its file, and of the count of changes.
abbrev pub Leaves : PersistenceManager → PersistenceManager → Type 0
Leaves m m' =
    ((file : Bytes) → IsAt file m → IsAt file m')
    × (m.dirty_counter ≤ max_u64 → m'.dirty_counter ≤ max_u64)

pub fsync-Leaves : (m : PersistenceManager) → Leaves m (P.fsync_aof m)
unfolding P.fsync_aof fsync
fsync-Leaves m = (
  λ file (w, e, f, l, d). rw e (fsync w, refl, f, l, d),
  elim (Option-cases m.aof_writer) [ inl e ↦ rw e (λ n. n) | inr (w, e) ↦ rw e (λ n. n) ],
)

save-Leaves :
    (fl : Platform) (t : SaveTimes) (m : PersistenceManager) (s : Store)
    → Leaves m (P.save_rdb fl t (m, s)).0
unfolding P.save_rdb
save-Leaves fl t m s = (λ file h. h, λ n. omega arith)

pub autosave-Leaves :
    (fl : Platform) (t : SaveTimes) (m : PersistenceManager) (s : Store)
    → Leaves m (P.autosave fl t (m, s)).0
unfolding P.autosave
autosave-Leaves fl t m s =
    elim (Bool-cases (
      P.is_save_due m.dirty_counter (P.elapsed_secs m.last_save t.now)
        m.config.rdb_save_conditions)) [
          | inl due ↦ rw due (save-Leaves fl t m s)
          | inr other ↦ rw other (λ file h. h, λ n. n)
        ]

flushed-Leaves : (b : Bool) (m : PersistenceManager) → Leaves m (if b then P.fsync_aof m else m)
flushed-Leaves true m = fsync-Leaves m
flushed-Leaves false m = (λ file h. h, λ n. n)

saved-Leaves :
    (fl : Platform) (t : SaveTimes) (b : Bool) (m m' : PersistenceManager) (s : Store)
    → Leaves m m'
    → Leaves m (if b then P.save_rdb fl t (m', s) else (m', s)).0
saved-Leaves fl t true m m' s (a, b) =
    let (c, d) = save-Leaves fl t m' s in (λ file h. c file (a file h), λ n. d (b n))
saved-Leaves fl t false m m' s h = h

pub shutdown-Leaves :
    (fl : Platform) (t : SaveTimes) (m : PersistenceManager) (s : Store)
    → Leaves m (P.shutdown fl t (m, s)).0
unfolding P.shutdown
shutdown-Leaves fl t m s =
    saved-Leaves fl t m.config.rdb_enabled m (if m.config.aof_enabled then P.fsync_aof m else m) s
      (flushed-Leaves m.config.aof_enabled m)
