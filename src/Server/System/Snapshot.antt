-- ===== src/Server/System/Snapshot.antt =====
-- What a server without the append-only file leaves for its next start (src/server.rs,
-- src/persistence/manager.rs).
use fire_redis.Prelude.{
  ℕ, ◌≤◌, ◌≡◌, refl, ap, ◌∙◌, subst, Bool, true, false, ◌||◌, Option, none, some, List, Bytes, All,
  length, max_u64, Bool-cases, Option-cases, inl, inr, if◌then◌else◌,
}
use fire_redis.Dict
use fire_redis.Platform.{Platform}
use fire_redis.Metrics.{Metrics}
use fire_redis.Resp.{Value}
use fire_redis.Store
use fire_redis.Store.{Store, Instant, with_metrics}
use fire_redis.Keeps.Valid.{IsValid}
use fire_redis.Persistence.Config.{PersistenceConfig}
use fire_redis.Persistence.Entries.{After}
use fire_redis.Persistence.Rdb.Reader.{loaded}
use fire_redis.Persistence.Rdb.Entries.{CanStore, Back}
use fire_redis.Persistence.Manager as P
use fire_redis.Persistence.Manager.{Disk, PersistenceManager, SaveTimes, load_on_startup, from_rdb}
use fire_redis.Persistence.Manager.Restart.{load_on_startup-shutdown}
use fire_redis.Server.{Event, Journal}
use fire_redis.Server.System.Valid.{Run-IsValid}
use fire_redis.Server.System.{
  System, Step, accepts, serves, closes, evicts, samples, writes, flushes, saves, stops, shuts_down,
  Run, here, more, start, accept, take_turn, close, write_next, with_manager, counting,
}

-- The manager, where there is one, works with this configuration.
abbrev Configured : PersistenceConfig → Option PersistenceManager → Type 0
Configured config none = Unit
Configured config (some m) = m.config ≡ config

process_aof_keeps : (c : Value) (m : PersistenceManager) → (P.process_aof c m).config ≡ m.config
unfolding P.process_aof
process_aof_keeps c m = elim (Option-cases m.aof_writer) [
  | inl e ↦ rw e refl
  | inr (w, e) ↦ rw e refl
]

fsync_keeps : (m : PersistenceManager) → (P.fsync_aof m).config ≡ m.config
unfolding P.fsync_aof
fsync_keeps m = elim (Option-cases m.aof_writer) [ inl e ↦ rw e refl | inr (w, e) ↦ rw e refl ]

module _ (fl : Platform) (t : SaveTimes) where
  save_rdb_keeps :
      (m : PersistenceManager) (s : Store) → (P.save_rdb fl t (m, s)).0.config ≡ m.config
  unfolding P.save_rdb
  save_rdb_keeps m s = refl

  autosave_keeps :
      (m : PersistenceManager) (s : Store) → (P.autosave fl t (m, s)).0.config ≡ m.config
  unfolding P.autosave
  autosave_keeps m s =
      elim (Bool-cases (
        P.is_save_due m.dirty_counter (P.elapsed_secs m.last_save t.now)
          m.config.rdb_save_conditions)) [
            | inl due ↦ rw due (save_rdb_keeps m s)
            | inr other ↦ rw other refl
          ]

  flushed_keeps :
      (b : Bool) (m : PersistenceManager) → (if b then P.fsync_aof m else m).config ≡ m.config
  flushed_keeps true m = fsync_keeps m
  flushed_keeps false m = refl

  saved_keeps :
      (b : Bool) (m : PersistenceManager) (s : Store)
      → (if b then P.save_rdb fl t (m, s) else (m, s)).0.config ≡ m.config
  saved_keeps true m s = save_rdb_keeps m s
  saved_keeps false m s = refl

  shutdown_keeps :
      (m : PersistenceManager) (s : Store) → (P.shutdown fl t (m, s)).0.config ≡ m.config
  unfolding P.shutdown
  shutdown_keeps m s =
      saved_keeps m.config.rdb_enabled (if m.config.aof_enabled then P.fsync_aof m else m) s
      ∙ flushed_keeps m.config.aof_enabled m

module _ (fl : Platform) (info : Metrics → Bytes) (config : PersistenceConfig) where
  held :
      (m : PersistenceManager) (o : Option PersistenceManager)
      → o ≡ some m
      → Configured config o
      → m.config ≡ config
  held m o e h = subst (Configured config) e h

  Step-Configured :
      {sys next : System} {es : List Event}
      → Step fl info sys es next
      → Configured config sys.manager
      → Configured config next.manager
  unfolding accept take_turn close write_next with_manager
  Step-Configured (accepts _) h = h
  Step-Configured (serves before c after e _ _ _) h = h
  Step-Configured (closes before c after _ _ _) h = h
  Step-Configured (evicts now) h = h
  Step-Configured samples h = h
  Step-Configured (stops _) h = h
  Step-Configured (writes c m e g) h = process_aof_keeps c m ∙ held m _ e h
  Step-Configured (flushes m e) h = fsync_keeps m ∙ held m _ e h
  Step-Configured {sys} (saves t j m ej em) h =
      autosave_keeps fl t (counting j m) sys.server.store ∙ held m _ em h
  Step-Configured {sys} (shuts_down t j m _ ej em) h =
      shutdown_keeps fl t (counting j m) sys.server.store ∙ held m _ em h

  Run-Configured :
      {sys last : System} {es : List Event}
      → Run fl info sys es last
      → Configured config sys.manager
      → Configured config last.manager
  Run-Configured here h = h
  Run-Configured (more run step) h = Step-Configured step (Run-Configured run h)

  start-Configured :
      (now : Instant) (disk : Disk) (s : Store)
      → Configured config (start config now disk s).manager
  unfolding start P.new
  start-Configured now disk s = elim (Bool-cases (config.rdb_enabled || config.aof_enabled)) [
    | inl e ↦ rw e refl
    | inr e ↦ rw e tt
  ]

  -- A server that was started on a valid keyspace with snapshots and without the append-only file, and whose
  -- connections and background tasks took turns in any way: when it shuts down, the next start on the disk
  -- that it leaves loads the snapshot file, and has the keys that had not expired, each with its value and
  -- its deadline on the wall clock unless that has passed, and no other. Keys and fields are Rust strings,
  -- scores read back as they print, and lengths and the wall clock of the save fit 64 bits; the reader
  -- can reserve room for the elements of each value.
  pub load_on_startup-shuts_down :
      (t : SaveTimes) (first second : Instant) (disk : Disk) (s : Store) {es : List Event}
      {last : System} (j : Journal) (m : PersistenceManager) (clock : ℕ → Instant) (wall : ℕ)
      (counters : Metrics)
      → config.rdb_enabled ≡ true
      → config.aof_enabled ≡ false
      → IsValid fl s
      → Run fl info (start config first disk s) es last
      → last.server.journal ≡ some j
      → last.manager ≡ some m
      → t.wall ≤ max_u64
      → length (Store.snapshot t.now last.server.store).1.0 ≤ max_u64
      → length (Store.snapshot t.now last.server.store).1.1 ≤ max_u64
      → All (λ e. CanStore fl e.0 e.1) (Store.snapshot t.now last.server.store).1.0
      → let (entries, deadlines) = (Store.snapshot t.now last.server.store).1 in
        (m' : PersistenceManager) × ((with_manager (P.shutdown fl t) j m last).manager ≡ some m')
        × (u : Store) × (load_on_startup fl info clock wall
              (P.new config second m'.disk)
              (with_metrics counters)
            ≡ (u, from_rdb loaded))
        × ((k : Bytes)
            → After
                (Back fl t.wall t.now wall (clock 0) deadlines)
                k
                (Dict.get entries k)
                (with_metrics counters)
                u)
  unfolding with_manager start
  load_on_startup-shuts_down t first second disk s {es} {last} j m clock wall counters r a valid run
        ej em w n k c =
      let same : m.config ≡ config =
        held m last.manager em (Run-Configured run (start-Configured first disk s)) in
      let still : IsValid fl last.server.store = Run-IsValid fl info run valid in
      let (u, e, after) =
        load_on_startup-shutdown fl info t (counting j m) last.server.store second clock wall
          counters (ap (λ x. x.rdb_enabled) same ∙ r) (ap (λ x. x.aof_enabled) same ∙ a) still w n k
          c in
      let m' = (P.shutdown fl t (counting j m, last.server.store)).0 in
      let restarted =
        subst
          (λ x.
            load_on_startup fl info clock wall (P.new x second m'.disk) (with_metrics counters)
            ≡ (u, from_rdb loaded))
          same e in
      (m', refl, u, restarted, after)
