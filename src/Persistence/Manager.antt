-- ===== src/Persistence/Manager.antt =====
-- src/persistence/manager.rs: the persistence manager.
--
-- The disk holds what is at the two paths. The writer keeps the file that it opened: it is the one at
-- the path until a rewrite puts another there. Input and output do not fail. `tokio` has
-- the bytes of an append in the file by the time that anything reads the file.
pub mod Restart
use fire_redis.Prelude.{
  ℕ, ◌+◌, ◌-◌, ◌*◌, ◌/◌, ◌%◌, ◌^◌, Bool, true, false, ◌&&◌, not, Option, none, some, List, [], ◌∷◌,
  ◌++◌, Bytes, codes, is_empty, if◌then◌else◌, length, leb,
}
use fire_redis.Decimal.{to_string}
use fire_redis.Platform.{Platform}
use fire_redis.Metrics.{Metrics, fetch_add, record_rdb_save}
use fire_redis.Resp.{Value}
use fire_redis.Store.{Store, Instant}
use fire_redis.Persistence.Aof.{
  AofWriter, AofFsyncPolicy, always, every_sec, no_fsync, open_writer, append, fsync, replay,
  Replayed, rewrite_aof,
}
use fire_redis.Persistence.Rdb.{save}
use fire_redis.Persistence.Rdb.Reader.{Loaded, loaded, load}
use fire_redis.Persistence.Config.{PersistenceConfig, PersistenceStats, no_stats}

-- What is at the paths, and whether the writer's file is the one at its path.
pub record Disk : Type 0 where
  pub rdb : Option Bytes
  pub aof : Option Bytes

pub record PersistenceManager : Type 0 where
  pub config : PersistenceConfig
  pub stats : PersistenceStats
  pub dirty_counter : ℕ
  pub last_save : Instant
  pub aof_writer : Option AofWriter
  pub writer_linked : Bool
  pub disk : Disk

abbrev pub content_of : Option Bytes → Bytes
content_of none = []
content_of (some b) = b

abbrev pub open_if : Bool → AofFsyncPolicy → Disk → Option AofWriter
open_if true policy d = some (open_writer (content_of d.aof) policy)
open_if false policy d = none

-- The file is created where it is missing.
abbrev pub create_if : Bool → Disk → Disk
create_if true d = record d { aof = some (content_of d.aof) }
create_if false d = d

unfoldable pub new : PersistenceConfig → Instant → Disk → PersistenceManager
new config now disk = record {
  config = config;
  stats = no_stats;
  dirty_counter = 0;
  last_save = now;
  aof_writer = open_if config.aof_enabled config.aof_fsync disk;
  writer_linked = true;
  disk = create_if config.aof_enabled disk;
}

unfoldable pub record_write : PersistenceManager → PersistenceManager
record_write m = record m { dirty_counter = fetch_add m.dirty_counter 1 }

unfoldable pub dirty_count : PersistenceManager → ℕ
dirty_count m = m.dirty_counter

-- The writer's file, at its path while it is linked there.
abbrev pub write_through : AofWriter → PersistenceManager → PersistenceManager
write_through w m = record m {
  aof_writer = some w;
  disk = if m.writer_linked then record m.disk { aof = some w.file } else m.disk;
}

abbrev pub count_command : PersistenceStats → PersistenceStats
count_command s = record s { aof_total_commands = s.aof_total_commands + 1 }

-- A round of the writer's task, on a command from the channel.
unfoldable pub process_aof : Value → PersistenceManager → PersistenceManager
process_aof command m = elim m.aof_writer [
  | none ↦ m
  | some w ↦ record (write_through (append command w) m) { stats = count_command m.stats }
]

-- A round of the task that flushes the file each second, and the last flush.
unfoldable pub fsync_aof : PersistenceManager → PersistenceManager
fsync_aof m = elim m.aof_writer [ none ↦ m | some w ↦ record m { aof_writer = some (fsync w) } ]

-- The clocks of a save: the wall clock, in ms, and the instant at which the entries are written, and
-- at the end the seconds of the wall clock, the instant and the ms gone by.
pub record SaveTimes : Type 0 where
  pub wall : ℕ
  pub now : Instant
  pub unix_time : ℕ
  pub finish : Instant
  pub elapsed_ms : ℕ

-- `save`. The count is reset when the file is there.
unfoldable pub save_rdb :
    Platform → SaveTimes → PersistenceManager × Store → PersistenceManager × Store
save_rdb fl t (m, s) =
    let (s', file) = save fl t.wall t.now s in
    (
      record m {
        stats = record m.stats {
          rdb_last_save_time = some t.unix_time;
          rdb_last_save_status = some (codes "OK (" ++ (to_string t.elapsed_ms ++ codes " ms)"));
          rdb_file_size = some (length file);
        };
        dirty_counter = 0;
        last_save = t.finish;
        disk = record m.disk { rdb = some file };
      },
      record s' { metrics = record_rdb_save s'.metrics },
    )

-- The conditions, in their order; the first that holds decides.
unfoldable pub is_save_due : ℕ → ℕ → List (ℕ × ℕ) → Bool
is_save_due dirty elapsed [] = false
is_save_due dirty elapsed ((changes, seconds) ∷ conditions) =
    if leb changes dirty && leb seconds elapsed then true else is_save_due dirty elapsed conditions

-- `as_secs() as u32`
abbrev pub elapsed_secs : Instant → Instant → ℕ
elapsed_secs start now = (now - start) / 1000000000 % 2 ^ 32

-- A round of the autosave task.
unfoldable pub autosave :
    Platform → SaveTimes → PersistenceManager × Store → PersistenceManager × Store
unfolding is_save_due save_rdb
autosave fl t (m, s) =
    if is_save_due m.dirty_counter (elapsed_secs m.last_save t.now) m.config.rdb_save_conditions
    then save_rdb fl t (m, s)
    else (m, s)

-- Which tasks `start_background_tasks` starts: the autosave, and the flush each second.
abbrev pub is_every_sec : AofFsyncPolicy → Bool
is_every_sec every_sec = true
is_every_sec _ = false

unfoldable pub background_tasks : PersistenceConfig → Bool × Bool
background_tasks c = (
  c.rdb_enabled && not (is_empty c.rdb_save_conditions),
  c.aof_enabled && is_every_sec c.aof_fsync,
)

-- What was loaded at the start.
pub data Startup : Type 0 where
  from_aof : Replayed → Startup
  from_rdb : Loaded → Startup
  from_nothing : Startup

abbrev pub load_rdb : Platform → ℕ → Instant → Bool → Option Bytes → Store → Store × Startup
load_rdb fl wall now true (some file) s = let (s', r) = load fl wall now file s in (s', from_rdb r)
load_rdb fl wall now _ _ s = (s, from_nothing)

abbrev pub load_aof :
    Platform
    → (Metrics → Bytes)
    → (ℕ → Instant)
    → Bool
    → Option Bytes
    → Store × Startup
    → Store
    → Store × Startup
load_aof fl info clock true (some file) other s =
    let (s', r) = replay fl info clock file s in (s', from_aof r)
load_aof fl info clock _ _ other s = other

unfoldable pub load_on_startup :
    Platform → (Metrics → Bytes) → (ℕ → Instant) → ℕ → PersistenceManager → Store → Store × Startup
load_on_startup fl info clock wall m s =
    load_aof fl info clock m.config.aof_enabled m.disk.aof
      (load_rdb fl wall (clock 0) m.config.rdb_enabled m.disk.rdb s) s

-- `temp` is what the temporary file has left; the new file takes the place of the writer's.
unfoldable pub rewrite :
    Platform → Instant → Bytes → PersistenceManager × Store → PersistenceManager × Store × ℕ
rewrite fl now temp (m, s) =
    let (s', (file, count)) = rewrite_aof fl now temp s in
    (
      record m {
        stats = record m.stats { aof_file_size = some (length file) };
        disk = record m.disk { aof = some file };
        writer_linked = false;
      },
      s',
      count,
    )

unfoldable pub shutdown :
    Platform → SaveTimes → PersistenceManager × Store → PersistenceManager × Store
unfolding fsync_aof save_rdb
shutdown fl t (m, s) =
    let flushed = if m.config.aof_enabled then fsync_aof m else m in
    if m.config.rdb_enabled then save_rdb fl t (flushed, s) else (flushed, s)
