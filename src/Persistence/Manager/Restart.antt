-- ===== src/Persistence/Manager/Restart.antt =====
-- What a server finds when it starts again (src/persistence/manager.rs).
use fire_redis.Prelude.{
  ℕ, ◌≤◌, ◌<◌, ◌≡◌, refl, sym, ap, ◌∙◌, true, false, some, List, [], ◌∷◌, ◌++◌, Bytes, map, All,
  arith, length, max_u64, append_assoc, append-nil,
}
use fire_redis.Dict
use fire_redis.Platform.{Platform}
use fire_redis.Metrics.{Metrics}
use fire_redis.Resp.{Value, null, encode}
use fire_redis.Resp.Wire.{normal, IsWire}
use fire_redis.Store
use fire_redis.Store.{Store, Instant, with_metrics}
use fire_redis.Keeps.Valid.{IsValid}
use fire_redis.Persistence.Entries.{After}
use fire_redis.Persistence.Aof.{
  AofWriter, append, open_writer, replay, encode_all, AofFsyncPolicy, always, every_sec, no_fsync,
  after_write,
}
use fire_redis.Persistence.Aof.Replay.{replay-encode_all, run_log}
use fire_redis.Persistence.Rdb.Reader.{loaded}
use fire_redis.Persistence.Rdb.Entries.{CanStore, Back}
use fire_redis.Persistence.Rdb.Recovery.{load-save}
use fire_redis.Persistence.Config.{PersistenceConfig}
use fire_redis.Persistence.Manager.{
  Disk, PersistenceManager, SaveTimes, new, process_aof, save_rdb, shutdown, load_on_startup,
  from_aof, from_rdb, content_of,
}

-- A server without the append-only file that is shut down and started again, on the disk that it left,
-- holds the keys that had not expired, as `load-save` says, whatever else was on the disk.
pub load_on_startup-shutdown :
    (fl : Platform) (info : Metrics → Bytes) (t : SaveTimes) (manager : PersistenceManager)
    (s : Store) (start : Instant) (clock : ℕ → Instant) (wall : ℕ) (m : Metrics)
    → manager.config.rdb_enabled ≡ true
    → manager.config.aof_enabled ≡ false
    → IsValid fl s
    → t.wall ≤ max_u64
    → length (Store.snapshot t.now s).1.0 ≤ max_u64
    → length (Store.snapshot t.now s).1.1 ≤ max_u64
    → All (λ e. CanStore fl e.0 e.1) (Store.snapshot t.now s).1.0
    → (u : Store) × (load_on_startup fl info clock wall
          (new manager.config start (shutdown fl t (manager, s)).0.disk)
          (with_metrics m)
        ≡ (u, from_rdb loaded))
      × ((j : Bytes)
          → After
              (Back fl t.wall t.now wall (clock 0) (Store.snapshot t.now s).1.1)
              j
              (Dict.get (Store.snapshot t.now s).1.0 j)
              (with_metrics m)
              u)
unfolding load_on_startup shutdown save_rdb new
load_on_startup-shutdown fl info t manager s start clock wall m r a h b n k c =
    let (u, e, after) = load-save fl t.wall t.now wall (clock 0) s m h b n k c in
    (u, rw r (rw a (rw e refl)), after)

-- With the append-only file enabled, a start replays that file, and nothing else: the manager has
-- made the file by then, so that also a missing file counts as one, with no commands in it, and the
-- snapshot is not read.
load_on_startup-from_aof :
    (fl : Platform) (info : Metrics → Bytes) (config : PersistenceConfig) (start : Instant)
    (disk : Disk) (clock : ℕ → Instant) (wall : ℕ) (s : Store)
    → config.aof_enabled ≡ true
    → load_on_startup fl info clock wall (new config start disk) s ≡ (
      (replay fl info clock (content_of disk.aof) s).0,
      from_aof (replay fl info clock (content_of disk.aof) s).1,
    )
unfolding load_on_startup new
load_on_startup-from_aof fl info config start disk clock wall s a = rw a refl

-- The commands of the channel, one after the other.
abbrev pub process_all : List Value → PersistenceManager → PersistenceManager
process_all [] m = m
process_all (c ∷ cs) m = process_all cs (process_aof c m)

-- The writer's file is the one at the path, and holds these bytes.
abbrev pub IsAt : Bytes → PersistenceManager → Type 0
IsAt file m =
    (w : AofWriter) × (m.aof_writer ≡ some w)
    × (w.file ≡ file)
    × (m.writer_linked ≡ true)
    × (m.disk.aof ≡ some file)

file-after_write : (p : AofFsyncPolicy) (w : AofWriter) → (after_write p w).file ≡ w.file
file-after_write always w = refl
file-after_write every_sec w = refl
file-after_write no_fsync w = refl

file-append : (c : Value) (w : AofWriter) → (append c w).file ≡ w.file ++ encode c []
unfolding append
file-append c w = file-after_write w.fsync_policy _

pub process_aof-IsAt :
    (c : Value) (file : Bytes) (m : PersistenceManager)
    → IsAt file m
    → IsAt (file ++ encode c []) (process_aof c m)
unfolding process_aof
process_aof-IsAt c file m (w, e, f, l, d) =
    let g : (append c w).file ≡ file ++ encode c [] =
      file-append c w ∙ ap (λ b. b ++ encode c []) f in
    (append c w, rw e refl, g, rw e l, rw e (rw l (ap some g)))

process_all-IsAt :
    (cs : List Value) (file : Bytes) (m : PersistenceManager)
    → IsAt file m
    → IsAt (file ++ encode_all cs) (process_all cs m)
unfolding encode_all
process_all-IsAt [] file m h = rw (append-nil file) h
process_all-IsAt (c ∷ cs) file m h =
    rw append_assoc at
      (process_all-IsAt cs (file ++ encode c []) (process_aof c m) (process_aof-IsAt c file m h))

pub encode_all-append : (a b : List Value) → encode_all (a ++ b) ≡ encode_all a ++ encode_all b
unfolding encode_all
encode_all-append [] b = refl
encode_all-append (v ∷ a) b =
    rw (encode_all-append a b) (sym (append_assoc (encode v []) (encode_all a) (encode_all b)))

pub new-IsAt :
    (config : PersistenceConfig) (start : Instant) (disk : Disk)
    → config.aof_enabled ≡ true
    → IsAt (content_of disk.aof) (new config start disk)
unfolding new open_writer
new-IsAt config start disk a =
    (open_writer (content_of disk.aof) config.aof_fsync, rw a refl, refl, refl, rw a refl)

null_bytes : 0 < length (encode null [])
unfolding encode
null_bytes = omega arith

-- A start with the append-only file replays the log that it holds.
pub load_on_startup-encode_all :
    (fl : Platform) (info : Metrics → Bytes) (config : PersistenceConfig) (start : Instant)
    (disk : Disk) (clock : ℕ → Instant) (wall : ℕ) (cs : List Value) (s : Store)
    → config.aof_enabled ≡ true
    → content_of disk.aof ≡ encode_all cs
    → All (IsWire fl.most_values) cs
    → load_on_startup fl info clock wall (new config start disk) s ≡ (
      (run_log fl info clock 0 (map normal cs) s).0,
      from_aof (run_log fl info clock 0 (map normal cs) s).1,
    )
load_on_startup-encode_all fl info config start disk clock wall cs s a e w =
    load_on_startup-from_aof fl info config start disk clock wall s a
    ∙ ap (λ b. ((replay fl info clock b s).0, from_aof (replay fl info clock b s).1))
        (e ∙ sym (append-nil (encode_all cs)))
    ∙ ap (λ r. (r.0, from_aof r.1)) (replay-encode_all fl info clock cs null 0 s w tt null_bytes)

-- The file of a log that was written before, and of the commands that came through the channel since,
-- is replayed in full and in order when the server starts again, whatever the policy of its flushes.
-- The commands are ones that the codec can carry; `normal` is what they are read back as.
pub load_on_startup-process_all :
    (fl : Platform) (info : Metrics → Bytes) (config : PersistenceConfig) (first second : Instant)
    (disk : Disk) (clock : ℕ → Instant) (wall : ℕ) (old cs : List Value) (s : Store)
    → config.aof_enabled ≡ true
    → content_of disk.aof ≡ encode_all old
    → All (IsWire fl.most_values) (old ++ cs)
    → load_on_startup fl info clock wall
        (new config second (process_all cs (new config first disk)).disk)
        s
      ≡ (
        (run_log fl info clock 0 (map normal (old ++ cs)) s).0,
        from_aof (run_log fl info clock 0 (map normal (old ++ cs)) s).1,
      )
load_on_startup-process_all fl info config first second disk clock wall old cs s a e w =
    let (x, x0, x1, x2, there) =
      process_all-IsAt cs (content_of disk.aof) (new config first disk)
        (new-IsAt config first disk a) in
    let at_path : content_of (process_all cs (new config first disk)).disk.aof
        ≡ encode_all (old ++ cs) =
      ap content_of there ∙ ap (λ b. b ++ encode_all cs) e ∙ sym (encode_all-append old cs) in
    load_on_startup-encode_all fl info config second (process_all cs (new config first disk)).disk
      clock wall (old ++ cs) s a at_path w

-- The writer's file holds these bytes and is no longer the one at the path.
abbrev pub IsReplaced : Bytes → Disk → ℕ → PersistenceManager → Type 0
IsReplaced file disk count m =
    (w : AofWriter) × (m.aof_writer ≡ some w)
    × (w.file ≡ file)
    × (m.writer_linked ≡ false)
    × (m.disk ≡ disk)
    × (m.stats.aof_total_commands ≡ count)
