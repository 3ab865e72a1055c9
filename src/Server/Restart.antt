-- ===== src/Server/Restart.antt =====
-- A connection (src/server.rs), the writer's task, and the next start (src/persistence/manager.rs).
use fire_redis.Prelude.{
  ◌≡◌, sym, ap, ◌∙◌, true, Option, none, some, List, [], ◌++◌, ℕ, map, All, Bytes, subst, arith,
}
use fire_redis.Platform.{Platform}
use fire_redis.Metrics.{Metrics}
use fire_redis.Resp.{Value}
use fire_redis.Resp.Wire.{normal, IsWire}
use fire_redis.Store.{Store, Instant}
use fire_redis.Server.{Server, Journal, Event, handle_connection}
use fire_redis.Server.Journaling.{
  all_writes, Waits, IsCount, Journaled, handle_connection-Journaled,
}
use fire_redis.Persistence.Aof.{encode_all}
use fire_redis.Persistence.Aof.Replay.{run_log}
use fire_redis.Persistence.Config.{PersistenceConfig}
use fire_redis.Persistence.Manager.{Disk, new, load_on_startup, from_aof, content_of}
use fire_redis.Persistence.Manager.Restart.{process_all, load_on_startup-process_all}

-- What came through the channel.
abbrev pub sent : Option (List Value) → List Value
sent none = []
sent (some cs) = cs

abbrev pub sent_of : Option Journal → List Value
sent_of none = []
sent_of (some j) = sent j.logged

-- Nothing was sent before.
abbrev pub fresh : Journal
fresh = record { dirty_counter = 0; logged = some [] }

sent_of-Journaled :
    (ws : List Value) (k : Option Journal) → Journaled ws (some fresh) k → sent_of k ≡ ws
sent_of-Journaled ws k (j, e, s, n) = ap sent_of e ∙ ap sent s

-- A server with the append-only file that has served a connection, whose write commands have been
-- appended to the log that was there, replays at its next start that log and exactly those commands,
-- in their order. The connection goes on, and the codec can carry all the commands.
pub load_on_startup-handle_connection :
    (fl : Platform) (info : Metrics → Bytes) (config : PersistenceConfig) (first second : Instant)
    (disk : Disk) (clock : ℕ → Instant) (wall : ℕ) (old : List Value) (events : List Event)
    (server : Server) (s : Store)
    → config.aof_enabled ≡ true
    → content_of disk.aof ≡ encode_all old
    → server.journal ≡ some fresh
    → Waits (handle_connection fl info events server)
    → All (IsWire fl.most_values) (old ++ all_writes events)
    → load_on_startup fl info clock wall
        (new config second
          (process_all
            (sent_of (handle_connection fl info events server).0.journal)
            (new config first disk)).disk)
        s
      ≡ (
        (run_log fl info clock 0 (map normal (old ++ all_writes events)) s).0,
        from_aof (run_log fl info clock 0 (map normal (old ++ all_writes events)) s).1,
      )
load_on_startup-handle_connection fl info config first second disk clock wall old events server s a
      e j w all =
    let count : IsCount server.journal = subst IsCount (sym j) (omega arith) in
    let sends = handle_connection-Journaled fl info events server count w in
    let log : sent_of (handle_connection fl info events server).0.journal ≡ all_writes events =
      sent_of-Journaled (all_writes events) (handle_connection fl info events server).0.journal (
        subst
          (λ o. Journaled (all_writes events) o (handle_connection fl info events server).0.journal)
          j sends) in
    ap
      (λ cs.
        load_on_startup fl info clock wall
          (new config second (process_all cs (new config first disk)).disk) s)
      log
    ∙ load_on_startup-process_all fl info config first second disk clock wall old
        (all_writes events) s a e all
