-- ===== src/Tests/System.antt =====
-- The theorems on the whole server at a concrete run.
use fire_redis.Prelude.{
  some, map, All, ◌≡◌, ◌∷◌, refl, [], codes, beq, take, arith, to_ascii_uppercase,
}
use fire_redis.Dict
use fire_redis.Resp.{Value, bulk_string, array, values_of}
use fire_redis.Resp.Wire.{normal}
use fire_redis.Keeps.Valid.{IsValid}
use fire_redis.Commands.Parse.{try_from}
use fire_redis.Utf8.{from_utf8_lossy}
use fire_redis.Persistence.Aof.{encode_all, should_log_to_aof}
use fire_redis.Persistence.Aof.Replay.{run_log}
use fire_redis.Persistence.Config.{with_aof}
use fire_redis.Persistence.Manager as P
use fire_redis.Persistence.Manager.{PersistenceManager, load_on_startup, from_aof}
use fire_redis.Server.{Event, serve_command, serve, cmd_name}
use fire_redis.Server.Journaling.{all_writes}
use fire_redis.Server.System.{
  System, accepts, serves, writes, Run, here, more, start, accept, take_turn, write_next,
  new_connection,
}
use fire_redis.Server.System.Valid.{Run-IsValid}
use fire_redis.Server.System.Counts.{open_count, IsCounted, Run-IsCounted}
use fire_redis.Server.System.Replies.{IsServed, Run-IsServed}
use fire_redis.Server.System.Restart.{load_on_startup-Run}
use fire_redis.Server.System.Snapshot.{load_on_startup-shuts_down}
use fire_redis.Prelude.{Bytes}
use fire_redis.Metrics.{new}
use fire_redis.Store
use fire_redis.Store.{with_metrics}
use fire_redis.Persistence.Config.{default}
use fire_redis.Persistence.Entries.{After}
use fire_redis.Persistence.Rdb.Reader.{loaded}
use fire_redis.Persistence.Rdb.Entries.{Back}
use fire_redis.Persistence.Manager.{from_rdb}
use fire_redis.Server.System.{new_journal, with_manager}
use fire_redis.Tests.Persistence.{stored, stored-IsValid, stored-CanStore, times}
use fire_redis.Tests.{bits, no_info, key, empty, empty-IsValid}
use fire_redis.Tests.Running.{request, no_files, frob-IsWire}

-- A server with the append-only file and no files, where one connection sends one write command, which
-- the writer's task then takes.
abbrev started : System
started = start with_aof 3 no_files empty

abbrev frob : Event
frob = request (codes "FROB" ∷ key ∷ [])

abbrev frob_value : Value
frob_value = array (values_of (map (λ b. bulk_string (some b)) (codes "FROB" ∷ key ∷ [])))

abbrev turned : System
turned = take_turn bits no_info [] new_connection [] frob (accept started)

abbrev manager : PersistenceManager
manager = P.new with_aof 3 no_files

abbrev last : System
last = write_next frob_value manager turned

a-Run : Run bits no_info started (frob ∷ []) last
unfolding start accept take_turn serve_command try_from Dict.get beq to_ascii_uppercase serve
    from_utf8_lossy should_log_to_aof
a-Run =
    more (more (more here (accepts refl)) (serves [] new_connection [] frob refl refl tt))
      (writes frob_value manager refl refl)

Run-IsValid_example : IsValid bits last.server.store
unfolding start
Run-IsValid_example = Run-IsValid bits no_info a-Run empty-IsValid

Run-IsCounted_example : IsCounted last
unfolding start write_next take_turn open_count
Run-IsCounted_example = Run-IsCounted bits no_info a-Run (omega arith) refl

Run-IsServed_example : All IsServed last.connections
unfolding start
Run-IsServed_example = Run-IsServed bits no_info a-Run tt

load_on_startup-Run_example :
    let log = map normal (take 1 (all_writes (frob ∷ []))) in
    (m : PersistenceManager) × (last.manager ≡ some m)
    × (load_on_startup bits no_info (λ n. n) 5 (P.new with_aof 9 m.disk) empty ≡ (
      (run_log bits no_info (λ n. n) 0 log empty).0,
      from_aof (run_log bits no_info (λ n. n) 0 log empty).1,
    ))
unfolding encode_all write_next cmd_name from_utf8_lossy should_log_to_aof beq to_ascii_uppercase
    take_turn accept start
load_on_startup-Run_example =
    load_on_startup-Run bits no_info with_aof 3 9 no_files empty [] (λ n. n) 5 empty refl refl a-Run
      frob-IsWire

-- A server with snapshots only, which holds a key with a deadline and has one connection.
abbrev serving : System
serving = accept (start default 3 no_files stored)

load_on_startup-shuts_down_example :
    let (entries, deadlines) = (Store.snapshot 10 serving.server.store).1 in
    let task = P.shutdown bits times in
    (m : PersistenceManager) × ((with_manager task
        (new_journal default)
        (P.new default 3 no_files)
        serving).manager
      ≡ some m)
    × (u : Store.Store) × (load_on_startup bits no_info
          (λ n. 50)
          1005
          (P.new default 40 m.disk)
          (with_metrics new)
        ≡ (u, from_rdb loaded))
    × ((j : Bytes)
        → After (Back bits 1000 10 1005 50 deadlines) j (Dict.get entries j) (with_metrics new) u)
unfolding accept start P.new Store.snapshot
load_on_startup-shuts_down_example =
    load_on_startup-shuts_down bits no_info default times 3 40 no_files stored (new_journal default)
      (P.new default 3 no_files) (λ n. 50) 1005 new refl refl stored-IsValid
      (more here (accepts refl)) refl refl (omega arith) (omega arith) (omega arith) stored-CanStore
