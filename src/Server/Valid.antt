-- ===== src/Server/Valid.antt =====
-- The keyspace under the requests of a connection (`handle_connection` of src/server.rs).
use fire_redis.Prelude.{List, Bytes}
use fire_redis.Platform.{Platform}
use fire_redis.Metrics.{Metrics, record_command_named}
use fire_redis.Store.{Store}
use fire_redis.Keeps.Valid.{IsValid, execute-IsValid}
use fire_redis.Server.{Server, Event, handle_connection, count_in, record_response}
use fire_redis.Server.Survives.{Survives, handle_connection_keeps}

module _ (fl : Platform) (info : Metrics → Bytes) where
  pub IsValid-count_in :
      (f : Metrics → Metrics) (s : Store) → IsValid fl s → IsValid fl (count_in f s)
  IsValid-count_in f s h = record {
    distinct = h.distinct;
    deadlines = h.deadlines;
    attached = h.attached;
    good = h.good;
  }

  pub IsValid-Survives : Survives fl info (IsValid fl)
  IsValid-Survives = record {
    on_command = λ name s h. IsValid-count_in (record_command_named name) s h;
    on_response = λ us v s h. IsValid-count_in (record_response us v) s h;
    on_execute = λ now c s m h. execute-IsValid fl info now c s m h;
  }

  -- A connection keeps the keyspace valid, whatever items come over it, also where a command panics.
  pub handle_connection-IsValid :
      (events : List Event) (server : Server)
      → IsValid fl server.store
      → IsValid fl (handle_connection fl info events server).0.store
  handle_connection-IsValid events server h =
      handle_connection_keeps IsValid-Survives events server h
