-- ===== src/Server/System/Valid.antt =====
-- The keyspace under all tasks of the server at once (src/server.rs, src/persistence/manager.rs).
use fire_redis.Prelude.{List, Bytes}
use fire_redis.Platform.{Platform}
use fire_redis.Metrics.{
  Metrics, record_connection_opened, record_connection_closed, record_rdb_save, set_total_keys,
}
use fire_redis.Keeps.Valid.{IsValid, evict_keeps}
use fire_redis.Server.System.Saves.{SurvivesSave, autosave_keeps, shutdown_keeps}
use fire_redis.Server.{Event, evict, update_metrics}
use fire_redis.Server.Survives.{serve_keeps}
use fire_redis.Server.Valid.{IsValid-count_in, IsValid-Survives}
use fire_redis.Server.System.{
  System, Step, accepts, serves, closes, evicts, samples, writes, flushes, saves, stops, shuts_down,
  Run, here, more, accept, take_turn, close, write_next, with_manager,
}

module _ (fl : Platform) (info : Metrics → Bytes) where
  saved : SurvivesSave (IsValid fl)
  saved = record {
    on_evict = λ now s h. evict_keeps fl now s h;
    on_save = λ s h. IsValid-count_in fl info record_rdb_save s h;
  }

  Step-IsValid :
      {sys next : System} {es : List Event}
      → Step fl info sys es next
      → IsValid fl sys.server.store
      → IsValid fl next.server.store
  unfolding accept take_turn close evict update_metrics write_next with_manager
  Step-IsValid {sys} (accepts _) h =
      IsValid-count_in fl info record_connection_opened sys.server.store h
  Step-IsValid {sys} (serves before c after e _ _ _) h =
      serve_keeps (IsValid-Survives fl info) e sys.server h
  Step-IsValid {sys} (closes before c after _ _ _) h =
      IsValid-count_in fl info record_connection_closed sys.server.store h
  Step-IsValid {sys} (evicts now) h = evict_keeps fl now sys.server.store h
  Step-IsValid {sys} samples h = IsValid-count_in fl info (set_total_keys _) sys.server.store h
  Step-IsValid (writes c m _ _) h = h
  Step-IsValid (flushes m _) h = h
  Step-IsValid {sys} (saves t j m _ _) h = autosave_keeps saved fl t _ sys.server.store h
  Step-IsValid (stops _) h = h
  Step-IsValid {sys} (shuts_down t j m _ _ _) h = shutdown_keeps saved fl t _ sys.server.store h

  -- However the connections and the background tasks of a server take turns, a valid keyspace stays
  -- valid: whatever items the connections take, panics of commands included.
  pub Run-IsValid :
      {sys last : System} {es : List Event}
      → Run fl info sys es last
      → IsValid fl sys.server.store
      → IsValid fl last.server.store
  Run-IsValid here h = h
  Run-IsValid (more run step) h = Step-IsValid step (Run-IsValid run h)
