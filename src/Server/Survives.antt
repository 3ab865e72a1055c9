-- ===== src/Server/Survives.antt =====
-- What a connection keeps of the keyspace (`handle_connection` of src/server.rs): whatever its counters
-- and the commands keep.
use fire_redis.Prelude.{ℕ, Option, List, [], ◌∷◌, Bytes, Outcome, returns, panics}
use fire_redis.Platform.{Platform}
use fire_redis.Metrics.{Metrics, record_command_named}
use fire_redis.Resp.{
  Value, nil, cons, simple_string, error, integer, bulk_string, array, null_array, null, list_of,
}
use fire_redis.Store.{Store, Instant}
use fire_redis.Commands.Types.{Command}
use fire_redis.Commands.Args.{Result, ok, err}
use fire_redis.Commands.Parse.{try_from}
use fire_redis.Commands.Execute.{execute}
use fire_redis.Keeps.Named.{HasMembers}
use fire_redis.Keeps.Parsers.{Yields}
use fire_redis.Keeps.Requests.{try_from-Yields}
use fire_redis.Server.{
  Journal, Server, Item, received, refused, overflowed, ended, shut_down, Event, Progress, waits,
  leaves, crashes, send_response, serve_command, serve_value, serve, next_round, handle_connection,
  log_write, respond, after_response, count_in, record_response, cmd_name,
}

-- A predicate that the counters of a connection and every command keep.
pub record Survives (fl : Platform) (info : Metrics → Bytes) (P : Store → Type 0) : Type 0 where
  pub on_command : (name : Bytes) (s : Store) → P s → P (count_in (record_command_named name) s)
  pub on_response : (us : ℕ) (v : Value) (s : Store) → P s → P (count_in (record_response us v) s)
  pub on_execute :
      (now : Instant) (c : Command) (s : Store) → HasMembers c → P s → P (execute fl info now c s).0

module _ {fl : Platform} {info : Metrics → Bytes} {P : Store → Type 0}
    (k : Survives fl info P) where
  respond_keeps :
      (now : Instant) (r : Result Command) (s : Store)
      → Yields r
      → P s
      → P (respond fl info now r s).0
  respond_keeps now (ok c) s y h = k.on_execute now c s y h
  respond_keeps now (err e) s y h = h

  after_keeps :
      (us : ℕ) (j : Option Journal) (r : Store × Outcome Value)
      → P r.0
      → P (after_response us j r).0.store
  after_keeps us j (s, returns v) h = k.on_response us v s h
  after_keeps us j (s, panics) h = h

  command_keeps :
      (now : Instant) (us : ℕ) (args : List Value) (server : Server)
      → P server.store
      → P (serve_command fl info now us args server).0.store
  unfolding serve_command
  command_keeps now us args server h = after_keeps us (log_write args server.journal) _ (
      respond_keeps now (try_from fl args) _ (try_from-Yields fl args)
        (k.on_command (cmd_name args) server.store h))

  sent_keeps : (r : Server × Outcome Value) → P r.0.store → P (send_response r).0.store
  sent_keeps (server, returns v) h = h
  sent_keeps (server, panics) h = h

  value_keeps :
      (now : Instant) (us : ℕ) (v : Value) (server : Server)
      → P server.store
      → P (serve_value fl info now us v server).0.store
  unfolding serve_value
  value_keeps now us (array nil) server h = h
  value_keeps now us (array (cons v vs)) server h =
      sent_keeps (serve_command fl info now us (list_of (cons v vs)) server)
        (command_keeps now us (list_of (cons v vs)) server h)
  value_keeps now us (simple_string b) server h = h
  value_keeps now us (error b) server h = h
  value_keeps now us (integer i) server h = h
  value_keeps now us (bulk_string b) server h = h
  value_keeps now us null_array server h = h
  value_keeps now us null server h = h

  item_keeps :
      (i : Item) (now : Instant) (us : ℕ) (server : Server)
      → P server.store
      → P (serve fl info (record { item = i; now = now; elapsed_us = us }) server).0.store
  unfolding serve
  item_keeps (received v) now us server h = value_keeps now us v server h
  item_keeps (refused x) now us server h = h
  item_keeps overflowed now us server h = h
  item_keeps ended now us server h = h
  item_keeps shut_down now us server h = h

  pub serve_keeps :
      (e : Event) (server : Server) → P server.store → P (serve fl info e server).0.store
  serve_keeps e server h = item_keeps e.item e.now e.elapsed_us server h

  next_keeps :
      (r : Server × List Value × Progress) (next : Server → Server × List Value × Progress)
      → P r.0.store
      → ((t : Server) → P t.store → P (next t).0.store)
      → P (next_round r next).0.store
  next_keeps (server, out, waits) next h f = f server h
  next_keeps (server, out, leaves) next h f = h
  next_keeps (server, out, crashes) next h f = h

  pub handle_connection_keeps :
      (events : List Event) (server : Server)
      → P server.store
      → P (handle_connection fl info events server).0.store
  unfolding handle_connection
  handle_connection_keeps [] server h = h
  handle_connection_keeps (e ∷ events) server h =
      next_keeps (serve fl info e server) _ (serve_keeps e server h)
        (λ t q. handle_connection_keeps events t q)
