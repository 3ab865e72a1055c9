-- ===== src/Server.antt =====
-- src/server.rs: what a connection does with each item that the codec yields.
--
-- The connection is the sequence of what `framed.next()` and the shutdown channel yield, each with
-- the time at which it is served. The counters of the server are those of its store. `info` renders
-- the counters for INFO.
pub mod Config
pub mod Survives
pub mod Valid
pub mod Counters
pub mod System
pub mod Replies
pub mod Journaling
pub mod Restart
use fire_redis.Prelude.{
  ℕ, ◌+◌, ◌%◌, ◌^◌, Bool, true, false, not, ◌&&◌, Option, none, some, List, [], ◌∷◌, ◌++◌, Bytes,
  codes, beq, is_empty, if◌then◌else◌, length, as_i64, Outcome, returns, panics,
}
use fire_redis.Decimal.{to_string}
use fire_redis.Utf8.{from_utf8_lossy}
use fire_redis.Platform.{Platform}
use fire_redis.Metrics.{
  Metrics, fetch_add, record_command_named, record_latency, record_net_output, record_error,
  record_keyspace_hit, record_keyspace_miss, set_total_keys,
}
use fire_redis.Resp.{
  Value, Values, nil, cons, simple_string, error, integer, bulk_string, array, null_array, null,
  values_of, list_of, RespError, unknown_type, invalid_integer_bytes, invalid_integer,
  invalid_bulk_length_bytes, invalid_bulk_length, missing_terminator, invalid_array_length_bytes,
  invalid_array_length,
}
use fire_redis.Store
use fire_redis.Store.{Store, Instant}
use fire_redis.Commands.Types.{Command}
use fire_redis.Commands.Args.{Result, ok, err}
use fire_redis.Commands.Parse.{try_from}
use fire_redis.Commands.Execute.{execute}
use fire_redis.Persistence.Aof.{should_log_to_aof}

-- The manager's count of changes, and what was sent to the writer's task, if there is one.
pub record Journal : Type 0 where
  pub dirty_counter : ℕ
  pub logged : Option (List Value)

pub record Server : Type 0 where
  pub store : Store
  pub journal : Option Journal

-- `RespError`, displayed.
unfoldable pub describe : RespError → Bytes
describe (unknown_type t) = codes "Invalid format: Unknown type: " ++ to_string t
describe invalid_integer_bytes = codes "Invalid format: Invalid integer bytes"
describe (invalid_integer s) = codes "Invalid format: Invalid integer: " ++ s
describe invalid_bulk_length_bytes = codes "Invalid format: Invalid bulk length bytes"
describe (invalid_bulk_length s) = codes "Invalid format: Invalid bulk length: " ++ s
describe missing_terminator = codes "Invalid format: Bulk string missing CRLF terminator"
describe invalid_array_length_bytes = codes "Invalid format: Invalid array length bytes"
describe (invalid_array_length s) = codes "Invalid format: Invalid array length: " ++ s

-- A name that is not a bulk string is the empty one.
unfoldable pub cmd_name : List Value → Bytes
cmd_name (bulk_string (some b) ∷ args) = from_utf8_lossy b
cmd_name _ = []

-- AofChannel::log
abbrev pub log : Value → Option (List Value) → Option (List Value)
log command none = none
log command (some sent) = some (sent ++ command ∷ [])

abbrev pub record_write : Journal → Journal
record_write j = record j { dirty_counter = fetch_add j.dirty_counter 1 }

abbrev pub is_logged : List Value → Bool
is_logged args = not (is_empty (cmd_name args)) && should_log_to_aof (cmd_name args)

unfoldable pub log_write : List Value → Option Journal → Option Journal
unfolding cmd_name
log_write args none = none
log_write args (some j) =
    if is_logged args
    then some (record_write (record j { logged = log (array (values_of args)) j.logged }))
    else some j

unfoldable pub track_keyspace_metrics : Value → Metrics → Metrics
track_keyspace_metrics (bulk_string (some _)) m = record_keyspace_hit m
track_keyspace_metrics (bulk_string none) m = record_keyspace_miss m
track_keyspace_metrics (array nil) m = record_keyspace_miss m
track_keyspace_metrics (array (cons _ _)) m = record_keyspace_hit m
track_keyspace_metrics null m = record_keyspace_miss m
track_keyspace_metrics _ m = m

unfoldable mutual
  pub estimate_value_size : Value → ℕ
  estimate_value_size (simple_string s) = length s
  estimate_value_size (error s) = length s
  estimate_value_size (integer _) = 8
  estimate_value_size (bulk_string (some b)) = length b
  estimate_value_size (bulk_string none) = 0
  estimate_value_size null = 0
  estimate_value_size (array items) = estimate_sizes items
  estimate_value_size null_array = 0

  pub estimate_sizes : Values → ℕ
  estimate_sizes nil = 0
  estimate_sizes (cons v vs) = estimate_value_size v + estimate_sizes vs

abbrev pub count_error : Value → Metrics → Metrics
count_error (error _) m = record_error m
count_error _ m = m

-- What is counted of a response.
unfoldable pub record_response : ℕ → Value → Metrics → Metrics
unfolding estimate_value_size track_keyspace_metrics
record_response elapsed_us response m = count_error response (
    record_net_output (estimate_value_size response % 2 ^ 64)
      (track_keyspace_metrics response (record_latency elapsed_us m)))

abbrev pub count_in : (Metrics → Metrics) → Store → Store
count_in f s = record s { metrics = f s.metrics }

abbrev pub respond :
    Platform → (Metrics → Bytes) → Instant → Result Command → Store → Store × Outcome Value
respond fl info now (err e) s = (s, returns e)
respond fl info now (ok c) s = execute fl info now c s

abbrev pub after_response : ℕ → Option Journal → Store × Outcome Value → Server × Outcome Value
after_response us j (s, panics) = (record { store = s; journal = j }, panics)
after_response us j (s, returns v) =
    (record { store = count_in (record_response us v) s; journal = j }, returns v)

-- One request, with at least one argument.
unfoldable pub serve_command :
    Platform → (Metrics → Bytes) → Instant → ℕ → List Value → Server → Server × Outcome Value
unfolding log_write record_response
serve_command fl info now elapsed_us args server =
    after_response elapsed_us (log_write args server.journal) (
      respond fl info now (try_from fl args)
        (count_in (record_command_named (cmd_name args)) server.store))

-- `framed.next()` yields a value, an error, or the end of the stream, or panics with a capacity overflow of
-- the decoder; the other arm of `select!` is the server's shutdown.
pub data Item : Type 0 where
  received : Value → Item
  refused : RespError → Item
  overflowed : Item
  ended : Item
  shut_down : Item

-- An item with the time at which it is served, and how long its command takes.
pub record Event : Type 0 where
  pub item : Item
  pub now : Instant
  pub elapsed_us : ℕ

-- What becomes of the connection: it waits for the next item, has been left, or a command or the decoder panicked.
pub data Progress : Type 0 where
  waits leaves crashes : Progress

abbrev pub reply : Value → Progress → Server → Server × List Value × Progress
reply v p server = (server, v ∷ [], p)

-- The test that follows it is false for every response.
unfoldable pub is_quit_command : Value → Bool
is_quit_command _ = false

abbrev pub quits : Value → Bool
quits (simple_string s) = beq s (codes "OK") && is_quit_command (simple_string s)
quits _ = false

abbrev pub send_response : Server × Outcome Value → Server × List Value × Progress
send_response (server, panics) = (server, [], crashes)
send_response (server, returns v) = reply v (if quits v then leaves else waits) server

unfoldable pub serve_value :
    Platform → (Metrics → Bytes) → Instant → ℕ → Value → Server → Server × List Value × Progress
unfolding serve_command is_quit_command
serve_value fl info now us (array nil) server =
    reply (error (codes "ERR empty command")) waits server
serve_value fl info now us (array (cons v vs)) server =
    send_response (serve_command fl info now us (list_of (cons v vs)) server)
serve_value fl info now us _ server =
    reply (error (codes "ERR invalid request format")) waits server

-- One round of the loop.
unfoldable pub serve :
    Platform → (Metrics → Bytes) → Event → Server → Server × List Value × Progress
unfolding serve_value describe
serve fl info e server = elim e.item [
  | received v ↦ serve_value fl info e.now e.elapsed_us v server
  | refused x ↦ reply (error (codes "ERR protocol error: " ++ describe x)) waits server
  | overflowed ↦ (server, [], crashes)
  | ended ↦ (server, [], leaves)
  | shut_down ↦ reply (error (codes "ERR Server shutting down")) leaves server
]

abbrev pub next_round :
    Server × List Value × Progress
    → (Server → Server × List Value × Progress)
    → Server × List Value × Progress
next_round (server, out, waits) next =
    let (server', more, p) = next server in (server', out ++ more, p)
next_round (server, out, p) next = (server, out, p)

-- `handle_connection`: the replies that it sends, in their order.
unfoldable pub handle_connection :
    Platform → (Metrics → Bytes) → List Event → Server → Server × List Value × Progress
unfolding serve
handle_connection fl info [] server = (server, [], waits)
handle_connection fl info (e ∷ events) server =
    next_round (serve fl info e server) (λ server'. handle_connection fl info events server')

-- A round of `start_expiration_evictor`.
unfoldable pub evict : Instant → Server → Server
evict now server = record server { store = (Store.evict_expired now server.store).0 }

-- A round of `start_metrics_updater`.
unfoldable pub update_metrics : Server → Server
update_metrics server = record server {
  store = count_in (set_total_keys (as_i64 (Store.key_count server.store))) server.store;
}
