-- ===== src/Tests/Running.antt =====
-- The theorems on the server and its counters at concrete requests.
use fire_redis.Prelude.{
  none, map, All, ◌≡◌, ◌+◌, refl, some, List, [], ◌∷◌, Bytes, codes, beq, arith, to_ascii_uppercase,
  map,
}
use fire_redis.Dict
use fire_redis.Metrics.{Metrics, new}
use fire_redis.Resp.{bulk_string, array, values_of}
use fire_redis.Metrics.{record_latency}
use fire_redis.Metrics.Latency.{IsCounted, sum, record_latency-IsCounted}
use fire_redis.Server.{Server, Event, received, refused, handle_connection, serve_command}
use fire_redis.Resp.{invalid_integer}
use fire_redis.Commands.Parse.{try_from}
use fire_redis.Server.Journaling.{Journaled, all_writes, handle_connection-Journaled}
use fire_redis.Resp.{count}
use fire_redis.Server.{cmd_name}
use fire_redis.Utf8.{from_utf8_lossy, is_utf8}
use fire_redis.Persistence.Aof.{should_log_to_aof}
use fire_redis.Resp.Wire.{IsWire}
use fire_redis.Persistence.Manager.{Disk}
use fire_redis.Http.{parse_path, route, not_found, respond}
use fire_redis.Http.Framing.{read_response, answer, respond-read_response}
use fire_redis.Tests.{bits, no_info, key, empty}

abbrev pub request : List Bytes → Event
request args = record {
  item = received (array (values_of (map (λ b. bulk_string (some b)) args)));
  now = 7;
  elapsed_us = 40;
}

-- An SADD, a QUIT and an echo behind it.
abbrev session : List Event
session =
    request (codes "SADD" ∷ key ∷ codes "m" ∷ [])
    ∷ request (codes "QUIT" ∷ [])
    ∷ record { item = refused (invalid_integer (codes "x")); now = 8; elapsed_us = 0 }
    ∷ request (codes "ECHO" ∷ codes "hi" ∷ [])
    ∷ []

-- A command that is not known counts as a write; GET does not.
abbrev writes : List Event
writes = request (codes "FROB" ∷ key ∷ []) ∷ request (codes "GET" ∷ []) ∷ []

abbrev pub server : Server
server = record { store = empty; journal = some (record { dirty_counter = 4; logged = some [] }) }

handle_connection-Journaled_example :
    Journaled
      (all_writes writes)
      server.journal
      (handle_connection bits no_info writes server).0.journal
unfolding handle_connection serve_command try_from Dict.get beq to_ascii_uppercase
handle_connection-Journaled_example =
    handle_connection-Journaled bits no_info writes server (omega arith) tt

record_latency-IsCounted_example :
    IsCounted (record_latency 700 new)
    × (sum (record_latency 700 new).latency_buckets ≡ sum new.latency_buckets + 1)
    × ((record_latency 700 new).latency_count ≡ new.latency_count + 1)
record_latency-IsCounted_example =
    record_latency-IsCounted 700 new (refl, omega arith) (omega arith)

abbrev used : Metrics
used = record new { command_counts = (codes "GET", 2) ∷ (codes "SET", 5) ∷ [] }

pub frob-IsWire : All (IsWire bits.most_values) (all_writes writes)
unfolding count beq to_ascii_uppercase cmd_name from_utf8_lossy should_log_to_aof
frob-IsWire = ((omega arith, omega arith, (omega arith, (omega arith, tt))), tt)

abbrev pub no_files : Disk
no_files = record { rdb = none; aof = none }

health_path : parse_path (codes "GET /health HTTP/1.1\r\nHost: h\r\n") ≡ some (codes "/health")
unfolding parse_path is_utf8 beq
health_path = refl

respond-read_response_example :
    (response : Bytes) × (respond 3 new (codes "GET /health HTTP/1.1\r\nHost: h\r\n\r\n")
      ≡ some response)
    × (read_response response ≡ some (answer 3 new (codes "/health")))
unfolding parse_path is_utf8 beq
respond-read_response_example =
    respond-read_response 3 new (codes "GET /health HTTP/1.1\r\nHost: h\r\n\r\n") refl

no_path : route 3 new [] ≡ not_found (codes "Not Found")
unfolding route beq
no_path = refl
