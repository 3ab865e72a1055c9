-- ===== src/Http.antt =====
-- src/http.rs: the HTTP endpoint, from the bytes of a request to those of its response.
pub mod Framing
use fire_redis.Prelude.{
  ℕ, ◌-◌, Bool, false, ◌&&◌, ◌||◌, not, Option, none, some, List, [], ◌∷◌, ◌++◌, map, Bytes, codes,
  beq, leb, ltb, ◌==◌, is_empty, take, length, if◌then◌else◌, to_ascii_lowercase,
}
use fire_redis.Decimal.{to_string, i64_to_string}
use fire_redis.Utf8.{is_utf8}
use fire_redis.Metrics.{Metrics}
use fire_redis.Metrics.Snapshot.{snapshot}

unfoldable pub content_len : ℕ → Bytes
content_len n = codes "Content-Length: " ++ (to_string n ++ codes "\r\n")

unfoldable pub response_headers : Bytes → Bytes
response_headers content_type =
    codes "Content-Type: " ++ (content_type ++ codes "\r\nConnection: close\r\n\r\n")

abbrev pub with_status : Bytes → Bytes → Bytes → Bytes
with_status status content_type body =
    status ++ (content_len (length body) ++ (response_headers content_type ++ body))

unfoldable pub ok_response : Bytes → Bytes → Bytes
ok_response content_type body = with_status (codes "HTTP/1.1 200 OK\r\n") content_type body

unfoldable pub not_found : Bytes → Bytes
not_found body = with_status (codes "HTTP/1.1 404 Not Found\r\n") (codes "text/plain") body

-- U+2013, as UTF-8.
abbrev en_dash : Bytes
en_dash = 0xE2 ∷ 0x80 ∷ 0x93 ∷ []

unfoldable pub root_body : Bytes
root_body =
    (codes
        "<!DOCTYPE html>\n<html>\n<head><title>Fire-Redis Metrics</title></head>\n<body>\n<h1>Fire-Redis</h1>\n<ul>\n  <li><a href=\"/health\">/health</a> "
      ++ (en_dash
          ++ (codes " JSON health check</li>\n  <li><a href=\"/metrics\">/metrics</a> "
              ++ (en_dash ++ codes " Prometheus metrics</li>\n</ul>\n</body>\n</html>"))))

unfoldable pub handle_root : Bytes
unfolding ok_response root_body
handle_root = ok_response (codes "text/html") root_body

unfoldable pub health_body : ℕ → Metrics → Bytes
health_body uptime_seconds m =
    let s = snapshot uptime_seconds m in
    (codes "{\"status\":\"ok\",\"uptime_seconds\":"
      ++ (to_string s.uptime_seconds
          ++ (codes ",\"active_connections\":"
              ++ (i64_to_string s.active_connections
                  ++ (codes ",\"total_commands\":"
                      ++ (to_string s.total_commands
                          ++ (codes ",\"total_keys\":"
                              ++ (i64_to_string s.total_keys ++ codes "}"))))))))

unfoldable pub handle_health : ℕ → Metrics → Bytes
unfolding ok_response health_body
handle_health uptime_seconds m =
    ok_response (codes "application/json") (health_body uptime_seconds m)

-- The help, the type and the value of a counter or a gauge.
abbrev sample : Bytes → Bytes → Bytes → Bytes → Bytes
sample name help type value =
    codes "# HELP fire_redis_"
    ++ name
    ++ codes " "
    ++ help
    ++ codes "\n# TYPE fire_redis_"
    ++ name
    ++ codes " "
    ++ type
    ++ codes "\nfire_redis_"
    ++ name
    ++ codes " "
    ++ value
    ++ codes "\n"

-- replace('.', "_")
abbrev dot_to_underscore : ℕ → ℕ
dot_to_underscore c = if c == b'.' then b'_' else c

unfoldable pub safe_name : Bytes → Bytes
safe_name cmd = map dot_to_underscore (to_ascii_lowercase cmd)

unfoldable pub command_samples : List (Bytes × ℕ) → Bytes
unfolding safe_name
command_samples [] = []
command_samples ((cmd, count) ∷ counts) =
    sample (codes "cmd_" ++ safe_name cmd) (codes "Command count for " ++ cmd) (codes "counter")
      (to_string count)
    ++ command_samples counts

unfoldable pub bucket_samples : List (ℕ × ℕ) → Bytes
bucket_samples [] = []
bucket_samples ((threshold, count) ∷ buckets) =
    codes "fire_redis_latency_us_bucket{le=\""
    ++ to_string threshold
    ++ codes "\"} "
    ++ to_string count
    ++ codes "\n"
    ++ bucket_samples buckets

abbrev counted : Bytes → Bytes → ℕ → Bytes
counted name help n = sample name help (codes "counter") (to_string n)

unfoldable pub metrics_body : ℕ → Metrics → Bytes
unfolding command_samples bucket_samples
metrics_body uptime_seconds m =
    let s = snapshot uptime_seconds m in
    (counted (codes "total_commands") (codes "Total number of commands processed") s.total_commands
      ++ counted (codes "error_commands") (codes "Number of errored commands") s.error_commands
      ++ counted (codes "connections_received") (codes "Total connections received")
          s.total_connections
      ++ sample (codes "active_connections") (codes "Currently active connections") (codes "gauge")
          (i64_to_string s.active_connections)
      ++ sample (codes "total_keys") (codes "Total keys in database") (codes "gauge")
          (i64_to_string s.total_keys)
      ++ counted (codes "evicted_keys") (codes "Keys evicted due to expiration") s.evicted_keys
      ++ counted (codes "expired_keys") (codes "Keys expired") s.expired_keys
      ++ counted (codes "keyspace_hits") (codes "Keyspace hits") s.keyspace_hits
      ++ counted (codes "keyspace_misses") (codes "Keyspace misses") s.keyspace_misses
      ++ counted (codes "net_input_bytes") (codes "Total network input bytes")
          s.total_net_input_bytes
      ++ counted (codes "net_output_bytes") (codes "Total network output bytes")
          s.total_net_output_bytes
      ++ counted (codes "rdb_saves") (codes "RDB saves") s.rdb_saves
      ++ counted (codes "aof_writes") (codes "AOF writes") s.aof_writes
      ++ counted (codes "aof_rewrites") (codes "AOF rewrites") s.aof_rewrites
      ++ counted (codes "uptime_seconds") (codes "Server uptime") s.uptime_seconds
      ++ command_samples s.command_counts
      ++ codes
          "# HELP fire_redis_latency_us Command latency histogram buckets\n# TYPE fire_redis_latency_us histogram\n"
      ++ bucket_samples s.latency_buckets
      ++ codes "fire_redis_latency_us_bucket{le=\"+Inf\"} "
      ++ to_string s.latency_count
      ++ codes "\nfire_redis_latency_us_count "
      ++ to_string s.latency_count
      ++ codes "\nfire_redis_latency_us_sum "
      ++ to_string s.total_latency_us
      ++ codes "\n")

unfoldable pub handle_metrics : ℕ → Metrics → Bytes
unfolding ok_response metrics_body
handle_metrics uptime_seconds m =
    ok_response (codes "text/plain; version=0.0.4") (metrics_body uptime_seconds m)

-- `str::lines`: the first line. A carriage return in front of the line feed stays, and is white space.
unfoldable pub first_line : Bytes → Bytes
first_line [] = []
first_line (c ∷ s) = let rest = first_line s in if c == 10 then [] else c ∷ rest

abbrev is_ascii_space : ℕ → Bool
is_ascii_space c = (leb 9 c && leb c 13) || (c == 32)

-- `str::starts_with`
unfoldable pub starts_with : Bytes → Bytes → Bool
starts_with s prefix = beq (take (length prefix) s) prefix

-- U+2000 to U+200A, U+2028, U+2029 and U+202F start with these two bytes.
abbrev is_general_space : Bytes → Bool
is_general_space (_ ∷ _ ∷ c ∷ s) =
    (leb 0x80 c && leb c 0x8A) || ((c == 0xA8) || ((c == 0xA9) || (c == 0xAF)))
is_general_space _ = false

-- How many bytes the white space takes that the text starts with: 0 where it starts with none. Of two
-- bytes are U+0085 and U+00A0, and of three U+1680, those above, U+205F and U+3000.
unfoldable pub space_len : Bytes → ℕ
unfolding starts_with
space_len [] = 0
space_len (c ∷ s) =
    if is_ascii_space c
    then 1
    else if starts_with (c ∷ s) (0xC2 ∷ 0x85 ∷ []) || starts_with (c ∷ s) (0xC2 ∷ 0xA0 ∷ [])
    then 2
    else if starts_with (c ∷ s) (0xE1 ∷ 0x9A ∷ 0x80 ∷ [])
        || ((starts_with (c ∷ s) (0xE2 ∷ 0x80 ∷ []) && is_general_space (c ∷ s))
            || (starts_with (c ∷ s) (0xE2 ∷ 0x81 ∷ 0x9F ∷ [])
                || starts_with (c ∷ s) (0xE3 ∷ 0x80 ∷ 0x80 ∷ [])))
    then 3
    else 0

-- `str::split_whitespace`: `skip` bytes of a space are left, and `word` was read so far.
unfoldable pub split_from : ℕ → Bytes → Bytes → List Bytes
unfolding space_len
split_from skip word [] = if is_empty word then [] else word ∷ []
split_from skip word (c ∷ s) =
    let space = space_len (c ∷ s) in
    let ends = (skip == 0) && ltb 0 space in
    let kept = if ltb 0 skip then word else if ends then [] else word ++ c ∷ [] in
    let rest = split_from (if ltb 0 skip then skip - 1 else space - 1) kept s in
    if ends && not (is_empty word) then word ∷ rest else rest

abbrev pub second : List Bytes → Option Bytes
second (_ ∷ w ∷ ws) = some w
second _ = none

unfoldable pub parse_path : Bytes → Option Bytes
unfolding first_line split_from
parse_path buf = if is_utf8 buf then second (split_from 0 [] (first_line buf)) else none

abbrev pub path_or_empty : Option Bytes → Bytes
path_or_empty none = []
path_or_empty (some p) = p

unfoldable pub route : ℕ → Metrics → Bytes → Bytes
unfolding handle_root handle_health handle_metrics not_found
route uptime_seconds m path =
    if beq path (codes "/")
    then handle_root
    else if beq path (codes "/health")
    then handle_health uptime_seconds m
    else if beq path (codes "/metrics")
    then handle_metrics uptime_seconds m
    else not_found (codes "Not Found")

-- What a connection is answered whose first read yields these bytes; a read takes 4096 at most, and
-- one of none closes the connection.
unfoldable pub respond : ℕ → Metrics → Bytes → Option Bytes
unfolding parse_path route
respond uptime_seconds m received =
    if is_empty received
    then none
    else some (route uptime_seconds m (path_or_empty (parse_path (take 4096 received))))
