-- ===== src/Metrics/Snapshot.antt =====
-- `MetricsSnapshot` of src/metrics.rs, and the text of INFO.
use fire_redis.Prelude.{
  ℕ, ◌/◌, List, [], ◌∷◌, ◌++◌, Bytes, codes, ltb, leb, if◌then◌else◌, ℤ, to_ascii_lowercase,
}
use fire_redis.Dict.{Dict}
use fire_redis.Decimal.{to_string, i64_to_string}
use fire_redis.Metrics.{Metrics, latency_buckets_us, fetch_add}

pub record MetricsSnapshot : Type 0 where
  pub total_commands : ℕ
  pub error_commands : ℕ
  pub total_connections : ℕ
  pub active_connections : ℤ
  pub evicted_keys : ℕ
  pub rdb_saves : ℕ
  pub aof_writes : ℕ
  pub aof_rewrites : ℕ
  pub total_net_input_bytes : ℕ
  pub total_net_output_bytes : ℕ
  pub expired_keys : ℕ
  pub total_keys : ℤ
  pub keyspace_hits : ℕ
  pub keyspace_misses : ℕ
  pub uptime_seconds : ℕ
  pub command_counts : List (Bytes × ℕ)
  pub total_latency_us : ℕ
  pub latency_count : ℕ
  pub latency_buckets : List (ℕ × ℕ)

-- `sort_by(|a, b| b.1.cmp(&a.1))` is stable: entries of the same count stay in their order.
unfoldable pub insert_sorted : Bytes × ℕ → List (Bytes × ℕ) → List (Bytes × ℕ)
insert_sorted e [] = e ∷ []
insert_sorted e (x ∷ xs) =
    let rest = insert_sorted e xs in if leb x.1 e.1 then e ∷ x ∷ xs else x ∷ rest

unfoldable pub sort_by_count : Dict ℕ → List (Bytes × ℕ)
unfolding insert_sorted
sort_by_count [] = []
sort_by_count (e ∷ counts) = insert_sorted e (sort_by_count counts)

unfoldable pub zip : List ℕ → List ℕ → List (ℕ × ℕ)
zip (x ∷ xs) (y ∷ ys) = (x, y) ∷ zip xs ys
zip _ _ = []

unfoldable pub snapshot : ℕ → Metrics → MetricsSnapshot
unfolding sort_by_count zip
snapshot uptime_seconds m = record {
  total_commands = m.total_commands;
  error_commands = m.error_commands;
  total_connections = m.total_connections;
  active_connections = m.active_connections;
  evicted_keys = m.evicted_keys;
  rdb_saves = m.rdb_saves;
  aof_writes = m.aof_writes;
  aof_rewrites = m.aof_rewrites;
  total_net_input_bytes = m.total_net_input_bytes;
  total_net_output_bytes = m.total_net_output_bytes;
  expired_keys = m.expired_keys;
  total_keys = m.total_keys;
  keyspace_hits = m.keyspace_hits;
  keyspace_misses = m.keyspace_misses;
  uptime_seconds = uptime_seconds;
  command_counts = sort_by_count m.command_counts;
  total_latency_us = m.total_latency_us;
  latency_count = m.latency_count;
  latency_buckets = zip latency_buckets_us m.latency_buckets;
}

-- writeln!
abbrev line : Bytes → Bytes
line s = s ++ codes "\n"

abbrev counter : Bytes → ℕ → Bytes
counter name n = line (name ++ to_string n)

unfoldable pub bucket_lines : List (ℕ × ℕ) → Bytes
bucket_lines [] = []
bucket_lines ((threshold, count) ∷ buckets) =
    line (codes "latency_bucket>" ++ to_string threshold ++ codes "us:" ++ to_string count)
    ++ bucket_lines buckets

unfoldable pub command_lines : List (Bytes × ℕ) → Bytes
command_lines [] = []
command_lines ((cmd, count) ∷ counts) =
    line (codes "cmd_" ++ to_ascii_lowercase cmd ++ codes ":" ++ to_string count)
    ++ command_lines counts

abbrev pub avg_latency : MetricsSnapshot → ℕ
avg_latency s = if ltb 0 s.latency_count then s.total_latency_us / s.latency_count else 0

abbrev pub at_least_one : ℕ → ℕ
at_least_one n = if leb n 1 then 1 else n

-- `version` is `crate::VERSION`; `percent` is the text of a rate of hits, with one decimal.
unfoldable pub to_info_string : Bytes → (ℕ → ℕ → Bytes) → MetricsSnapshot → Bytes
unfolding bucket_lines command_lines
to_info_string version percent s =
    let lookups = fetch_add s.keyspace_hits s.keyspace_misses in
    let hit_rate = if ltb 0 lookups then percent s.keyspace_hits lookups else codes "100.0" in
    line (codes "# Server\r\nredis_version:" ++ version)
    ++ counter (codes "uptime_in_seconds:") s.uptime_seconds
    ++ line (codes "tcp_port:6379\r\n")
    ++ line (codes "# Stats")
    ++ counter (codes "total_commands:") s.total_commands
    ++ counter (codes "error_commands:") s.error_commands
    ++ counter (codes "total_connections_received:") s.total_connections
    ++ line (codes "active_connections:" ++ i64_to_string s.active_connections)
    ++ line (codes "total_keys:" ++ i64_to_string s.total_keys)
    ++ counter (codes "evicted_keys:") s.evicted_keys
    ++ counter (codes "expired_keys:") s.expired_keys
    ++ counter (codes "keyspace_hits:") s.keyspace_hits
    ++ counter (codes "keyspace_misses:") s.keyspace_misses
    ++ line (codes "keyspace_hit_rate:" ++ hit_rate ++ codes "%")
    ++ counter (codes "total_net_input_bytes:") s.total_net_input_bytes
    ++ counter (codes "total_net_output_bytes:") s.total_net_output_bytes
    ++ counter (codes "rdb_saves:") s.rdb_saves
    ++ counter (codes "aof_writes:") s.aof_writes
    ++ counter (codes "aof_rewrites:") s.aof_rewrites
    ++ counter (codes "avg_latency_us:") (avg_latency s)
    ++ counter (codes "instantaneous_ops_per_sec:")
        (s.total_commands / at_least_one s.uptime_seconds)
    ++ line (codes "\r\n# Latency")
    ++ bucket_lines s.latency_buckets
    ++ line (codes "\r\n# Commandstats")
    ++ command_lines s.command_counts
    ++ line (codes "\r\n# Keyspace")
    ++ line (
        codes "db0:keys="
        ++ i64_to_string s.total_keys
        ++ codes ",expires="
        ++ to_string (fetch_add s.evicted_keys s.expired_keys))
    ++ line (codes "\r\n# Replication\r\nrole:master\r\nconnected_slaves:0")

unfoldable pub info_string : Bytes → (ℕ → ℕ → Bytes) → ℕ → Metrics → Bytes
unfolding snapshot to_info_string
info_string version percent uptime_seconds m =
    to_info_string version percent (snapshot uptime_seconds m)
