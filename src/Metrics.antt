-- ===== src/Metrics.antt =====
-- src/metrics.rs: the counters of the server. An atomic u64 wraps around.
pub mod Snapshot
pub mod Latency
pub mod Order
use fire_redis.Prelude.{
  ℕ, zero, suc, none, some, Option, ◌+◌, ◌%◌, ◌^◌, List, [], ◌∷◌, ltb, leb, if◌then◌else◌, ℤ, pos,
  negsuc, ◌+ℤ◌, as_i64, Bytes, max_i64, is_negative, in_i64,
}
use fire_redis.Dict
use fire_redis.Dict.{Dict}

pub record Metrics : Type 0 where
  pub total_commands : ℕ
  pub error_commands : ℕ
  pub total_connections : ℕ
  pub active_connections : ℤ
  pub evicted_keys : ℕ
  pub rdb_saves : ℕ
  pub aof_writes : ℕ
  pub aof_rewrites : ℕ
  pub total_net_input_bytes : ℕ
  pub total_net_output_bytes : ℕ
  pub expired_keys : ℕ
  pub total_keys : ℤ
  pub keyspace_hits : ℕ
  pub keyspace_misses : ℕ
  pub command_counts : Dict ℕ
  pub total_latency_us : ℕ
  pub latency_count : ℕ
  pub latency_buckets : List ℕ

abbrev pub latency_buckets_us : List ℕ
latency_buckets_us = 10 ∷ 50 ∷ 100 ∷ 500 ∷ 1000 ∷ 5000 ∷ 10000 ∷ 50000 ∷ []

abbrev pub new : Metrics
new = record {
  total_commands = 0;
  error_commands = 0;
  total_connections = 0;
  active_connections = pos 0;
  evicted_keys = 0;
  rdb_saves = 0;
  aof_writes = 0;
  aof_rewrites = 0;
  total_net_input_bytes = 0;
  total_net_output_bytes = 0;
  expired_keys = 0;
  total_keys = pos 0;
  keyspace_hits = 0;
  keyspace_misses = 0;
  command_counts = [];
  total_latency_us = 0;
  latency_count = 0;
  latency_buckets = 0 ∷ 0 ∷ 0 ∷ 0 ∷ 0 ∷ 0 ∷ 0 ∷ 0 ∷ [];
}

-- fetch_add on an AtomicU64
abbrev pub fetch_add : ℕ → ℕ → ℕ
fetch_add n k = (n + k) % 2 ^ 64

unfoldable pub record_evicted : ℕ → Metrics → Metrics
record_evicted count m =
    if ltb 0 count then record m { evicted_keys = fetch_add m.evicted_keys count } else m

-- fetch_add on an AtomicI64, of a number between -1 and 1.
abbrev pub step : ℤ → ℤ → ℤ
step n d = if in_i64 (n +ℤ d) then n +ℤ d else if is_negative d then pos max_i64 else negsuc max_i64

abbrev pub count_of : Option ℕ → ℕ
count_of none = 0
count_of (some n) = n

unfoldable pub record_command_named : Bytes → Metrics → Metrics
record_command_named cmd_name m = record m {
  total_commands = fetch_add m.total_commands 1;
  command_counts =
      Dict.insert m.command_counts cmd_name
        (fetch_add (count_of (Dict.get m.command_counts cmd_name)) 1);
}

unfoldable pub record_command : Metrics → Metrics
record_command m = record m { total_commands = fetch_add m.total_commands 1 }

unfoldable pub record_error : Metrics → Metrics
record_error m = record m { error_commands = fetch_add m.error_commands 1 }

unfoldable pub record_connection_opened : Metrics → Metrics
record_connection_opened m = record m {
  total_connections = fetch_add m.total_connections 1;
  active_connections = step m.active_connections (pos 1);
}

unfoldable pub record_connection_closed : Metrics → Metrics
record_connection_closed m = record m { active_connections = step m.active_connections (negsuc 0) }

unfoldable pub record_rdb_save : Metrics → Metrics
record_rdb_save m = record m { rdb_saves = fetch_add m.rdb_saves 1 }

unfoldable pub record_aof_write : Metrics → Metrics
record_aof_write m = record m { aof_writes = fetch_add m.aof_writes 1 }

unfoldable pub record_aof_rewrite : Metrics → Metrics
record_aof_rewrite m = record m { aof_rewrites = fetch_add m.aof_rewrites 1 }

unfoldable pub record_net_input : ℕ → Metrics → Metrics
record_net_input bytes m = record m {
  total_net_input_bytes = fetch_add m.total_net_input_bytes bytes;
}

unfoldable pub record_net_output : ℕ → Metrics → Metrics
record_net_output bytes m = record m {
  total_net_output_bytes = fetch_add m.total_net_output_bytes bytes;
}

unfoldable pub record_expired_key : Metrics → Metrics
record_expired_key m = record m { expired_keys = fetch_add m.expired_keys 1 }

unfoldable pub set_total_keys : ℤ → Metrics → Metrics
set_total_keys count m = record m { total_keys = count }

unfoldable pub record_keyspace_hit : Metrics → Metrics
record_keyspace_hit m = record m { keyspace_hits = fetch_add m.keyspace_hits 1 }

unfoldable pub record_keyspace_miss : Metrics → Metrics
record_keyspace_miss m = record m { keyspace_misses = fetch_add m.keyspace_misses 1 }

-- The loop over the thresholds: the first that is not below the latency, and no other, counts it.
unfoldable pub count_latency : ℕ → List ℕ → List ℕ → List ℕ
count_latency us (threshold ∷ thresholds) (n ∷ buckets) =
    if leb us threshold then fetch_add n 1 ∷ buckets else n ∷ count_latency us thresholds buckets
count_latency us _ buckets = buckets

unfoldable pub record_latency : ℕ → Metrics → Metrics
unfolding count_latency
record_latency elapsed_us m = record m {
  total_latency_us = fetch_add m.total_latency_us elapsed_us;
  latency_count = fetch_add m.latency_count 1;
  latency_buckets = count_latency elapsed_us latency_buckets_us m.latency_buckets;
}

-- `Clone`: the commands' counts start afresh.
unfoldable pub clone : Metrics → Metrics
clone m = record m { command_counts = [] }
