-- ===== src/Binaries/Benchmark/Prefill.antt =====
-- src/bin/redis_benchmark.rs: `prefill`, as the commands that it sends, each with its arguments.
use fire_redis.Prelude.{ℕ, zero, suc, List, [], ◌∷◌, ◌++◌, map, Bytes, codes, pos, negsuc, ◌+ℤ◌}
use fire_redis.Decimal.{to_string, i64_to_string}
use fire_redis.Binaries.Benchmark.{Args, Op, get, l_pop, s_pop, l_range, bench_key, max_one}

-- `format!("v{n}")`, or with another letter, for n in 0..count.
unfoldable pub numbered : Bytes → ℕ → List Bytes
numbered letter zero = []
numbered letter (suc n) = numbered letter n ++ (letter ++ to_string n) ∷ []

abbrev pub with_value : Bytes → Bytes → Bytes → List Bytes
with_value cmd key value = cmd ∷ key ∷ value ∷ []

-- The pipeline for one key: DEL, and a command for each value.
unfoldable pub fill : Bytes → Bytes → Bytes → ℕ → List (List Bytes)
unfolding numbered
fill cmd letter key count =
    (codes "DEL" ∷ key ∷ []) ∷ map (with_value cmd key) (numbered letter count)

-- `set_command` is what the `redis` crate sends for `conn.set(key, value)`.
unfoldable pub prefill_key : (Bytes → Bytes → List Bytes) → Op → Bytes → Bytes → List (List Bytes)
unfolding fill
prefill_key set_command get value key = set_command key value ∷ []
prefill_key set_command l_pop value key = fill (codes "RPUSH") (codes "v") key 128
prefill_key set_command s_pop value key = fill (codes "SADD") (codes "m") key 128
prefill_key set_command (l_range window) value key = fill (codes "RPUSH") (codes "v") key window
prefill_key set_command _ value key = []

-- The loops over i in 0..keyspace.
unfoldable pub prefill_keys :
    (Bytes → Bytes → List Bytes) → Op → Bytes → Bytes → ℕ → List (List Bytes)
unfolding prefill_key bench_key
prefill_keys set_command op prefix value zero = []
prefill_keys set_command op prefix value (suc i) =
    prefill_keys set_command op prefix value i
    ++ prefill_key set_command op value (bench_key prefix op i)

unfoldable pub prefill : (Bytes → Bytes → List Bytes) → Op → Args → Bytes → List (List Bytes)
unfolding prefill_keys
prefill set_command op args value =
    prefill_keys set_command op args.prefix value (max_one args.keyspace)

-- The request of a worker in a test of LRANGE.
unfoldable pub range_request : Bytes → ℕ → List Bytes
range_request key window =
    codes "LRANGE" ∷ key ∷ i64_to_string (pos 0) ∷ i64_to_string (pos window +ℤ negsuc 0) ∷ []
