-- ===== src/Binaries/Benchmark.antt =====
-- src/bin/redis_benchmark.rs: the tests, how the requests are shared out, and the totals. The `redis`
-- crate sends the requests: whether each succeeds, and how long it takes, are parameters, and so is the
-- arithmetic on `f64`.
pub mod Totals
pub mod Names
pub mod Prefill
pub mod Prefilled
pub mod Keyspace
pub mod Ranges
use fire_redis.Prelude.{
  ℕ, zero, suc, ◌+◌, ◌-◌, ◌*◌, ◌/◌, ◌%◌, ◌^◌, Bool, true, false, Option, none, some, List, [], ◌∷◌,
  ◌++◌, map, Bytes, codes, beq, is_empty, if◌then◌else◌, length, leb, ltb, ◌==◌, to_ascii_lowercase,
  get_elem?, Outcome, returns, panics,
}
use fire_redis.Decimal.{to_string}
use fire_redis.Platform.{Score}
use fire_redis.Binaries.Text.{trim, split}

pub record Args : Type 0 where
  pub url : Bytes
  pub requests : ℕ
  pub clients : ℕ
  pub data_size : ℕ
  pub keyspace : ℕ
  pub tests : Bytes
  pub mset_size : ℕ
  pub prefix : Bytes
  pub csv : Bool
  pub clear : Bool

abbrev pub default_tests : Bytes
default_tests =
    codes
      "ping,set,get,incr,lpush,lpop,sadd,hset,spop,zadd,mset,lrange_100,lrange_300,lrange_500,lrange_600"

abbrev pub default_args : Args
default_args = record {
  url = codes "redis://127.0.0.1:6379/0";
  requests = 100000;
  clients = 50;
  data_size = 3;
  keyspace = 10000;
  tests = default_tests;
  mset_size = 10;
  prefix = codes "redis-bench";
  csv = false;
  clear = false;
}

pub data Op : Type 0 where
  ping set get incr l_push l_pop s_add h_set s_pop z_add m_set : Op
  l_range : ℕ → Op

-- The arms of the match of `Op::parse`.
abbrev pub ops : List (Bytes × Op)
ops =
    (codes "ping", ping)
    ∷ (codes "set", set)
    ∷ (codes "get", get)
    ∷ (codes "incr", incr)
    ∷ (codes "lpush", l_push)
    ∷ (codes "lpop", l_pop)
    ∷ (codes "sadd", s_add)
    ∷ (codes "hset", h_set)
    ∷ (codes "spop", s_pop)
    ∷ (codes "zadd", z_add)
    ∷ (codes "mset", m_set)
    ∷ (codes "lrange_100", l_range 100)
    ∷ (codes "lrange_300", l_range 300)
    ∷ (codes "lrange_500", l_range 500)
    ∷ (codes "lrange_600", l_range 600)
    ∷ []

unfoldable pub find_op : Bytes → List (Bytes × Op) → Option Op
find_op name [] = none
find_op name ((n, op) ∷ rest) = if beq n name then some op else find_op name rest

unfoldable pub parse : Bytes → Option Op
unfolding find_op
parse name = find_op name ops

unfoldable pub name : Op → Bytes
name ping = codes "PING"
name set = codes "SET"
name get = codes "GET"
name incr = codes "INCR"
name l_push = codes "LPUSH"
name l_pop = codes "LPOP"
name s_add = codes "SADD"
name h_set = codes "HSET"
name s_pop = codes "SPOP"
name z_add = codes "ZADD"
name m_set = codes "MSET"
name (l_range window) = codes "LRANGE_" ++ to_string window

-- The names are ASCII.
unfoldable pub key_tag : Op → Bytes
unfolding name
key_tag op = to_ascii_lowercase (name op)

abbrev pub max_one : ℕ → ℕ
max_one n = if leb n 1 then 1 else n

unfoldable pub repeated : ℕ → Bytes → Bytes
repeated zero s = []
repeated (suc n) s = s ++ repeated n s

unfoldable pub payload : ℕ → Bytes
unfolding repeated
payload size = repeated (max_one size) (codes "x")

-- The shares of the workers from the `i`th on.
unfoldable pub shares : ℕ → ℕ → ℕ → ℕ → List ℕ
shares base extra i zero = []
shares base extra i (suc n) = (if ltb i extra then base + 1 else base) ∷ shares base extra (i + 1) n

unfoldable pub split_work : ℕ → ℕ → List ℕ
unfolding shares
split_work total workers = shares (total / workers) (total % workers) 0 workers

-- What is done with numbers of type `f64`.
pub record Floats : Type 0 where
  pub zero_ms : Score
  -- `((p / 100.0) * (n as f64)).round() as usize`
  pub quantile_index : ℕ → ℕ → ℕ
  -- `(done as f64) / duration_s` where the duration is above 0, and 0 elsewhere
  pub rate : ℕ → Score → Score
  -- `latencies.sort_by(f64::total_cmp)`
  pub sort : List Score → List Score

abbrev pub get_or_panic : Option Score → Outcome Score
get_or_panic none = panics
get_or_panic (some x) = returns x

unfoldable pub quantile : Floats → List Score → ℕ → Outcome Score
quantile fs sorted p =
    if is_empty sorted
    then returns fs.zero_ms
    else let idx = fs.quantile_index p (length sorted - 1) in
      get_or_panic
        (get_elem? sorted (if leb idx (length sorted - 1) then idx else length sorted - 1))

unfoldable pub bench_key : Bytes → Op → ℕ → Bytes
unfolding key_tag
bench_key prefix op key_id = prefix ++ codes ":" ++ (key_tag op ++ codes ":") ++ to_string key_id

-- idx.wrapping_mul(1_103_515_245).wrapping_add(worker_id * 12_345) % keyspace
unfoldable pub key_id : ℕ → ℕ → ℕ → ℕ
key_id worker_id keyspace idx =
    (idx * 1103515245 % 2 ^ 64 + worker_id * 12345 % 2 ^ 64) % 2 ^ 64 % keyspace

-- The keys of one MSET.
unfoldable pub mset_keys : Bytes → ℕ → ℕ → ℕ → ℕ → List Bytes
unfolding bench_key
mset_keys prefix key keyspace j zero = []
mset_keys prefix key keyspace j (suc n) =
    bench_key prefix m_set ((key + j) % keyspace) ∷ mset_keys prefix key keyspace (j + 1) n

pub record WorkerResult : Type 0 where
  pub latencies_ms : List Score
  pub done : ℕ
  pub errors : ℕ

-- What the worker's requests come to: whether the `idx`th succeeds, and how long it takes.
abbrev pub Requests : Type 0
Requests = ℕ → Bool × Score

abbrev pub count_request : Bool × Score → WorkerResult → WorkerResult
count_request (ok, ms) out = record {
  latencies_ms = out.latencies_ms ++ ms ∷ [];
  done = if ok then out.done + 1 else out.done;
  errors = if ok then out.errors else out.errors + 1;
}

abbrev pub no_result : WorkerResult
no_result = record { latencies_ms = []; done = 0; errors = 0 }

-- The worker's loop over its first `chunk` requests.
unfoldable pub run_worker : Requests → ℕ → WorkerResult
run_worker r zero = no_result
run_worker r (suc idx) = count_request (r idx) (run_worker r idx)

-- The workers that have something to do, from the `i`th on; no thread is started for the others.
unfoldable pub run_workers : (ℕ → Requests) → ℕ → List ℕ → List WorkerResult
unfolding run_worker
run_workers rs i [] = []
run_workers rs i (chunk ∷ chunks) =
    let rest = run_workers rs (i + 1) chunks in
    if chunk == 0 then rest else run_worker (rs i) chunk ∷ rest

-- The loop over the results, in the order in which they come.
unfoldable pub total : List WorkerResult → WorkerResult
total [] = no_result
total (part ∷ parts) =
    let rest = total parts in
    record {
      latencies_ms = part.latencies_ms ++ rest.latencies_ms;
      done = part.done + rest.done;
      errors = part.errors + rest.errors;
    }

pub record BenchResult : Type 0 where
  pub op : Bytes
  pub requests : ℕ
  pub clients : ℕ
  pub done : ℕ
  pub errors : ℕ
  pub duration_s : Score
  pub rps : Score
  pub p50_ms : Outcome Score
  pub p95_ms : Outcome Score
  pub p99_ms : Outcome Score

-- The end of `run_op`, on the results of the workers.
unfoldable pub bench_result : Floats → Op → Args → Score → List WorkerResult → BenchResult
unfolding total name quantile
bench_result fs op args duration_s parts =
    let all = total parts in
    let latencies = fs.sort all.latencies_ms in
    record {
      op = name op;
      requests = args.requests;
      clients = max_one args.clients;
      done = all.done;
      errors = all.errors;
      duration_s = duration_s;
      rps = fs.rate all.done duration_s;
      p50_ms = quantile fs latencies 50;
      p95_ms = quantile fs latencies 95;
      p99_ms = quantile fs latencies 99;
    }

-- The results that the workers of `run_op` send.
unfoldable pub worker_results : Args → (ℕ → Requests) → List WorkerResult
unfolding run_workers split_work
worker_results args rs = run_workers rs 0 (split_work args.requests (max_one args.clients))

pub data Parsed : Type 0 where
  ok : List Op → Parsed
  err : Bytes → Parsed

abbrev pub push_op : Bytes → Option Op → Parsed → Parsed
push_op name none rest = err (codes "unsupported test: " ++ name)
push_op name (some op) (ok ops) = ok (op ∷ ops)
push_op name (some op) (err e) = err e

-- The loop over the names: the first that is not known ends it. `lower` is `str::to_lowercase`.
unfoldable pub parse_names : (Bytes → Bytes) → List Bytes → Parsed
unfolding parse trim
parse_names lower [] = ok []
parse_names lower (raw ∷ raws) =
    let name = lower (trim raw) in
    let rest = parse_names lower raws in
    if is_empty name then rest else push_op name (parse name) rest

abbrev pub not_empty : Parsed → Parsed
not_empty (ok []) = err (codes "no tests selected")
not_empty r = r

unfoldable pub parse_tests : (Bytes → Bytes) → Bytes → Parsed
unfolding parse_names split
parse_tests lower input = not_empty (parse_names lower (split b',' input))
