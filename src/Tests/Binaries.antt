-- ===== src/Tests/Binaries.antt =====
-- The theorems on src/bin at concrete commands and results.
use mathlib.Core.List.Perm
use fire_redis.Prelude.{
  ◌≡◌, refl, true, ◌+◌, ℕ, [], ◌∷◌, ◌++◌, map, codes, to_ascii_lowercase, returns, arith, length,
  ltb,
}
use fire_redis.Resp.{encode, decode, frame}
use fire_redis.Commands.Data.Replies.{bulk, bulk_array}
use fire_redis.Server as Srv
use fire_redis.Server.{received, send_response, serve_command}
use fire_redis.Binaries.Cli.{parse_args_to_resp}
use fire_redis.Binaries.Cli.Session.{serve-parse_args_to_resp}
use fire_redis.Binaries.Benchmark.{
  Args, default_args, Floats, Requests, s_add, bench_result, worker_results, total,
}
use fire_redis.Binaries.Benchmark as B
use fire_redis.Binaries.Benchmark.Prefill.{numbered, prefill, range_request}
use fire_redis.Binaries.Benchmark.Prefilled.{timed}
use fire_redis.Binaries.Benchmark.Ranges.{execute-range_request}
use fire_redis.Decimal.{to_string}
use fire_redis.Utf8.{is_utf8}
use fire_redis.Persistence.Aof.Parses.{is_utf8-to_string}
use fire_redis.Keeps.Requests.{serve}
use fire_redis.Commands.Types.{Command}
use fire_redis.Commands.Args.{ok}
use fire_redis.Commands.Parse.{try_from}
use fire_redis.Commands.Execute.{execute}
use fire_redis.Binaries.Benchmark.Totals.{bench_result-worker_results}
use fire_redis.Tests.{bits, no_info, key, counter}
use fire_redis.Tests.Running.{server}

serve-parse_args_to_resp_example :
    let request = parse_args_to_resp (codes "get" ∷ key ∷ []) in
    (decode bits.most_values (encode request [] ++ codes "*1") ≡ (frame request, codes "*1"))
    × (Srv.serve bits no_info (record { item = received request; now = 7; elapsed_us = 40 }) server
        ≡ send_response
            (serve_command bits no_info 7 40 (map bulk (codes "get" ∷ key ∷ [])) server))
serve-parse_args_to_resp_example =
    serve-parse_args_to_resp bits no_info 7 40 (codes "get") (key ∷ []) (codes "*1") server
      (omega arith) (omega arith) (omega arith, (omega arith, tt))

-- Seven requests of three clients; the first two of each succeed.
abbrev few : Args
few = record default_args { requests = 7; clients = 3 }

abbrev outcomes : ℕ → Requests
outcomes worker_id idx = (ltb idx 2, idx)

abbrev floats : Floats
floats = record { zero_ms = 0; quantile_index = λ p n. n; rate = λ done s. done; sort = λ xs. xs }

bench_result-worker_results_example :
    let parts = worker_results few outcomes in
    let result = bench_result floats s_add few 9 parts in
    (result.done + result.errors ≡ 7) × (length (total parts).latencies_ms ≡ 7)
bench_result-worker_results_example =
    bench_result-worker_results floats s_add few outcomes 9 (worker_results few outcomes)
      (Perm.refl (worker_results few outcomes))

-- Two keys, and a prefix that a server in use may hold keys under.
abbrev two_keys : Args
two_keys = record default_args { keyspace = 2; prefix = codes "b" }

two_keys_text : (j : ℕ) → is_utf8 (B.bench_key (codes "b") (B.l_range 3) j) ≡ true
unfolding is_utf8 B.bench_key B.key_tag to_ascii_lowercase to_string
two_keys_text j = is_utf8-to_string j

execute-range_request_example :
    let filled =
      serve bits no_info
        (timed (λ n. n) 0 (prefill (λ k v. []) (B.l_range 3) two_keys []))
        counter in
    (c : Command) × (try_from bits
        (map bulk (range_request (B.bench_key (codes "b") (B.l_range 3) 1) 3))
      ≡ ok c)
    × (execute bits no_info 500 c filled ≡ (filled, returns (bulk_array (numbered (codes "v") 3))))
execute-range_request_example =
    execute-range_request bits no_info (λ n. n) (λ k v. []) two_keys [] 2 1 500 counter
      two_keys_text (omega arith) (omega arith)

three_values : numbered (codes "v") 3 ≡ codes "v0" ∷ codes "v1" ∷ codes "v2" ∷ []
unfolding numbered to_string
three_values = refl
