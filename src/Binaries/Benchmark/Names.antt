-- ===== src/Binaries/Benchmark/Names.antt =====
-- The names of the tests, the keys and the quantiles of the benchmark (src/bin/redis_benchmark.rs).
use fire_redis.Prelude.{
  ℕ, zero, suc, ◌-◌, if◌then◌else◌, leb, length, get_elem?, returns, ◌≡◌, ◌<◌, refl, some, List, [],
  ◌∷◌, arith, beq, to_ascii_lowercase, map,
}
use native.Mathlib.Nat.{mod-lt}
use fire_redis.Decimal.{to_string}
use fire_redis.Platform.{Score}
use fire_redis.Binaries.Benchmark.{
  Floats, quantile, ops, ok, parse, key_tag, key_id, parse_tests, default_tests,
}

-- The tag in the keys of a test is the name that selects it.
parse-key_tag : map (λ e. parse (key_tag e.1)) ops ≡ map (λ e. some e.1) ops
unfolding parse key_tag beq to_ascii_lowercase to_string
parse-key_tag = refl

-- The tests that run when none are chosen.
parse_tests-default : parse_tests to_ascii_lowercase default_tests ≡ ok (map (λ e. e.1) ops)
unfolding parse_tests beq to_ascii_lowercase
parse_tests-default = refl

-- Every request goes to a key of the keyspace.
key_id-lt : (worker_id keyspace idx : ℕ) → 0 < keyspace → key_id worker_id keyspace idx < keyspace
unfolding key_id
key_id-lt worker_id keyspace idx h = mod-lt _ h

get_elem?-within :
    (xs : List Score) (i : ℕ) → i < length xs → (x : Score) × (get_elem? xs i ≡ some x)
get_elem?-within [] i h = absurd (omega (arith, h))
get_elem?-within (x ∷ xs) zero h = (x, refl)
get_elem?-within (x ∷ xs) (suc i) h = get_elem?-within xs i (omega (arith, h))

-- A quantile never reaches outside the latencies, whatever index the arithmetic gives.
quantile-returns :
    (fs : Floats) (sorted : List Score) (p : ℕ) → (x : Score) × (quantile fs sorted p ≡ returns x)
unfolding quantile
quantile-returns fs [] p = (fs.zero_ms, refl)
quantile-returns fs (x ∷ xs) p =
    let idx = fs.quantile_index p (length (x ∷ xs) - 1) in
    let at = if leb idx (length (x ∷ xs) - 1) then idx else length (x ∷ xs) - 1 in
    let (y, e) = get_elem?-within (x ∷ xs) at (ground arith) in (y, rw e refl)
