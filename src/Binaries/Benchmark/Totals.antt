-- ===== src/Binaries/Benchmark/Totals.antt =====
-- Every request of a benchmark is given to one worker and counted once (src/bin/redis_benchmark.rs).
use native.Mathlib.Nat.{ℕ_set, div-add-mod, mod-lt, suc-mul}
use mathlib.Core.List.{Perm, Permᴰ}
use mathlib.Core.List.Permᴰ as PermD
use mathlib.Core.Logic.{∥∥₁_elim}
use fire_redis.Prelude.{
  ℕ, zero, suc, ◌+◌, ◌*◌, ◌/◌, ◌%◌, ◌≤◌, ◌<◌, ◌≡◌, refl, ap, ◌∙◌, false, List, [], ◌∷◌, ◌++◌, All,
  arith, length, length-append, ◌==◌, min,
}
use fire_redis.Platform.{Score}
use fire_redis.Binaries.Benchmark.{
  Args, Op, Floats, WorkerResult, Requests, max_one, shares, split_work, run_worker, run_workers,
  total, bench_result, worker_results,
}

abbrev pub sum : List ℕ → ℕ
sum [] = 0
sum (n ∷ ns) = n + sum ns

sum-shares :
    (base extra i n : ℕ) → sum (shares base extra i n) + min extra i ≡ n * base + min extra (i + n)
unfolding shares
sum-shares base extra i zero = ground arith
sum-shares base extra i (suc n) = ground (arith, sum-shares base extra (i + 1) n, suc-mul n base)

sum-split_work : (requests workers : ℕ) → 0 < workers → sum (split_work requests workers) ≡ requests
unfolding split_work
sum-split_work requests workers h = omega (
  arith,
  sum-shares (requests / workers) (requests % workers) 0 workers,
  div-add-mod requests workers,
  mod-lt requests h,
)

-- What a worker reports of so many requests.
abbrev Reports : ℕ → WorkerResult → Type 0
Reports n out = (out.done + out.errors ≡ n) × (length out.latencies_ms ≡ n)

run_worker-Reports : (r : Requests) (chunk : ℕ) → Reports chunk (run_worker r chunk)
unfolding run_worker
run_worker-Reports r zero = (refl, refl)
run_worker-Reports r (suc idx) =
    let (a, b) = run_worker-Reports r idx in
    (
      ground (arith, a),
      omega (arith, b, length-append (run_worker r idx).latencies_ms ((r idx).1 ∷ [])),
    )

run_workers-Reports :
    (rs : ℕ → Requests) (i : ℕ) (chunks : List ℕ)
    → Reports (sum chunks) (total (run_workers rs i chunks))
unfolding run_workers total
run_workers-Reports rs i [] = (refl, refl)
run_workers-Reports rs i (zero ∷ chunks) =
    let (a, b) = run_workers-Reports rs (i + 1) chunks in (omega (arith, a), omega (arith, b))
run_workers-Reports rs i (suc n ∷ chunks) =
    let (a, b) = run_worker-Reports (rs i) (suc n) in
    let (c, d) = run_workers-Reports rs (i + 1) chunks in
    let first = run_worker (rs i) (suc n) in
    let rest = total (run_workers rs (i + 1) chunks) in
    let busy : (suc n == 0) ≡ false = ground arith in
    rw busy
      (omega (arith, a, c), omega (arith, b, d, length-append first.latencies_ms rest.latencies_ms))

abbrev counted : WorkerResult → ℕ
counted out = out.done + out.errors

abbrev timed : WorkerResult → ℕ
timed out = length out.latencies_ms

-- The totals do not depend on the order in which the results come.
total-Permᴰ :
    {ps qs : List WorkerResult}
    → Permᴰ ps qs
    → (counted (total ps) ≡ counted (total qs)) × (timed (total ps) ≡ timed (total qs))
unfolding total
total-Permᴰ PermD.nil = (refl, refl)
total-Permᴰ (PermD.cons {a} {b} {l₁} {l₂} e p) =
    let (c, t) = total-Permᴰ p in
    (
      omega (arith, c, ap counted e),
      omega (
        arith,
        t,
        ap timed e,
        length-append a.latencies_ms (total l₁).latencies_ms,
        length-append b.latencies_ms (total l₂).latencies_ms,
      ),
    )
total-Permᴰ (PermD.swap {a} {b} {a'} {b'} {l} e f) = (
  omega (arith, ap counted e, ap counted f),
  omega (
    arith,
    ap timed e,
    ap timed f,
    length-append a.latencies_ms (b.latencies_ms ++ (total l).latencies_ms),
    length-append b.latencies_ms (total l).latencies_ms,
    length-append a'.latencies_ms (b'.latencies_ms ++ (total l).latencies_ms),
    length-append b'.latencies_ms (total l).latencies_ms,
  ),
)
total-Permᴰ (PermD.trans p q) =
    let (a, t) = total-Permᴰ p in let (b, u) = total-Permᴰ q in (a ∙ b, t ∙ u)

total-Perm :
    (ps qs : List WorkerResult)
    → Perm ps qs
    → (counted (total ps) ≡ counted (total qs)) × (timed (total ps) ≡ timed (total qs))
total-Perm ps qs p = (
  ∥∥₁_elim p (ℕ_set (counted (total ps)) (counted (total qs))) (λ d. (total-Permᴰ d).0),
  ∥∥₁_elim p (ℕ_set (timed (total ps)) (timed (total qs))) (λ d. (total-Permᴰ d).1),
)

workers-positive : (n : ℕ) → 0 < max_one n
workers-positive n = ground arith

-- Whatever comes of the requests of a test, and in whatever order the workers' results come in, every
-- request is counted once, as done or as an error, and has one latency. (Every worker gets its
-- connection.)
pub bench_result-worker_results :
    (fs : Floats) (op : Op) (args : Args) (rs : ℕ → Requests) (duration_s : Score)
    (parts : List WorkerResult)
    → Perm parts (worker_results args rs)
    → let result = bench_result fs op args duration_s parts in
      (result.done + result.errors ≡ args.requests)
      × (length (total parts).latencies_ms ≡ args.requests)
unfolding bench_result worker_results
bench_result-worker_results fs op args rs duration_s parts p =
    let shared : sum (split_work args.requests (max_one args.clients)) ≡ args.requests =
      sum-split_work args.requests (max_one args.clients) (workers-positive args.clients) in
    let (a, b) = total-Perm parts (worker_results args rs) p in
    let (c, d) = run_workers-Reports rs 0 (split_work args.requests (max_one args.clients)) in
    (a ∙ c ∙ shared, b ∙ d ∙ shared)

-- Every share is the quotient, or one more.
shares-fair :
    (base extra i n : ℕ)
    → All (λ share. (base ≤ share) × (share ≤ base + 1)) (shares base extra i n)
unfolding shares
shares-fair base extra i zero = tt
shares-fair base extra i (suc n) = ((ground arith, ground arith), shares-fair base extra (i + 1) n)

length-shares : (base extra i n : ℕ) → length (shares base extra i n) ≡ n
unfolding shares
length-shares base extra i zero = refl
length-shares base extra i (suc n) = ap suc (length-shares base extra (i + 1) n)

-- The requests are shared out in full over the workers, if there are any, and no two shares differ by
-- more than one.
pub split_work-fair :
    (requests workers : ℕ)
    → 0 < workers
    → (sum (split_work requests workers) ≡ requests)
      × (length (split_work requests workers) ≡ workers)
      × All
          (λ share. (requests / workers ≤ share) × (share ≤ requests / workers + 1))
          (split_work requests workers)
unfolding split_work
split_work-fair requests workers h = (
  sum-split_work requests workers h,
  length-shares (requests / workers) (requests % workers) 0 workers,
  shares-fair (requests / workers) (requests % workers) 0 workers,
)
