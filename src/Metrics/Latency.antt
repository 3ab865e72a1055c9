-- ===== src/Metrics/Latency.antt =====
-- The latency histogram of src/metrics.rs.
use fire_redis.Prelude.{
  ℕ, ◌+◌, ◌≤◌, ◌<◌, ◌≡◌, refl, List, [], ◌∷◌, leb, if◌then◌else◌, arith, length, ◌∙◌, ap, max_u64,
}
use fire_redis.Metrics.{Metrics, count_latency, record_latency, latency_buckets_us}

abbrev pub sum : List ℕ → ℕ
sum [] = 0
sum (n ∷ ns) = n + sum ns

-- The histogram has a bucket for each threshold, and its buckets count no more than there were latencies.
abbrev pub IsCounted : Metrics → Type 0
IsCounted m =
    (length m.latency_buckets ≡ length latency_buckets_us)
    × (sum m.latency_buckets ≤ m.latency_count)

-- The latencies above the last threshold are in no bucket.
abbrev within : List ℕ → ℕ → ℕ
within [] us = 0
within (t ∷ ts) us = if leb us t then 1 else within ts us

length-count_latency : (us : ℕ) (ts ns : List ℕ) → length (count_latency us ts ns) ≡ length ns
unfolding count_latency
length-count_latency us [] ns = refl
length-count_latency us (t ∷ ts) [] = refl
length-count_latency us (t ∷ ts) (n ∷ ns) = ground (arith, length-count_latency us ts ns)

sum-count_latency :
    (us : ℕ) (ts ns : List ℕ)
    → length ns ≡ length ts
    → sum ns < max_u64
    → sum (count_latency us ts ns) ≡ sum ns + within ts us
unfolding count_latency
sum-count_latency us [] ns h b = omega arith
sum-count_latency us (t ∷ ts) [] h b = absurd (omega arith)
sum-count_latency us (t ∷ ts) (n ∷ ns) h b =
    ground (arith, sum-count_latency us ts ns (omega arith) (omega arith))

within-thresholds : (us : ℕ) → within latency_buckets_us us ≡ (if leb us 50000 then 1 else 0)
within-thresholds us = ground arith

-- Recording a latency adds one to the number of latencies, and one to one bucket in all, or to none
-- where the latency is above 50 ms; so the buckets never count more than there were latencies.
-- (Below 2^64 - 1 latencies were recorded before.)
pub record_latency-IsCounted :
    (us : ℕ) (m : Metrics)
    → IsCounted m
    → m.latency_count < max_u64
    → IsCounted (record_latency us m)
      × (sum (record_latency us m).latency_buckets
          ≡ sum m.latency_buckets + (if leb us 50000 then 1 else 0))
      × ((record_latency us m).latency_count ≡ m.latency_count + 1)
unfolding record_latency
record_latency-IsCounted us m (l, h) b =
    let e = sum-count_latency us latency_buckets_us m.latency_buckets l (omega arith) in
    let w = within-thresholds us in
    let one : (if leb us 50000 then 1 else 0) ≤ 1 = ground arith in
    let total : sum (count_latency us latency_buckets_us m.latency_buckets)
        ≡ sum m.latency_buckets + (if leb us 50000 then 1 else 0) =
      e ∙ ap (λ k. sum m.latency_buckets + k) w in
    (
      (length-count_latency us latency_buckets_us m.latency_buckets ∙ l, omega arith),
      total,
      omega arith,
    )
