-- ===== src/Binaries/Benchmark/Keyspace.antt =====
-- The keys of a test of src/bin/redis_benchmark.rs, all of them prefilled.
use fire_redis.Prelude.{
  ℕ, zero, suc, ◌+◌, ◌<◌, ◌≡◌, ◌≢◌, ◌∙◌, refl, sym, ap, true, false, some, List, [], ◌∷◌, ◌++◌, map,
  Bytes, codes, beq, length, arith, ◌==◌, drop, drop-append_self, Bool-cases, inl, inr, beq_iff,
  subst,
}
use fire_redis.Utf8.{is_utf8}
use fire_redis.Platform.{Platform}
use fire_redis.Metrics.{Metrics}
use fire_redis.Resp.{Value}
use fire_redis.Store.{Store, Instant}
use fire_redis.Commands.Parse.{try_from}
use fire_redis.Commands.Data.Replies.{bulk}
use fire_redis.Persistence.Entries.{Holds}
use fire_redis.Keeps.Requests.{handled, serve}
use fire_redis.Decimal.{to_string, parse_nat}
use fire_redis.Decimal.RoundTrip.{parse_nat-to_string}
use fire_redis.Binaries.Benchmark.{Op, key_tag, l_pop, l_range, bench_key}
use fire_redis.Binaries.Benchmark.Prefill.{numbered, fill, prefill_key, prefill_keys}
use fire_redis.Binaries.Benchmark.Prefilled.{timed, stored, fill-Holds, fill-SameAt}

-- Two numbers with the same key are the same.
bench_key-inj :
    (prefix : Bytes) (op : Op) (i j : ℕ) → bench_key prefix op i ≡ bench_key prefix op j → i ≡ j
unfolding bench_key
bench_key-inj prefix op i j e =
    let head : Bytes = prefix ++ codes ":" ++ (key_tag op ++ codes ":") in
    let digits : to_string i ≡ to_string j =
      sym (drop-append_self head (to_string i))
      ∙ ap (drop (length head)) e
      ∙ drop-append_self head (to_string j) in
    let parsed : some i ≡ some j =
      sym (parse_nat-to_string i) ∙ ap parse_nat digits ∙ parse_nat-to_string j in
    cc

bench_key-apart :
    (prefix : Bytes) (op : Op) (i j : ℕ)
    → i ≢ j
    → beq (bench_key prefix op i) (bench_key prefix op j) ≡ false
bench_key-apart prefix op i j ne =
    elim (Bool-cases (beq (bench_key prefix op i) (bench_key prefix op j))) [
      | inl e ↦ absurd (ne (bench_key-inj prefix op i j ((beq_iff _ _).0 e)))
      | inr e ↦ e
    ]

-- The tests whose keys are filled with a list, and the length of the list.
abbrev pub FillsList : Op → ℕ → Type 0
FillsList l_pop n = n ≡ 128
FillsList (l_range window) n = n ≡ window
FillsList _ n = ⊥

prefill_key-fill :
    (set_command : Bytes → Bytes → List Bytes) (op : Op) (value key : Bytes) (count : ℕ)
    → FillsList op count
    → prefill_key set_command op value key ≡ fill (codes "RPUSH") (codes "v") key count
unfolding prefill_key
prefill_key-fill set_command l_pop value key count h = rw h
prefill_key-fill set_command (l_range window) value key count h = rw h
prefill_key-fill set_command _ value key count h = absurd h

serve-append :
    (fl : Platform) (info : Metrics → Bytes) (rs qs : List (Instant × List Value)) (s : Store)
    → serve fl info (rs ++ qs) s ≡ serve fl info qs (serve fl info rs s)
serve-append fl info [] qs s = refl
serve-append fl info ((now, args) ∷ rs) qs s =
    serve-append fl info rs qs (handled fl info now (try_from fl args) s)

timed-append :
    (clock : ℕ → Instant) (rs qs : List (List Bytes)) (i : ℕ)
    → timed clock i (rs ++ qs) ≡ timed clock i rs ++ timed clock (i + length rs) qs
unfolding timed
timed-append clock [] qs i = ap (λ n. timed clock n qs) (omega arith)
timed-append clock (r ∷ rs) qs i =
    ap (λ t. (clock i, map bulk r) ∷ t)
      (timed-append clock rs qs (i + 1)
        ∙ ap (λ n. timed clock (i + 1) rs ++ timed clock n qs) (omega arith))

module _ (fl : Platform) (info : Metrics → Bytes) (clock : ℕ → Instant)
    (set_command : Bytes → Bytes → List Bytes) (op : Op) (prefix value : Bytes) (count : ℕ)
    (fills : FillsList op count) (text : (i : ℕ) → is_utf8 (bench_key prefix op i) ≡ true) where
  pub prefill_keys-Holds :
      (n i : ℕ) (s : Store)
      → i < n
      → Holds
          (bench_key prefix op i)
          (stored (numbered (codes "v") count))
          (serve fl info (timed clock 0 (prefill_keys set_command op prefix value n)) s)
  unfolding prefill_keys
  prefill_keys-Holds zero i s h = absurd (omega (arith, h))
  prefill_keys-Holds (suc n) i s h =
      let before = prefill_keys set_command op prefix value n in
      let last = fill (codes "RPUSH") (codes "v") (bench_key prefix op n) count in
      let mid = serve fl info (timed clock 0 before) s in
      rw
        (
          prefill_key-fill set_command op value (bench_key prefix op n) count fills,
          timed-append clock before last 0,
          serve-append fl info (timed clock 0 before) (timed clock (0 + length before) last) s,
        )
        (elim (Bool-cases (i == n)) [
          | inl e ↦
              let at_last : n ≡ i = ground (arith, e) in
              subst
                (λ k.
                  Holds (bench_key prefix op k) (stored (numbered (codes "v") count))
                    (serve fl info (timed clock (0 + length before) last) mid))
                at_last
                (fill-Holds fl info (bench_key prefix op n) (text n) clock count (0 + length before)
                  mid)
          | inr e ↦
              let other : n ≢ i = ground (arith, e) in
              let earlier : i < n = ground (arith, e, h) in
              let held = prefill_keys-Holds n i s earlier in
              let same =
                fill-SameAt fl info (bench_key prefix op n) (text n) clock count (0 + length before)
                  mid (bench_key prefix op i) (bench_key-apart prefix op n i other) in
              (same.0 ∙ held.0, same.1 ∙ held.1)
        ])
