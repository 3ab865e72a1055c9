-- ===== src/Binaries/Benchmark/Ranges.antt =====
-- The requests of the LRANGE tests of src/bin/redis_benchmark.rs, on a server that was prefilled.
use fire_redis.Prelude.{
  ℕ, zero, suc, ◌<◌, ◌≤◌, ◌≡◌, ◌∙◌, refl, ap, true, List, [], ◌∷◌, ◌++◌, map, Bytes, codes, beq,
  length, length-append, arith, to_ascii_uppercase, pos, negsuc, ◌+ℤ◌, max_i64, returns, take,
}
use fire_redis.Dict
use fire_redis.Decimal.{to_string, i64_to_string}
use fire_redis.Decimal.RoundTrip.{parse_i64-i64_to_string}
use fire_redis.Utf8.{is_utf8, from_utf8_lossy-valid}
use fire_redis.Platform.{Platform}
use fire_redis.Metrics.{Metrics}
use fire_redis.Store.{Store, Instant}
use fire_redis.Store.Lists.{l_range, list_range}
use fire_redis.Store.Lists.Range.{list_range_between}
use fire_redis.Store.SortedSets.Whole.{take_all}
use fire_redis.Commands.Types.{Command}
use fire_redis.Commands.Args.{ok, bulk_to_string, bulk_to_i64}
use fire_redis.Commands.Parse.{try_from, parsers, parse_range}
use fire_redis.Commands.Execute.{execute}
use fire_redis.Commands.Data.Replies.{bulk, bulk_array, answer_outcome}
use fire_redis.Commands.Data.Lists.{handle_l_range}
use fire_redis.Persistence.Aof.Parses.{is_utf8-to_string}
use fire_redis.Persistence.Aof.Effects.{unchecked}
use fire_redis.Persistence.Entries.{Holds}
use fire_redis.Keeps.Requests.{serve}
use fire_redis.Binaries.Benchmark as B
use fire_redis.Binaries.Benchmark.{Args, bench_key, max_one}
use fire_redis.Binaries.Benchmark.Prefill.{numbered, prefill, range_request}
use fire_redis.Binaries.Benchmark.Prefilled.{timed, stored, typed_list}
use fire_redis.Binaries.Benchmark.Keyspace.{prefill_keys-Holds}

length-numbered : (letter : Bytes) (n : ℕ) → length (numbered letter n) ≡ n
unfolding numbered
length-numbered letter zero = refl
length-numbered letter (suc n) = omega (
  arith,
  length-append (numbered letter n) ((letter ++ to_string n) ∷ []),
  length-numbered letter n,
)

number_read : (n : ℕ) → n ≤ max_i64 → bulk_to_i64 (bulk (i64_to_string (pos n))) ≡ ok (pos n)
unfolding bulk_to_i64 i64_to_string
number_read n h =
    rw
      (from_utf8_lossy-valid (to_string n) (is_utf8-to_string n), parse_i64-i64_to_string (pos n) h)

minus_one : (w : ℕ) → (pos (suc w) +ℤ negsuc 0) ≡ pos w
unfolding ◌+ℤ◌
minus_one w = ground arith

module _ (fl : Platform) (info : Metrics → Bytes) (key : Bytes) where
  try_from-range_request :
      (w : ℕ)
      → is_utf8 key ≡ true
      → w ≤ max_i64
      → try_from fl (map bulk (range_request key (suc w)))
        ≡ ok (Command.l_range key (pos 0) (pos w))
  unfolding try_from parsers Dict.get beq to_ascii_uppercase parse_range bulk_to_string
      range_request
  try_from-range_request w text h =
      rw (from_utf8_lossy-valid key text, minus_one w, number_read 0 (omega arith), number_read w h)

  whole_range :
      (xs : List Bytes) (w : ℕ)
      → length xs ≡ suc w
      → suc w ≤ max_i64
      → list_range xs (pos 0) (pos w) ≡ returns xs
  whole_range xs w e h =
      list_range_between xs (pos 0) (pos w) 0 w refl refl (omega arith) (omega (arith, e))
        (omega (arith, e, h))
      ∙ ap (λ n. returns (take n xs)) (omega (arith, e))
      ∙ ap returns (take_all xs)

  l_range-Holds :
      (now : Instant) (x : Bytes) (xs : List Bytes) (w : ℕ) (s : Store)
      → Holds key (stored (x ∷ xs)) s
      → length (x ∷ xs) ≡ suc w
      → suc w ≤ max_i64
      → l_range now key (pos 0) (pos w) s ≡ (s, returns (x ∷ xs))
  unfolding l_range
  l_range-Holds now x xs w s h e fits =
      rw (unchecked now key s h.1) (rw (h.0) (ap (λ o. (s, o)) (whole_range (x ∷ xs) w e fits)))

  handle_l_range-Holds :
      (now : Instant) (xs : List Bytes) (w : ℕ) (s : Store)
      → Holds key (stored xs) s
      → length xs ≡ suc w
      → suc w ≤ max_i64
      → handle_l_range now key (pos 0) (pos w) s ≡ (s, returns (bulk_array xs))
  unfolding handle_l_range
  handle_l_range-Holds now [] w s h e fits = absurd (omega (arith, e))
  handle_l_range-Holds now (x ∷ xs) w s h e fits =
      typed_list now key _ (x ∷ xs) s h
      ∙ ap (answer_outcome bulk_array) (l_range-Holds now x xs w s h e fits)

-- After the prefill of a test of LRANGE, whatever the server held before and however long each command
-- took, the request of a worker to any key of the keyspace is read as a command, which changes nothing
-- and is answered with exactly as many values as the test is named after, v0, v1 and so on. Keys are
-- Rust strings, and the number of values is below 2^63.
pub execute-range_request :
    (fl : Platform) (info : Metrics → Bytes) (clock : ℕ → Instant)
    (set_command : Bytes → Bytes → List Bytes) (args : Args) (value : Bytes) (w i : ℕ)
    (now : Instant) (s : Store)
    → ((j : ℕ) → is_utf8 (bench_key args.prefix (B.l_range (suc w)) j) ≡ true)
    → suc w ≤ max_i64
    → i < max_one args.keyspace
    → let filled =
        serve fl info (timed clock 0 (prefill set_command (B.l_range (suc w)) args value)) s in
      (c : Command) × (try_from fl
          (map bulk (range_request (bench_key args.prefix (B.l_range (suc w)) i) (suc w)))
        ≡ ok c)
      × (execute fl info now c filled
          ≡ (filled, returns (bulk_array (numbered (codes "v") (suc w)))))
unfolding prefill execute
execute-range_request fl info clock set_command args value w i now s text fits h =
    let op = B.l_range (suc w) in
    let key = bench_key args.prefix op i in
    let values = numbered (codes "v") (suc w) in
    let filled = serve fl info (timed clock 0 (prefill set_command op args value)) s in
    let held : Holds key (stored values) filled =
      prefill_keys-Holds fl info clock set_command op args.prefix value (suc w) refl text
        (max_one args.keyspace) i s h in
    (
      Command.l_range key (pos 0) (pos w),
      try_from-range_request fl info key w (text i) (omega (arith, fits)),
      handle_l_range-Holds fl info key now values w filled held
          (length-numbered (codes "v") (suc w)) fits,
    )
