-- ===== src/Binaries/Benchmark/Prefilled.antt =====
-- What a server (src/commands, src/store) holds behind the prefill of src/bin/redis_benchmark.rs.
use fire_redis.Prelude.{
  ℕ, ◌+◌, ◌≡◌, refl, sym, true, false, Option, none, some, List, [], ◌∷◌, ◌++◌, map, Bytes, codes,
  beq, beq_refl, append_assoc, append-nil, subst, to_ascii_uppercase,
}
use fire_redis.Dict
use fire_redis.Dict.Laws.{get-remove}
use fire_redis.Utf8.{is_utf8, from_utf8_lossy-valid}
use fire_redis.Platform.{Platform}
use fire_redis.Metrics.{Metrics}
use fire_redis.Resp.{Value}
use fire_redis.Store
use fire_redis.Store.{StoredValue, list, Store, Instant, type_of}
use fire_redis.Store.Lists.{r_push}
use fire_redis.Commands.Types.{Command}
use fire_redis.Commands.Args.{ok, bulk_to_string, collect}
use fire_redis.Commands.Parse.{try_from, parsers, parse_keys_list}
use fire_redis.Commands.Execute.{execute}
use fire_redis.Commands.Data.Replies.{Handled, bulk, typed, ensure_type}
use fire_redis.Commands.Data.Keys.{handle_del}
use fire_redis.Commands.Data.Lists.{push_all, handle_r_push}
use fire_redis.Persistence.Aof.Parses.{try_from-r_push}
use fire_redis.Persistence.Aof.Effects.{unchecked, push_first, push_next, typed-missing}
use fire_redis.Persistence.Entries.{Holds, SameAt-trans}
use fire_redis.Keeps.Requests.{handled, serve}
use fire_redis.Keeps.Frame.{SameAt, execute-SameAt}
use fire_redis.Binaries.Benchmark.Prefill.{numbered, fill, with_value}

-- The requests, the `i`th at the time that the clock gives it.
unfoldable pub timed : (ℕ → Instant) → ℕ → List (List Bytes) → List (Instant × List Value)
timed clock i [] = []
timed clock i (r ∷ rs) = (clock i, map bulk r) ∷ timed clock (i + 1) rs

-- A list that is empty is not stored.
abbrev pub stored : List Bytes → Option StoredValue
stored [] = none
stored (x ∷ xs) = some (list (x ∷ xs))

module _ (now : Instant) (key : Bytes) where
  pub typed_list :
      (f : Store → Handled) (xs : List Bytes) (s : Store)
      → Holds key (stored xs) s
      → typed (codes "list") now key f s ≡ f s
  unfolding typed ensure_type type_of beq
  typed_list f [] s h = typed-missing now key (codes "list") f s h
  typed_list f (x ∷ xs) s h = rw (unchecked now key s h.1) (rw (h.0) refl)

  r_push-Holds :
      (v : Bytes) (xs : List Bytes) (s : Store)
      → Holds key (stored xs) s
      → Holds key (stored (xs ++ v ∷ [])) (r_push now key v s).0
  r_push-Holds v [] s h = push_first now key v s h
  r_push-Holds v (x ∷ xs) s h = push_next now key v (x ∷ xs) s h

  handle_r_push-Holds :
      (v : Bytes) (xs : List Bytes) (s : Store)
      → Holds key (stored xs) s
      → Holds key (stored (xs ++ v ∷ [])) (handle_r_push now key (v ∷ []) s).0
  unfolding handle_r_push push_all
  handle_r_push-Holds v xs s h =
      subst (λ r. Holds key (stored (xs ++ v ∷ [])) r.0) (sym (typed_list _ xs s h))
        (r_push-Holds v xs s h)

module _ (fl : Platform) (info : Metrics → Bytes) (key : Bytes) (text : is_utf8 key ≡ true) where
  try_from-del : try_from fl (map bulk (codes "DEL" ∷ key ∷ [])) ≡ ok (Command.del (key ∷ []))
  unfolding try_from parsers Dict.get beq to_ascii_uppercase parse_keys_list collect bulk_to_string
  try_from-del = rw (from_utf8_lossy-valid key text)

  del-Holds :
      (now : Instant) (s : Store)
      → Holds key none (handled fl info now (try_from fl (map bulk (codes "DEL" ∷ key ∷ []))) s)
  unfolding execute handle_del Store.del Store.forget_all
  del-Holds now s =
      rw try_from-del
        (rw get-remove (rw (beq_refl key) refl), rw get-remove (rw (beq_refl key) refl))

  push-Holds :
      (now : Instant) (v : Bytes) (xs : List Bytes) (s : Store)
      → Holds key (stored xs) s
      → Holds key
          (stored (xs ++ v ∷ []))
          (handled fl info now (try_from fl (map bulk (with_value (codes "RPUSH") key v))) s)
  unfolding execute
  push-Holds now v xs s h =
      rw (try_from-r_push fl key text v []) (handle_r_push-Holds now key v xs s h)

  pushes-Holds :
      (clock : ℕ → Instant) (vs xs : List Bytes) (i : ℕ) (s : Store)
      → Holds key (stored xs) s
      → Holds key
          (stored (xs ++ vs))
          (serve fl info (timed clock i (map (with_value (codes "RPUSH") key) vs)) s)
  unfolding timed
  pushes-Holds clock [] xs i s h = rw (append-nil xs) h
  pushes-Holds clock (v ∷ vs) xs i s h =
      rw (sym (append_assoc xs (v ∷ []) vs))
        (pushes-Holds clock vs (xs ++ v ∷ []) (i + 1) _ (push-Holds (clock i) v xs s h))

  pub fill-Holds :
      (clock : ℕ → Instant) (count i : ℕ) (s : Store)
      → Holds key
          (stored (numbered (codes "v") count))
          (serve fl info (timed clock i (fill (codes "RPUSH") (codes "v") key count)) s)
  unfolding timed fill
  fill-Holds clock count i s =
      pushes-Holds clock (numbered (codes "v") count) [] (i + 1) _ (del-Holds (clock i) s)

  -- The commands for one key leave the others as they are.
  del-SameAt :
      (now : Instant) (s : Store) (j : Bytes)
      → beq key j ≡ false
      → SameAt j s (handled fl info now (try_from fl (map bulk (codes "DEL" ∷ key ∷ []))) s)
  del-SameAt now s j ne =
      rw try_from-del (execute-SameAt fl info now (Command.del (key ∷ [])) s j tt (λ w. w) (ne, tt))

  push-SameAt :
      (now : Instant) (v : Bytes) (s : Store) (j : Bytes)
      → beq key j ≡ false
      → SameAt j s
          (handled fl info now (try_from fl (map bulk (with_value (codes "RPUSH") key v))) s)
  push-SameAt now v s j ne =
      rw (try_from-r_push fl key text v [])
        (execute-SameAt fl info now (Command.r_push key (v ∷ [])) s j tt (λ w. w) (ne, tt))

  pushes-SameAt :
      (clock : ℕ → Instant) (vs : List Bytes) (i : ℕ) (s : Store) (j : Bytes)
      → beq key j ≡ false
      → SameAt j s (serve fl info (timed clock i (map (with_value (codes "RPUSH") key) vs)) s)
  unfolding timed
  pushes-SameAt clock [] i s j ne = (refl, refl)
  pushes-SameAt clock (v ∷ vs) i s j ne =
      let mid =
        handled fl info (clock i) (try_from fl (map bulk (with_value (codes "RPUSH") key v))) s in
      SameAt-trans j s mid
        (serve fl info (timed clock (i + 1) (map (with_value (codes "RPUSH") key) vs)) mid)
        (push-SameAt (clock i) v s j ne) (pushes-SameAt clock vs (i + 1) mid j ne)

  pub fill-SameAt :
      (clock : ℕ → Instant) (count i : ℕ) (s : Store) (j : Bytes)
      → beq key j ≡ false
      → SameAt j s (serve fl info (timed clock i (fill (codes "RPUSH") (codes "v") key count)) s)
  unfolding timed fill
  fill-SameAt clock count i s j ne =
      let vs = numbered (codes "v") count in
      let mid = handled fl info (clock i) (try_from fl (map bulk (codes "DEL" ∷ key ∷ []))) s in
      SameAt-trans j s mid
        (serve fl info (timed clock (i + 1) (map (with_value (codes "RPUSH") key) vs)) mid)
        (del-SameAt (clock i) s j ne) (pushes-SameAt clock vs (i + 1) mid j ne)
