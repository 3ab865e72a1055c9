-- ===== src/Persistence/Aof/Valid.antt =====
-- The replay of src/persistence/aof.rs and the invariant of the keyspace.
use fire_redis.Prelude.{
  ℕ, zero, suc, ◌+◌, Bytes, Bool-cases, inl, inr, Outcome, returns, panics, is_empty, length,
}
use fire_redis.Platform.{Platform}
use fire_redis.Metrics.{Metrics}
use fire_redis.Resp.{
  Value, simple_string, error, integer, bulk_string, array, null_array, null, list_of, Decoded,
  frame, need_more, failed, panicked, stuck, decode,
}
use fire_redis.Store.{Store, Instant}
use fire_redis.Commands.Args.{Result, ok, err}
use fire_redis.Commands.Types.{Command}
use fire_redis.Commands.Parse.{try_from}
use fire_redis.Commands.Execute.{execute}
use fire_redis.Keeps.Parsers.{Yields}
use fire_redis.Keeps.Requests.{try_from-Yields}
use fire_redis.Keeps.Valid.{IsValid, execute-IsValid}
use fire_redis.Persistence.Aof.{
  Replayed, run_parsed, settle, execute_command, continue_replay, replay_round, replay_loop, replay,
}

module _ (fl : Platform) (info : Metrics → Bytes) where
  settle_keeps : (r : Store × Outcome Value) → IsValid fl r.0 → IsValid fl (settle r).0
  settle_keeps (s, returns v) h = h
  settle_keeps (s, panics) h = h

  run_keeps :
      (now : Instant) (r : Result Command) (s : Store)
      → Yields r
      → IsValid fl s
      → IsValid fl (run_parsed fl info now r s).0
  run_keeps now (ok c) s y h =
      settle_keeps (execute fl info now c s) (execute-IsValid fl info now c s y h)
  run_keeps now (err e) s y h = h

  pub execute_command-IsValid :
      (now : Instant) (v : Value) (s : Store)
      → IsValid fl s
      → IsValid fl (execute_command fl info now v s).0
  unfolding execute_command
  execute_command-IsValid now (array args) s h =
      run_keeps now (try_from fl (list_of args)) s (try_from-Yields fl (list_of args)) h
  execute_command-IsValid now (simple_string b) s h = h
  execute_command-IsValid now (error b) s h = h
  execute_command-IsValid now (integer i) s h = h
  execute_command-IsValid now (bulk_string b) s h = h
  execute_command-IsValid now null_array s h = h
  execute_command-IsValid now null s h = h

  continue_keeps :
      (r : Store × Outcome (Unit {0})) (next : Store → Store × Replayed)
      → IsValid fl r.0
      → ((t : Store) → IsValid fl t → IsValid fl (next t).0)
      → IsValid fl (continue_replay r next).0
  continue_keeps (s, returns a) next h k = k s h
  continue_keeps (s, panics) next h k = h

  round_keeps :
      (now : Instant) (count : ℕ) (d : Decoded × Bytes) (next : Bytes → Store → Store × Replayed)
      (s : Store)
      → IsValid fl s
      → ((rest : Bytes) (t : Store) → IsValid fl t → IsValid fl (next rest t).0)
      → IsValid fl (replay_round fl info now count d next s).0
  unfolding replay_round
  round_keeps now count (frame v, rest) next s h k =
      continue_keeps (execute_command fl info now v s) (next rest)
        (execute_command-IsValid now v s h) (k rest)
  round_keeps now count (need_more, rest) next s h k = h
  round_keeps now count (failed e, rest) next s h k = h
  round_keeps now count (panicked, rest) next s h k = h
  round_keeps now count (stuck, rest) next s h k = h

  loop_keeps :
      (f : ℕ) (clock : ℕ → Instant) (count : ℕ) (bytes : Bytes) (s : Store)
      → IsValid fl s
      → IsValid fl (replay_loop f fl info clock count bytes s).0
  unfolding replay_loop
  loop_keeps zero clock count bytes s h = h
  loop_keeps (suc f) clock count bytes s h = elim (Bool-cases (is_empty bytes)) [
    | inl e ↦ rw e h
    | inr e ↦ rw e (
        round_keeps (clock count) count (decode fl.most_values bytes) _ s h
          (λ rest t k. loop_keeps f clock (count + 1) rest t k))
  ]

  -- Whatever bytes the file holds, its replay leads from a valid keyspace to a valid keyspace, also
  -- where it ends early.
  pub replay-IsValid :
      (clock : ℕ → Instant) (bytes : Bytes) (s : Store)
      → IsValid fl s
      → IsValid fl (replay fl info clock bytes s).0
  unfolding replay
  replay-IsValid clock bytes s h = loop_keeps (suc (length bytes)) clock 0 bytes s h
