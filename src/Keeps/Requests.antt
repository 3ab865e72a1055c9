-- ===== src/Keeps/Requests.antt =====
-- Requests as the server runs them: parsed by `Command::try_from`, then executed.
use fire_redis.Prelude.{
  none, some, List, [], ◌∷◌, Bytes, All, beq, to_ascii_uppercase, Bool-cases, inl, inr,
}
use fire_redis.Dict
use fire_redis.Dict.{Dict}
use fire_redis.Platform.{Platform}
use fire_redis.Metrics.{Metrics}
use fire_redis.Resp.{Value, simple_string, error, integer, bulk_string, array, null_array, null}
use fire_redis.Store.{Store, Instant}
use fire_redis.Commands.Types.{Command}
use fire_redis.Commands.Args.{Result, ok, err}
use fire_redis.Commands.Parse as P
use fire_redis.Commands.Parse.{Parser, try_from, parsers, run_parser}
use fire_redis.Commands.Execute.{execute}
use fire_redis.Keeps.Valid.{IsValid, execute-IsValid}
use fire_redis.Keeps.Parsers.{
  Yields, Safe, parse_echo-Safe, parse_key-Safe, parse_set-Safe, parse_keys_list-Safe,
  parse_expire-Safe, parse_mset-Safe, parse_append-Safe, parse_flushall-Safe, parse_key_bytes-Safe,
  parse_l_index-Safe, parse_range-Safe, parse_key_member-Safe, parse_key_field-Safe,
  parse_s_pop-Safe, parse_h_set-Safe, parse_h_del-Safe, parse_z_add-Safe, parse_z_count-Safe,
}

run-Yields :
    (d : Dict Parser) (cmd : Bytes) (name : Bytes) (args : List Value)
    → All (λ e. Safe e.1) d
    → Yields (run_parser (Dict.get d name) cmd args)
unfolding Dict.get
run-Yields [] cmd name args h = tt
run-Yields ((k, p) ∷ d) cmd name args h = elim (Bool-cases (beq k name)) [
  | inl same ↦ rw same (h.0 args)
  | inr other ↦ rw other (run-Yields d cmd name args h.1)
]

parsers-Safe : (fl : Platform) → All (λ e. Safe e.1) (parsers fl)
unfolding parsers P.parse_get
parsers-Safe fl = search (
  parse_echo-Safe, parse_key-Safe, parse_set-Safe, parse_keys_list-Safe, parse_expire-Safe,
  parse_mset-Safe, parse_append-Safe, parse_flushall-Safe, parse_key_bytes-Safe, parse_l_index-Safe,
  parse_range-Safe, parse_key_member-Safe, parse_key_field-Safe, parse_s_pop-Safe, parse_h_set-Safe,
  parse_h_del-Safe, parse_z_add-Safe, parse_z_count-Safe,
)

pub try_from-Yields : (fl : Platform) (args : List Value) → Yields (try_from fl args)
unfolding try_from
try_from-Yields fl [] = tt
try_from-Yields fl (bulk_string (some b) ∷ args) =
    run-Yields (parsers fl) (to_ascii_uppercase b) (to_ascii_uppercase b) _ (parsers-Safe fl)
try_from-Yields fl (bulk_string none ∷ args) = tt
try_from-Yields fl (simple_string _ ∷ args) = tt
try_from-Yields fl (error _ ∷ args) = tt
try_from-Yields fl (integer _ ∷ args) = tt
try_from-Yields fl (array _ ∷ args) = tt
try_from-Yields fl (null_array ∷ args) = tt
try_from-Yields fl (null ∷ args) = tt

-- A request that does not parse leaves the store.
abbrev pub handled : Platform → (Metrics → Bytes) → Instant → Result Command → Store → Store
handled fl info now (ok c) s = (execute fl info now c s).0
handled fl info now (err e) s = s

-- Requests in any order, each at its own time.
abbrev pub serve : Platform → (Metrics → Bytes) → List (Instant × List Value) → Store → Store
serve fl info [] s = s
serve fl info ((now, args) ∷ requests) s =
    serve fl info requests (handled fl info now (try_from fl args) s)

handled-IsValid :
    (fl : Platform) (info : Metrics → Bytes) (now : Instant) (r : Result Command) (s : Store)
    → Yields r
    → IsValid fl s
    → IsValid fl (handled fl info now r s)
handled-IsValid fl info now (ok c) s m h = execute-IsValid fl info now c s m h
handled-IsValid fl info now (err e) s m h = h

-- Any sequence of requests, parsed and executed one after the other at any times, leads from a valid
-- keyspace to a valid keyspace; the arguments of a request are any values.
pub serve-IsValid :
    (fl : Platform) (info : Metrics → Bytes) (requests : List (Instant × List Value)) (s : Store)
    → IsValid fl s
    → IsValid fl (serve fl info requests s)
serve-IsValid fl info [] s h = h
serve-IsValid fl info ((now, args) ∷ requests) s h =
    serve-IsValid fl info requests (handled fl info now (try_from fl args) s)
      (handled-IsValid fl info now (try_from fl args) s (try_from-Yields fl args) h)
