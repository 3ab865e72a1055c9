-- ===== src/Persistence/Aof/Replay.antt =====
-- The replay of an append-only file (src/persistence/aof.rs) against its commands.
use fire_redis.Prelude.{
  ℕ, zero, suc, ◌+◌, ◌≤◌, ◌<◌, ◌≡◌, refl, ap, ◌∙◌, List, [], ◌∷◌, ◌++◌, map, Bytes, is_empty,
  length, Outcome, returns, panics, arith, All, length-append, take, append_assoc, Bool-cases, inl,
  inr,
}
use fire_redis.Platform.{Platform}
use fire_redis.Metrics.{Metrics}
use fire_redis.Resp.{Value, Decoded, frame, need_more, failed, panicked, stuck, encode, decode}
use fire_redis.Resp.Wire.{normal, IsWire, length-encode_pos}
use fire_redis.Resp.RoundTrip.{not_empty, decode-encode, decode-take-encode}
use fire_redis.Resp.Bounds.{Advances, decode-Advances}
use fire_redis.Store.{Store, Instant}
use fire_redis.Persistence.Aof.{
  Replayed, done, crashed, exhausted, execute_command, replay_round, replay_loop, replay,
  encode_all, continue_replay,
}

-- The commands of a log, run one after the other; a panic ends the run.
unfoldable pub run_log :
    Platform → (Metrics → Bytes) → (ℕ → Instant) → ℕ → List Value → Store → Store × Replayed
run_log fl info clock count [] s = (s, done count)
run_log fl info clock count (v ∷ log) s =
    continue_replay (execute_command fl info (clock count) v s)
      (run_log fl info clock (count + 1) log)

continue_ext :
    (r : Store × Outcome (Unit {0})) (f g : Store → Store × Replayed)
    → ((t : Store) → f t ≡ g t)
    → continue_replay r f ≡ continue_replay r g
continue_ext (s, returns a) f g h = h s
continue_ext (s, panics) f g h = refl

module _ (fl : Platform) (info : Metrics → Bytes) (clock : ℕ → Instant) where
  -- Bytes in which no frame begins the rest of a log.
  abbrev Ends : Bytes → Type 0
  Ends tail = decode fl.most_values tail ≡ (need_more, tail)

  replay_tail :
      (f count : ℕ) (tail : Bytes) (s : Store)
      → Ends tail
      → replay_loop (suc f) fl info clock count tail s ≡ (s, done count)
  unfolding replay_loop replay_round
  replay_tail f count [] s h = refl
  replay_tail f count (b ∷ tail) s h = rw h refl

  replay_frame :
      (f count : ℕ) (v : Value) (rest : Bytes) (s : Store)
      → IsWire fl.most_values v
      → replay_loop (suc f) fl info clock count (encode v [] ++ rest) s
        ≡ continue_replay
            (execute_command fl info (clock count) (normal v) s)
            (replay_loop f fl info clock (count + 1) rest)
  unfolding replay_loop replay_round
  replay_frame f count v rest s w =
      rw (not_empty (encode v []) rest (length-encode_pos v))
        (rw (decode-encode fl.most_values v rest w) refl)

  replay_run :
      (f count : ℕ) (log : List Value) (tail : Bytes) (s : Store)
      → length log < f
      → All (IsWire fl.most_values) log
      → Ends tail
      → replay_loop f fl info clock count (encode_all log ++ tail) s
        ≡ run_log fl info clock count (map normal log) s
  unfolding encode_all run_log
  replay_run zero count log tail s h w e = absurd (omega arith)
  replay_run (suc f) count [] tail s h w e = replay_tail f count tail s e
  replay_run (suc f) count (v ∷ log) tail s h w e =
      ap (λ b. replay_loop (suc f) fl info clock count b s)
        (append_assoc (encode v []) (encode_all log) tail)
      ∙ replay_frame f count v (encode_all log ++ tail) s w.0
      ∙ continue_ext (execute_command fl info (clock count) (normal v) s) _ _
          (λ t. replay_run f (count + 1) log tail t (omega arith) w.1 e)

  length-encode_all : (log : List Value) → length log ≤ length (encode_all log)
  unfolding encode_all
  length-encode_all [] = omega arith
  length-encode_all (v ∷ log) = omega (
    arith,
    length-encode_all log,
    length-encode_pos v,
    length-append (encode v []) (encode_all log),
  )

  -- A log of commands, cut at any byte of a last one, replays as its whole commands do: run one
  -- after the other, each at its own instant, as the values that the protocol can carry read back.
  pub replay-encode_all :
      (log : List Value) (last : Value) (k : ℕ) (s : Store)
      → All (IsWire fl.most_values) log
      → IsWire fl.most_values last
      → k < length (encode last [])
      → replay fl info clock (encode_all log ++ take k (encode last [])) s
        ≡ run_log fl info clock 0 (map normal log) s
  unfolding replay
  replay-encode_all log last k s w l h =
      replay_run (suc (length (encode_all log ++ take k (encode last [])))) 0 log
        (take k (encode last [])) s
        (omega
          (arith, length-encode_all log, length-append (encode_all log) (take k (encode last []))))
        w (decode-take-encode fl.most_values last k l h)

  -- The replay did not run out of fuel.
  abbrev pub Finishes : Store × Replayed → Type 0
  Finishes (s, done n) = Unit
  Finishes (s, crashed) = Unit
  Finishes (s, exhausted) = ⊥

  continue-Finishes :
      (r : Store × Outcome (Unit {0})) (next : Store → Store × Replayed)
      → ((t : Store) → Finishes (next t))
      → Finishes (continue_replay r next)
  continue-Finishes (s, returns a) next h = h s
  continue-Finishes (s, panics) next h = tt

  round-Finishes :
      (now : Instant) (count : ℕ) (bytes : Bytes) (d : Decoded × Bytes)
      (next : Bytes → Store → Store × Replayed) (s : Store)
      → Advances bytes d
      → ((rest : Bytes) (t : Store) → length rest < length bytes → Finishes (next rest t))
      → Finishes (replay_round fl info now count d next s)
  unfolding replay_round
  round-Finishes now count bytes (frame v, rest) next s a h =
      continue-Finishes (execute_command fl info now v s) (next rest) (λ t. h rest t (omega arith))
  round-Finishes now count bytes (need_more, rest) next s a h = tt
  round-Finishes now count bytes (failed e, rest) next s a h = tt
  round-Finishes now count bytes (panicked, rest) next s a h = tt
  round-Finishes now count bytes (stuck, rest) next s a h = absurd a

  loop-Finishes :
      (f count : ℕ) (bytes : Bytes) (s : Store)
      → length bytes < f
      → Finishes (replay_loop f fl info clock count bytes s)
  unfolding replay_loop
  loop-Finishes zero count bytes s h = absurd (omega arith)
  loop-Finishes (suc f) count bytes s h = elim (Bool-cases (is_empty bytes)) [
    | inl e ↦ rw e tt
    | inr e ↦ rw e (
        round-Finishes (clock count) count bytes (decode fl.most_values bytes) _ s
          (decode-Advances fl.most_values bytes)
          (λ rest t k. loop-Finishes f (count + 1) rest t (omega arith)))
  ]

  -- The replay of any file ends: with a count of commands, or with a panic, of one of them or of the
  -- decoder.
  pub replay-Finishes : (bytes : Bytes) (s : Store) → Finishes (replay fl info clock bytes s)
  unfolding replay
  replay-Finishes bytes s = loop-Finishes (suc (length bytes)) 0 bytes s (omega arith)
