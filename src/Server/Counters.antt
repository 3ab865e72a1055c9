-- ===== src/Server/Counters.antt =====
-- The number of open connections under everything that a server does (src/metrics.rs, src/server.rs).
use fire_redis.Prelude.{
  ◌≡◌, ◌∙◌, refl, none, some, ℤ, List, [], ◌∷◌, Bytes, All, ℕ, Bool-cases, inl, inr, ltb,
}
use fire_redis.Platform.{Platform}
use fire_redis.Metrics.{
  Metrics, record_command_named, record_latency, record_net_output, record_error,
  record_keyspace_hit, record_keyspace_miss, record_evicted,
}
use fire_redis.Resp.{
  Value, nil, cons, simple_string, error, integer, bulk_string, array, null_array, null,
}
use fire_redis.Store
use fire_redis.Store.{Store, Instant, forget}
use fire_redis.Keeps.{Closed}
use fire_redis.Keeps.Frame.{Anything, Anything-Admits}
use fire_redis.Keeps.Named.{keys_of}
use fire_redis.Keeps.Commands.{execute_keeps}
use fire_redis.Server.{record_response, track_keyspace_metrics}
use fire_redis.Server.Survives.{Survives}

-- The connections that are counted as open.
abbrev pub Counts : ℤ → Store → Type 0
Counts n s = s.metrics.active_connections ≡ n

response-active :
    (us : ℕ) (v : Value) (m : Metrics)
    → (record_response us v m).active_connections ≡ m.active_connections
unfolding record_response track_keyspace_metrics record_keyspace_hit record_keyspace_miss
    record_latency record_net_output record_error
response-active us (simple_string b) m = refl
response-active us (error b) m = refl
response-active us (integer i) m = refl
response-active us (bulk_string none) m = refl
response-active us (bulk_string (some b)) m = refl
response-active us (array nil) m = refl
response-active us (array (cons v vs)) m = refl
response-active us null_array m = refl
response-active us null m = refl

Counts-Closed : (n : ℤ) (k : Bytes) → Closed Anything (Counts n) k
Counts-Closed n k = record {
  on_forget = λ s h. h;
  on_write = λ s v q h. h;
  on_deadline = λ s t q h. h;
  on_clear = λ s h. h;
  on_read = λ s v e h. tt;
}

All-Counts : (n : ℤ) (ks : List Bytes) → All (Closed Anything (Counts n)) ks
All-Counts n [] = tt
All-Counts n (k ∷ ks) = (Counts-Closed n k, All-Counts n ks)

forget_all-Counts :
    (n : ℤ) (ks : List Bytes) (s : Store) → Counts n s → Counts n (Store.forget_all ks s).0
unfolding Store.forget_all
forget_all-Counts n [] s h = h
forget_all-Counts n (k ∷ ks) s h = forget_all-Counts n ks (forget k s) h

evicted-active :
    (count : ℕ) (m : Metrics) → (record_evicted count m).active_connections ≡ m.active_connections
unfolding record_evicted
evicted-active count m = elim (Bool-cases (ltb 0 count)) [
  | inl some_gone ↦ rw some_gone refl
  | inr none_gone ↦ rw none_gone refl
]

pub evict-Counts :
    (n : ℤ) (now : Instant) (s : Store) → Counts n s → Counts n (Store.evict_expired now s).0
unfolding Store.evict_expired
evict-Counts n now s h =
    let (t, count) = Store.forget_all (Store.due_keys now s.expirations) s in
    evicted-active count t.metrics ∙ forget_all-Counts n (Store.due_keys now s.expirations) s h

keys-Counts : (n : ℤ) (now : Instant) (s : Store) → Counts n s → Counts n (Store.keys now s).0
unfolding Store.keys
keys-Counts n now s h = evict-Counts n now s h

flush-Counts : (n : ℤ) (s : Store) → Counts n s → Counts n (Store.flush_all s)
unfolding Store.flush_all
flush-Counts n s h = h

-- No request changes the number of open connections.
pub Counts-Survives : (fl : Platform) (info : Metrics → Bytes) (n : ℤ) → Survives fl info (Counts n)
unfolding record_command_named
Counts-Survives fl info n = record {
  on_command = λ name s h. h;
  on_response = λ us v s h. response-active us v s.metrics ∙ h;
  on_execute = λ now c s m h.
      execute_keeps (Counts n) (Anything-Admits fl) info now c s m (All-Counts n (keys_of c))
        (λ w. (flush-Counts n s h, keys-Counts n now s h)) h;
}
