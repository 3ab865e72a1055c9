-- ===== src/Server/System/Counts.antt =====
-- The count of open connections under all tasks of the server at once (src/server.rs).
use fire_redis.Prelude.{
  ℕ, suc, ◌+◌, ◌≤◌, ◌≡◌, sym, ap, ◌∙◌, true, List, [], ◌∷◌, ◌++◌, Bytes, if◌then◌else◌, ℤ, pos,
  ◌+ℤ◌, max_i64, arith, length, length-append,
}
use fire_redis.Platform.{Platform}
use fire_redis.Metrics.{
  Metrics, record_connection_opened, record_connection_closed, record_rdb_save, set_total_keys,
}
use fire_redis.Store.{Store}
use fire_redis.Server.System.Saves.{SurvivesSave, autosave_keeps, shutdown_keeps}
use fire_redis.Server.{Event, evict, update_metrics, count_in}
use fire_redis.Server.Survives.{serve_keeps}
use fire_redis.Server.Counters.{Counts, Counts-Survives, evict-Counts}
use fire_redis.Server.System.{
  Connection, System, Step, accepts, serves, closes, evicts, samples, writes, flushes, saves, stops,
  shuts_down, Run, here, more, accept, take_turn, close, write_next, with_manager,
}

-- The connections whose task has not come to its end.
unfoldable pub open_count : List Connection → ℕ
open_count [] = 0
open_count (c ∷ cs) = (if c.closed then 0 else 1) + open_count cs

open_count-append : (a b : List Connection) → open_count (a ++ b) ≡ open_count a + open_count b
unfolding open_count
open_count-append [] b = omega arith
open_count-append (c ∷ a) b = omega (arith, open_count-append a b)

open_count-length : (cs : List Connection) → open_count cs ≤ length cs
unfolding open_count
open_count-length [] = omega arith
open_count-length (c ∷ cs) = ground (arith, open_count-length cs)

open_count-middle :
    (before : List Connection) (c : Connection) (after : List Connection)
    → open_count (before ++ c ∷ after)
      ≡ open_count before + ((if c.closed then 0 else 1) + open_count after)
unfolding open_count
open_count-middle before c after = open_count-append before (c ∷ after)

length-middle :
    (before : List Connection) (c d : Connection) (after : List Connection)
    → length (before ++ c ∷ after) ≡ length (before ++ d ∷ after)
length-middle before c d after =
    omega (arith, length-append before (c ∷ after), length-append before (d ∷ after))

opened :
    (n : ℕ) (s : Store)
    → 1 + n ≤ max_i64
    → Counts (pos n) s
    → Counts (pos (1 + n)) (count_in record_connection_opened s)
unfolding record_connection_opened ◌+ℤ◌
opened n s h e = rw e (ground arith)

closed_one :
    (n : ℕ) (s : Store)
    → n ≤ max_i64
    → Counts (pos (suc n)) s
    → Counts (pos n) (count_in record_connection_closed s)
unfolding record_connection_closed ◌+ℤ◌
closed_one n s h e = rw e (ground arith)

-- The count is the number of open connections.
abbrev pub IsCounted : System → Type 0
IsCounted sys = Counts (pos (open_count sys.connections)) sys.server.store

module _ (fl : Platform) (info : Metrics → Bytes) where
  saved : (n : ℤ) → SurvivesSave (Counts n)
  unfolding record_rdb_save
  saved n = record { on_evict = λ now s h. evict-Counts n now s h; on_save = λ s h. h }

  Step-IsCounted :
      {sys next : System} {es : List Event}
      → Step fl info sys es next
      → length next.connections ≤ max_i64
      → IsCounted sys
      → IsCounted next
  unfolding accept take_turn close evict update_metrics write_next with_manager set_total_keys
      open_count
  Step-IsCounted {sys} (accepts _) n h =
      opened (open_count sys.connections) sys.server.store
        (omega (arith, n, open_count-length sys.connections)) h
  Step-IsCounted {sys} (serves before c after e p _ _) n h =
      let same : open_count sys.connections ≡ open_count (before ++ _ ∷ after) =
        ap open_count p
        ∙ open_count-middle before c after
        ∙ sym (open_count-middle before _ after) in
      serve_keeps (Counts-Survives fl info _) e sys.server (h ∙ ap pos same)
  Step-IsCounted {sys} (closes before c after p _ o) n h =
      let more : open_count sys.connections
          ≡ suc (open_count (before ++ record c { closed = true } ∷ after)) =
        ap open_count p
        ∙ open_count-middle before c after
        ∙ rw o (omega (arith, open_count-middle before (record c { closed = true }) after)) in
      closed_one _ sys.server.store
        (omega (arith, n, open_count-length (before ++ record c { closed = true } ∷ after)))
        (h ∙ ap pos more)
  Step-IsCounted {sys} (evicts now) n h = evict-Counts _ now sys.server.store h
  Step-IsCounted {sys} samples n h = h
  Step-IsCounted (writes c m _ _) n h = h
  Step-IsCounted (flushes m _) n h = h
  Step-IsCounted {sys} (saves t j m _ _) n h = autosave_keeps (saved _) fl t _ sys.server.store h
  Step-IsCounted (stops _) n h = h
  Step-IsCounted {sys} (shuts_down t j m _ _ _) n h =
      shutdown_keeps (saved _) fl t _ sys.server.store h

  -- No step forgets a connection.
  length-Step :
      {sys next : System} {es : List Event}
      → Step fl info sys es next
      → length sys.connections ≤ length next.connections
  unfolding accept take_turn close write_next with_manager
  length-Step (accepts _) = omega arith
  length-Step (serves before c after e p _ _) =
      omega (arith, ap length p, length-middle before c _ after)
  length-Step (closes before c after p _ _) =
      omega (arith, ap length p, length-middle before c (record c { closed = true }) after)
  length-Step (evicts now) = omega arith
  length-Step samples = omega arith
  length-Step (writes c m _ _) = omega arith
  length-Step (flushes m _) = omega arith
  length-Step (saves t j m _ _) = omega arith
  length-Step (stops _) = omega arith
  length-Step (shuts_down t j m _ _ _) = omega arith

  -- However the connections and the background tasks of a server take turns, the count of active
  -- connections stays the number of connections that were opened and whose task has not come to its
  -- end, if there were at most 2^63 - 1 in all. A connection whose command or decoder panicked never comes to its
  -- end, so it stays counted.
  pub Run-IsCounted :
      {sys last : System} {es : List Event}
      → Run fl info sys es last
      → length last.connections ≤ max_i64
      → IsCounted sys
      → IsCounted last
  Run-IsCounted here n h = h
  Run-IsCounted (more run step) n h =
      Step-IsCounted step n (Run-IsCounted run (omega (arith, length-Step step)) h)
