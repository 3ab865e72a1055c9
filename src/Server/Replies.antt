-- ===== src/Server/Replies.antt =====
-- The replies of a connection (`handle_connection` of src/server.rs).
use fire_redis.Prelude.{
  ℕ, ◌<◌, ◌≡◌, refl, false, List, [], ◌∷◌, ◌++◌, Bytes, arith, length, Outcome, returns, panics,
}
use fire_redis.Platform.{Platform}
use fire_redis.Metrics.{Metrics}
use fire_redis.Resp.{
  Value, nil, cons, simple_string, error, integer, bulk_string, array, null_array, null, list_of,
}
use fire_redis.Store.{Instant}
use fire_redis.Server.{
  Server, Item, received, refused, overflowed, ended, shut_down, Event, Progress, waits, leaves,
  crashes, quits, send_response, serve_command, serve_value, serve, handle_connection,
  is_quit_command,
}

-- No response is taken for the one to QUIT.
quits-false : (v : Value) → quits v ≡ false
unfolding is_quit_command
quits-false (simple_string b) = ground arith
quits-false (error b) = refl
quits-false (integer i) = refl
quits-false (bulk_string b) = refl
quits-false (array vs) = refl
quits-false null_array = refl
quits-false null = refl

-- An item that is not the end of the connection.
abbrev pub IsRequest : Item → Type 0
IsRequest ended = ⊥
IsRequest shut_down = ⊥
IsRequest _ = Unit

-- A reply for each of these items, and the connection goes on; or one panicked and has none.
abbrev pub Answered : ℕ → Server × List Value × Progress → Type 0
Answered n (server, out, waits) = length out ≡ n
Answered n (server, out, leaves) = ⊥
Answered n (server, out, crashes) = length out < n

module _ (fl : Platform) (info : Metrics → Bytes) where
  sent-Answered : (r : Server × Outcome Value) → Answered 1 (send_response r)
  sent-Answered (server, returns v) = rw (quits-false v) refl
  sent-Answered (server, panics) = omega arith

  value-Answered :
      (now : Instant) (us : ℕ) (v : Value) (server : Server)
      → Answered 1 (serve_value fl info now us v server)
  unfolding serve_value
  value-Answered now us (array nil) server = refl
  value-Answered now us (array (cons v vs)) server =
      sent-Answered (serve_command fl info now us (list_of (cons v vs)) server)
  value-Answered now us (simple_string b) server = refl
  value-Answered now us (error b) server = refl
  value-Answered now us (integer i) server = refl
  value-Answered now us (bulk_string b) server = refl
  value-Answered now us null_array server = refl
  value-Answered now us null server = refl

  pub item-Answered :
      (i : Item) (now : Instant) (us : ℕ) (server : Server)
      → IsRequest i
      → Answered 1 (serve fl info (record { item = i; now = now; elapsed_us = us }) server)
  unfolding serve
  item-Answered (received v) now us server h = value-Answered now us v server
  item-Answered (refused x) now us server h = refl
  item-Answered overflowed now us server h = omega arith
  item-Answered ended now us server h = absurd h
  item-Answered shut_down now us server h = absurd h

  -- The item at which the task panics and what comes behind it have no reply, and each item before it has one.
  abbrev Crashed : List Event → Server → Server → List Value → Type 0
  Crashed events server last out =
      (before : List Event) × (e : Event) × (after : List Event) × (mid : Server) × (events
        ≡ before ++ e ∷ after)
      × (length out ≡ length before)
      × (handle_connection fl info before server ≡ (mid, out, waits))
      × (serve fl info e mid ≡ (last, [], crashes))

  -- A reply for each item, and the connection goes on; or one panics.
  abbrev pub Replied : List Event → Server → Server × List Value × Progress → Type 0
  Replied events server (last, out, waits) = length out ≡ length events
  Replied events server (last, out, leaves) = ⊥
  Replied events server (last, out, crashes) = Crashed events server last out
