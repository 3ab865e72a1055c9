-- ===== src/Server/System/Replies.antt =====
-- The replies of each connection while others are served between its items (src/server.rs).
use fire_redis.Prelude.{
  ℕ, ◌+◌, ◌≤◌, ◌≡◌, refl, sym, subst, true, false, List, [], ◌∷◌, ◌++◌, Bytes, All, All-append,
  arith, length, length-append,
}
use fire_redis.Platform.{Platform}
use fire_redis.Metrics.{Metrics}
use fire_redis.Resp.{Value}
use fire_redis.Store.{Instant}
use fire_redis.Server.{
  Server, Item, received, refused, overflowed, ended, shut_down, Event, Progress, waits, leaves,
  crashes, serve,
}
use fire_redis.Server.Replies.{Answered, item-Answered}
use fire_redis.Server.System.{
  Connection, System, Step, accepts, serves, closes, evicts, samples, writes, flushes, saves, stops,
  shuts_down, Run, here, more, accept, take_turn, close, write_next, with_manager,
}

-- A connection that waits has one reply for each item that it took. One that was left lacks the reply
-- to the last, or none. One whose command or decoder panicked lacks exactly that reply, and is never closed.
abbrev pub Served : Progress → Connection → Type 0
Served waits c = (length c.sent ≡ length c.taken) × (c.closed ≡ false)
Served leaves c = (length c.sent ≤ length c.taken) × (length c.taken ≤ length c.sent + 1)
Served crashes c = (length c.taken ≡ length c.sent + 1) × (c.closed ≡ false)

abbrev pub IsServed : Connection → Type 0
IsServed c = Served c.progress c

-- What one turn adds to the replies.
abbrev Turn : List Value → Progress → Type 0
Turn out waits = length out ≡ 1
Turn out leaves = length out ≤ 1
Turn out crashes = length out ≡ 0

split_all {ℓ κ} :
    {A : Type ℓ} (P : A → Type κ) (xs : List A) (y : A) (ys : List A)
    → All P (xs ++ y ∷ ys)
    → All P xs × P y × All P ys
split_all P [] y ys (h, k) = (tt, h, k)
split_all P (x ∷ xs) y ys (h, k) = let (a, b, c) = split_all P xs y ys k in ((h, a), b, c)

module _ (fl : Platform) (info : Metrics → Bytes) where
  answered-Turn : (r : Server × List Value × Progress) → Answered 1 r → Turn r.1 r.2
  answered-Turn (server, out, waits) h = h
  answered-Turn (server, out, leaves) h = absurd h
  answered-Turn (server, out, crashes) h = omega arith

  item-Turn :
      (i : Item) (now : Instant) (us : ℕ) (server : Server)
      → let (server', out, p) =
          serve fl info (record { item = i; now = now; elapsed_us = us }) server in
        Turn out p
  unfolding serve
  item-Turn (received v) now us server =
      answered-Turn
        (serve fl info (record { item = received v; now = now; elapsed_us = us }) server)
        (item-Answered fl info (received v) now us server tt)
  item-Turn (refused x) now us server = refl
  item-Turn overflowed now us server = omega arith
  item-Turn ended now us server = omega arith
  item-Turn shut_down now us server = omega arith

  turn-Served :
      (c : Connection) (i : Item) (out : List Value) (p : Progress)
      → Served waits c
      → Turn out p
      → Served p (record {
        taken = c.taken ++ i ∷ [];
        sent = c.sent ++ out;
        progress = p;
        closed = c.closed;
      })
  turn-Served c i out waits (h, k) t =
      (omega (arith, length-append c.taken (i ∷ []), length-append c.sent out), k)
  turn-Served c i out leaves (h, k) t = (
    omega (arith, length-append c.taken (i ∷ []), length-append c.sent out),
    omega (arith, length-append c.taken (i ∷ []), length-append c.sent out),
  )
  turn-Served c i out crashes (h, k) t =
      (omega (arith, length-append c.taken (i ∷ []), length-append c.sent out), k)

  replace_one :
      (before : List Connection) (c d : Connection) (after cs : List Connection)
      → cs ≡ before ++ c ∷ after
      → (IsServed c → IsServed d)
      → All IsServed cs
      → All IsServed (before ++ d ∷ after)
  replace_one before c d after cs e f h =
      let (a, b, k) = split_all IsServed before c after (subst (All IsServed) e h) in
      All-append IsServed before (d ∷ after) a (f b, k)

  Step-IsServed :
      {sys next : System} {es : List Event}
      → Step fl info sys es next
      → All IsServed sys.connections
      → All IsServed next.connections
  unfolding accept take_turn close write_next with_manager
  Step-IsServed (accepts _) h = ((refl, refl), h)
  Step-IsServed {sys} (serves before c after e p w _) h =
      replace_one before c _ after sys.connections p
        (λ q.
          turn-Served c e.item _ _ (subst (λ r. Served r c) w q)
            (item-Turn e.item e.now e.elapsed_us sys.server))
        h
  Step-IsServed {sys} (closes before c after p l _) h =
      replace_one before c (record c { closed = true }) after sys.connections p
        (λ q.
          subst (λ r. Served r (record c { closed = true })) (sym l) (subst (λ r. Served r c) l q))
        h
  Step-IsServed (evicts now) h = h
  Step-IsServed samples h = h
  Step-IsServed (writes c m _ _) h = h
  Step-IsServed (flushes m _) h = h
  Step-IsServed (saves t j m _ _) h = h
  Step-IsServed (stops _) h = h
  Step-IsServed (shuts_down t j m _ _ _) h = h

  -- However a server's connections take turns, each connection that waits for its next item has been
  -- sent one reply for each item that it took, requests and malformed input alike; one that was left
  -- lacks at most the last reply; and one whose command, or whose decoder, panicked lacks exactly that one
  -- reply and is not closed.
  pub Run-IsServed :
      {sys last : System} {es : List Event}
      → Run fl info sys es last
      → All IsServed sys.connections
      → All IsServed last.connections
  Run-IsServed here h = h
  Run-IsServed (more run step) h = Step-IsServed step (Run-IsServed run h)
