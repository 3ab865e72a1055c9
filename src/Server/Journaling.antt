-- ===== src/Server/Journaling.antt =====
-- What a connection sends to the append-only file (`handle_connection` of src/server.rs).
use fire_redis.Prelude.{
  ℕ, ◌+◌, ◌%◌, ◌^◌, ◌≤◌, ◌≡◌, refl, sym, ap, ◌∙◌, Option, none, some, List, [], ◌∷◌, ◌++◌, Bytes,
  if◌then◌else◌, arith, length, max_u64, append_assoc, append-nil, length-append, Bool-cases, inl,
  inr, Outcome, returns, panics, subst,
}
use fire_redis.Platform.{Platform}
use fire_redis.Metrics.{Metrics}
use fire_redis.Resp.{
  Value, Values, nil, cons, simple_string, error, integer, bulk_string, array, null_array, null,
  values_of, list_of,
}
use fire_redis.Store.{Store, Instant}
use fire_redis.Server.{
  Journal, Server, Item, received, refused, overflowed, ended, shut_down, Event, Progress, waits,
  leaves, crashes, send_response, serve_command, serve_value, serve, next_round, handle_connection,
  log_write, log, record_write, is_logged, after_response,
}

-- The write commands among the items, as they were received.
abbrev pub writes_of : Item → List Value
writes_of (received (array (cons v vs))) =
    if is_logged (list_of (cons v vs)) then array (cons v vs) ∷ [] else []
writes_of _ = []

abbrev pub all_writes : List Event → List Value
all_writes [] = []
all_writes (e ∷ events) = writes_of e.item ++ all_writes events

abbrev pub sends : List Value → Option (List Value) → Option (List Value)
sends ws none = none
sends ws (some sent) = some (sent ++ ws)

-- These commands were sent, behind those before, if there is a channel, and counted as changes.
abbrev pub Journaled : List Value → Option Journal → Option Journal → Type 0
Journaled ws none k = k ≡ none
Journaled ws (some j) k =
    (j' : Journal) × (k ≡ some j')
    × (j'.logged ≡ sends ws j.logged)
    × (j'.dirty_counter ≡ (j.dirty_counter + length ws) % 2 ^ 64)

values_of-list_of : (vs : Values) → values_of (list_of vs) ≡ vs
values_of-list_of nil = refl
values_of-list_of (cons v vs) = ap (cons v) (values_of-list_of vs)

sends-nil : (o : Option (List Value)) → o ≡ sends [] o
sends-nil none = refl
sends-nil (some sent) = ap some (sym (append-nil sent))

log-sends : (v : Value) (o : Option (List Value)) → log v o ≡ sends (v ∷ []) o
log-sends v none = refl
log-sends v (some sent) = refl

sends-append : (a b : List Value) (o : Option (List Value)) → sends b (sends a o) ≡ sends (a ++ b) o
sends-append a b none = refl
sends-append a b (some sent) = ap some (append_assoc sent a b)

-- The count of changes is a 64-bit number.
abbrev pub IsCount : Option Journal → Type 0
IsCount none = Unit
IsCount (some j) = j.dirty_counter ≤ max_u64

unchanged : (j : Option Journal) → IsCount j → Journaled [] j j
unchanged none h = refl
unchanged (some j) h = (j, refl, sends-nil j.logged, omega arith)

command-Journaled :
    (v : Value) (vs : Values) (j : Option Journal)
    → IsCount j
    → Journaled (writes_of (received (array (cons v vs)))) j (log_write (list_of (cons v vs)) j)
unfolding log_write
command-Journaled v vs none h = refl
command-Journaled v vs (some j) h = elim (Bool-cases (is_logged (list_of (cons v vs)))) [
  | inl is_write ↦ rw is_write (
    record_write (record j { logged = log (array (values_of (list_of (cons v vs)))) j.logged }),
    refl,
    ap (λ w. log w j.logged) (ap array (values_of-list_of (cons v vs)))
        ∙ log-sends (array (cons v vs)) j.logged,
    omega arith,
  )
  | inr other ↦ rw other (unchanged (some j) h)
]

Journaled-then :
    (a b : List Value) (j k l : Option Journal)
    → Journaled a j k
    → Journaled b k l
    → Journaled (a ++ b) j l
Journaled-then a b none k l h g = subst (λ o. Journaled b o l) h g
Journaled-then a b (some j) k l (j', e, s, n) g =
    let (m, e', s', n') = subst (λ o. Journaled b o l) e g in
    (m, e', s' ∙ ap (sends b) s ∙ sends-append a b j.logged, omega (arith, length-append a b))

-- Where the connection was not left and nothing panicked, it goes on.
abbrev pub Waits : Server × List Value × Progress → Type 0
Waits (server, out, waits) = Unit
Waits _ = ⊥

module _ (fl : Platform) (info : Metrics → Bytes) where
  journal-after :
      (us : ℕ) (j : Option Journal) (r : Store × Outcome Value)
      → (after_response us j r).0.journal ≡ j
  journal-after us j (s, returns v) = refl
  journal-after us j (s, panics) = refl

  journal-sent : (r : Server × Outcome Value) → (send_response r).0.journal ≡ r.0.journal
  journal-sent (server, returns v) = refl
  journal-sent (server, panics) = refl

  value-Journaled :
      (now : Instant) (us : ℕ) (v : Value) (server : Server)
      → IsCount server.journal
      → Journaled
          (writes_of (received v))
          server.journal
          (serve_value fl info now us v server).0.journal
  unfolding serve_value serve_command
  value-Journaled now us (array nil) server h = unchanged server.journal h
  value-Journaled now us (array (cons v vs)) server h =
      subst (Journaled (writes_of (received (array (cons v vs)))) server.journal)
        (sym (
          journal-sent (serve_command fl info now us (list_of (cons v vs)) server)
          ∙ journal-after us (log_write (list_of (cons v vs)) server.journal) _))
        (command-Journaled v vs server.journal h)
  value-Journaled now us (simple_string b) server h = unchanged server.journal h
  value-Journaled now us (error b) server h = unchanged server.journal h
  value-Journaled now us (integer i) server h = unchanged server.journal h
  value-Journaled now us (bulk_string b) server h = unchanged server.journal h
  value-Journaled now us null_array server h = unchanged server.journal h
  value-Journaled now us null server h = unchanged server.journal h

  pub item-Journaled :
      (i : Item) (now : Instant) (us : ℕ) (server : Server)
      → IsCount server.journal
      → Journaled
          (writes_of i)
          server.journal
          (serve fl info (record { item = i; now = now; elapsed_us = us }) server).0.journal
  unfolding serve
  item-Journaled (received v) now us server h = value-Journaled now us v server h
  item-Journaled (refused x) now us server h = unchanged server.journal h
  item-Journaled overflowed now us server h = unchanged server.journal h
  item-Journaled ended now us server h = unchanged server.journal h
  item-Journaled shut_down now us server h = unchanged server.journal h

  pub IsCount-after : (ws : List Value) (j k : Option Journal) → Journaled ws j k → IsCount k
  IsCount-after ws none k e = subst IsCount (sym e) tt
  IsCount-after ws (some j) k (j', e, s, n) = subst IsCount (sym e) (omega arith)

  next-Journaled :
      (a b : List Value) (j : Option Journal) (r : Server × List Value × Progress)
      (next : Server → Server × List Value × Progress)
      → Waits (next_round r next)
      → Journaled a j r.0.journal
      → ((t : Server)
          → IsCount t.journal
          → Waits (next t)
          → Journaled b t.journal (next t).0.journal)
      → Journaled (a ++ b) j (next_round r next).0.journal
  next-Journaled a b j (server, out, waits) next w h k =
      Journaled-then a b j server.journal (next server).0.journal h
        (k server (IsCount-after a j server.journal h) w)
  next-Journaled a b j (server, out, leaves) next w h k = absurd w
  next-Journaled a b j (server, out, crashes) next w h k = absurd w

  -- While a connection goes on, exactly the write commands that it received have been sent to the
  -- append-only file, as they were received and in their order, and each was counted as a change.
  -- (A command counts as a write by its name, whether or not it was carried out.)
  pub handle_connection-Journaled :
      (events : List Event) (server : Server)
      → IsCount server.journal
      → Waits (handle_connection fl info events server)
      → Journaled
          (all_writes events)
          server.journal
          (handle_connection fl info events server).0.journal
  unfolding handle_connection
  handle_connection-Journaled [] server h w = unchanged server.journal h
  handle_connection-Journaled (e ∷ events) server h w =
      next-Journaled (writes_of e.item) (all_writes events) server.journal (serve fl info e server)
        _ w (item-Journaled e.item e.now e.elapsed_us server h)
        (λ t c y. handle_connection-Journaled events t c y)
