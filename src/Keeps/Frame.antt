-- ===== src/Keeps/Frame.antt =====
-- The frame of a command (`Command::execute` of src/commands/mod.rs).
use fire_redis.Prelude.{◌≡◌, refl, false, List, [], ◌∷◌, Bytes, All, beq}
use fire_redis.Dict
use fire_redis.Dict.Laws.{get-insert, get-remove}
use fire_redis.Platform.{Platform}
use fire_redis.Metrics.{Metrics}
use fire_redis.Store.{StoredValue, Store, Instant}
use fire_redis.Commands.Types.{Command}
use fire_redis.Commands.Execute.{execute}
use fire_redis.Keeps.{Closed}
use fire_redis.Keeps.Values.{Admits}
use fire_redis.Keeps.Named.{keys_of, IsWhole, HasMembers}
use fire_redis.Keeps.Commands.{execute_keeps}

-- Two stores hold the same value and the same deadline at a key.
abbrev pub SameAt : Bytes → Store → Store → Type 0
SameAt j s t =
    (Dict.get t.entries j ≡ Dict.get s.entries j)
    × (Dict.get t.expirations j ≡ Dict.get s.expirations j)

abbrev pub Anything : StoredValue → Type 0
Anything v = Unit

pub Anything-Admits : (fl : Platform) → Admits fl Anything
Anything-Admits fl = record {
  strings = λ b. tt;
  lists = λ xs h. tt;
  hash_grow = λ map f v h. tt;
  hash_shrink = λ map fs q h. tt;
  set_grow = λ ms members h q. tt;
  set_shrink = λ ms members q h. tt;
  set_pop = λ n members q h. tt;
  scores_grow = λ scores tree x m q. tt;
  scores_shrink = λ scores tree ms q h. tt;
}

SameAt-Closed : (s : Store) (j k : Bytes) → beq k j ≡ false → Closed Anything (SameAt j s) k
SameAt-Closed s j k ne = record {
  on_forget = λ t h. (rw get-remove (rw ne h.0), rw get-remove (rw ne h.1));
  on_write = λ t v q h. (rw get-insert (rw ne h.0), h.1);
  on_deadline = λ t x q h. (h.0, rw get-insert (rw ne h.1));
  on_clear = λ t h. (h.0, rw get-remove (rw ne h.1));
  on_read = λ t v e h. tt;
}

All-Closed :
    (s : Store) (j : Bytes) (ks : List Bytes)
    → All (λ k. beq k j ≡ false) ks
    → All (Closed Anything (SameAt j s)) ks
All-Closed s j [] h = tt
All-Closed s j (k ∷ ks) h = (SameAt-Closed s j k h.0, All-Closed s j ks h.1)

-- A command other than KEYS and FLUSHALL leaves the value and the deadline of every key that it
-- does not name as they were, whatever it replies. (SADD is taken with at least one member.)
pub execute-SameAt :
    (fl : Platform) (info : Metrics → Bytes) (now : Instant) (c : Command) (s : Store) (j : Bytes)
    → HasMembers c
    → ¬ IsWhole c
    → All (λ k. beq k j ≡ false) (keys_of c)
    → SameAt j s (execute fl info now c s).0
execute-SameAt fl info now c s j m w h =
    execute_keeps (SameAt j s) (Anything-Admits fl) info now c s m (All-Closed s j (keys_of c) h)
      (λ x. absurd (w x)) (refl, refl)
