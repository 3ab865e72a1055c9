-- ===== src/Persistence/Aof/Restore.antt =====
-- Running the commands of `value_to_commands` (src/persistence/aof.rs) restores the value of a key.
use fire_redis.Prelude.{
  ℕ, ◌+◌, ◌*◌, ◌%◌, ◌^◌, ◌≤◌, ◌≡◌, refl, ap, ◌∙◌, true, false, none, some, Option, List, [], ◌∷◌,
  ◌++◌, map, Bytes, codes, All, length, arith, Outcome, returns, subst, max_u64,
}
use fire_redis.Dict
use fire_redis.Dict.{Dict}
use fire_redis.Dict.Rebuild.{insert_all-nil}
use fire_redis.Decimal.{to_string}
use fire_redis.Utf8.{is_utf8}
use fire_redis.Platform.{Platform}
use fire_redis.Metrics.{Metrics}
use fire_redis.Resp.{Value, array, values_of, simple_string}
use fire_redis.Store.{
  StoredValue, string, list, set, hash, sorted_set, Store, Instant, from_millis, expire,
}
use fire_redis.Store.Strings
use fire_redis.Store.Lists.{r_push}
use fire_redis.Store.Sets.{s_add}
use fire_redis.Commands.Types.{Command, always}
use fire_redis.Commands.Args.{ok}
use fire_redis.Commands.Parse.{try_from}
use fire_redis.Commands.Execute.{execute}
use fire_redis.Commands.Data.Replies.{bulk, integer_of, int_bool}
use fire_redis.Commands.Data.Lists.{push_all, handle_r_push}
use fire_redis.Commands.Data.Sets.{handle_s_add}
use fire_redis.Commands.Data.Strings.{handle_set}
use fire_redis.Commands.Data.Hashes.{set_fields, handle_h_set}
use fire_redis.Commands.Data.SortedSets.{add_scores, handle_z_add}
use fire_redis.Commands.Data.Keys.{handle_expire}
use fire_redis.Keeps.Named.{keys_of, IsWhole, HasMembers}
use fire_redis.Keeps.Frame.{SameAt, execute-SameAt}
use fire_redis.Keeps.Valid.{IsGood}
use fire_redis.Persistence.Aof.{
  done, execute_command, data_commands, command, expire_commands, expire_seconds, value_to_commands,
  field_args, score_args,
}
use fire_redis.Persistence.Aof.Replay.{run_log}
use fire_redis.Persistence.Aof.Parses.{
  list_of-values_of, HasText, Prints, swapped, try_from-set, try_from-r_push, try_from-s_add,
  try_from-h_set, try_from-z_add, try_from-expire,
}
use fire_redis.Persistence.Aof.Effects.{
  content, typed-missing, set_fields-missing, push_all-missing, s_add-missing, set-missing,
  exists-missing, add_scores-missing, expire-Holds,
}
use fire_redis.Persistence.Entries.{Holds, SameAt-trans, Leaves}

-- The fields of a hash are Rust strings, and the scores of a sorted set read back as they print.
abbrev pub IsPrintable : Platform → StoredValue → Type 0
IsPrintable fl (hash map) = HasText map
IsPrintable fl (sorted_set scores tree) = All (λ e. Prints fl e.1) scores
IsPrintable fl _ = Unit

true-false : true ≡ false → ⊥
true-false e = cc

-- The deadline that EXPIRE sets for the time that is left.
abbrev pub renewed : Instant → Option ℕ → Option Instant
renewed at none = none
renewed at (some ms) = some (at + from_millis (expire_seconds ms * 1000 % 2 ^ 64))

-- The key has a value with this content, and this deadline.
abbrev pub Restored : Bytes → StoredValue → Option Instant → Store → Type 0
Restored key v deadline u =
    (w : StoredValue) × (content w ≡ content v)
    × (Dict.get u.entries key ≡ some w)
    × (Dict.get u.expirations key ≡ deadline)

-- The time that is left fits an EXPIRE.
abbrev pub FitsExpire : Option ℕ → Type 0
FitsExpire none = Unit
FitsExpire (some ms) = expire_seconds ms ≤ max_u64

module _ (fl : Platform) (info : Metrics → Bytes) (at : Instant) where
  -- The commands of the log, run at one instant, all return, and end in this store.
  abbrev pub Leads : List Value → Store → Store → Type 0
  Leads [] t u = t ≡ u
  Leads (v ∷ log) t u =
      (w : Store) × (execute_command fl info at v t ≡ (w, returns tt)) × Leads log w u

  pub Leads-append :
      (a b : List Value) (t u v : Store) → Leads a t u → Leads b u v → Leads (a ++ b) t v
  Leads-append [] b t u v h k = rw h k
  Leads-append (x ∷ a) b t u v (w, e, h) k = (w, e, Leads-append a b w u v h k)

  pub Leads-run_log :
      (log : List Value) (n : ℕ) (t u : Store)
      → Leads log t u
      → run_log fl info (λ _. at) n log t ≡ (u, done (n + length log))
  unfolding run_log
  Leads-run_log [] n t u h = rw h (let e : n + 0 ≡ n = omega arith in rw e refl)
  Leads-run_log (x ∷ log) n t u (w, e, h) =
      rw e (Leads-run_log log (n + 1) w u h ∙ ap (λ m. (u, done m)) (omega arith))

  one_command :
      (bs : List Bytes) (c : Command) (t u : Store) (r : Value)
      → try_from fl (map bulk bs) ≡ ok c
      → execute fl info at c t ≡ (u, returns r)
      → Leads (array (values_of (map bulk bs)) ∷ []) t u
  unfolding execute_command
  one_command bs c t u r p e = (u, rw (list_of-values_of (map bulk bs)) (rw p (rw e refl)), refl)

  frame_of :
      (key : Bytes) (c : Command) (t u : Store) (r : Value)
      → execute fl info at c t ≡ (u, returns r)
      → HasMembers c
      → ¬ IsWhole c
      → keys_of c ≡ key ∷ []
      → Leaves key t u
  frame_of key c t u r e m w k j ne =
      subst (λ (p : Store × Outcome Value). SameAt j t p.0) e
        (execute-SameAt fl info at c t j m w (rw k (ne, tt)))

  -- The log gives the key a value with this content, and leaves the other keys.
  abbrev pub Restores : Bytes → StoredValue → List Value → Store → Type 0
  Restores key v log t =
      (u : Store) × (w : StoredValue) × (content w ≡ content v)
      × Leads log t u
      × Holds key (some w) u
      × Leaves key t u

  by_command :
      (key : Bytes) (v w : StoredValue) (bs : List Bytes) (c : Command) (t u : Store) (r : Value)
      → content w ≡ content v
      → try_from fl (map bulk bs) ≡ ok c
      → execute fl info at c t ≡ (u, returns r)
      → HasMembers c
      → ¬ IsWhole c
      → keys_of c ≡ key ∷ []
      → Holds key (some w) u
      → Restores key v (array (values_of (map bulk bs)) ∷ []) t
  by_command key v w bs c t u r same p e m n k h =
      (u, w, same, one_command bs c t u r p e, h, frame_of key c t u r e m n k)

  restore_value :
      (key : Bytes) (v : StoredValue) (t : Store)
      → is_utf8 key ≡ true
      → IsGood fl v
      → IsPrintable fl v
      → Holds key none t
      → Restores key v (data_commands fl key v) t
  unfolding data_commands execute handle_set handle_r_push handle_s_add handle_h_set handle_z_add
  restore_value key (string b) t x g p h =
      by_command key (string b) (string b) (codes "SET" ∷ key ∷ b ∷ [])
        (Command.set key b none always) t (Strings.set at key b none t) (simple_string (codes "OK"))
        refl (try_from-set fl key x b) (rw (exists-missing at key t h) refl) tt (λ w. w) refl
        (set-missing at key b t h)
  restore_value key (list []) t x g p h = absurd (true-false g)
  restore_value key (list (y ∷ ys)) t x g p h =
      by_command key (list (y ∷ ys)) (list (y ∷ ys)) (codes "RPUSH" ∷ key ∷ y ∷ ys)
        (Command.r_push key (y ∷ ys)) t (push_all (r_push at) key (y ∷ ys) 0 t).0
        (integer_of (push_all (r_push at) key (y ∷ ys) 0 t).1) refl (try_from-r_push fl key x y ys)
        (typed-missing at key (codes "list") _ t h) tt (λ w. w) refl
        (push_all-missing at key y ys 0 t h)
  restore_value key (set []) t x g p h = absurd (true-false g.1)
  restore_value key (set ((m, z) ∷ d)) t x g p h =
      by_command key (set ((m, z) ∷ d)) (set ((m, z) ∷ d))
        (codes "SADD" ∷ key ∷ Dict.keys ((m, z) ∷ d)) (Command.s_add key (Dict.keys ((m, z) ∷ d))) t
        (s_add at key (Dict.keys ((m, z) ∷ d)) t).0
        (integer_of (s_add at key (Dict.keys ((m, z) ∷ d)) t).1) refl
        (try_from-s_add fl key x m (Dict.keys d)) (typed-missing at key (codes "set") _ t h) refl
        (λ w. w) refl
        (rw (insert_all-nil ((m, z) ∷ d) g.0) at (s_add-missing at key ((m, z) ∷ d) t h))
  restore_value key (hash []) t x g p h = absurd (true-false g.1)
  restore_value key (hash ((f, b) ∷ d)) t x g p h =
      by_command key (hash ((f, b) ∷ d)) (hash ((f, b) ∷ d))
        (codes "HSET" ∷ key ∷ field_args ((f, b) ∷ d)) (Command.h_set key ((f, b) ∷ d)) t
        (set_fields at key ((f, b) ∷ d) t).0 (integer_of (set_fields at key ((f, b) ∷ d) t).1) refl
        (try_from-h_set fl key x f b d p) (typed-missing at key (codes "hash") _ t h) tt (λ w. w)
        refl (rw (insert_all-nil ((f, b) ∷ d) g.0) at (set_fields-missing at key f b d t h))
  restore_value key (sorted_set [] tree) t x g p h = absurd (true-false g.0.1)
  restore_value key (sorted_set ((m, y) ∷ d) tree) t x g p h =
      let (tree', k) = add_scores-missing at key fl m y d t g.0.0 h in
      by_command key (sorted_set ((m, y) ∷ d) tree) (sorted_set ((m, y) ∷ d) tree')
        (codes "ZADD" ∷ key ∷ score_args fl ((m, y) ∷ d)) (Command.z_add key (swapped ((m, y) ∷ d)))
        t (add_scores fl at key (swapped ((m, y) ∷ d)) t).0
        (integer_of (add_scores fl at key (swapped ((m, y) ∷ d)) t).1) refl
        (try_from-z_add fl key x m y d p) (typed-missing at key (codes "zset") _ t h) tt (λ w. w)
        refl (rw (insert_all-nil ((m, y) ∷ d) g.0.0) at k)

  expire_runs :
      (key : Bytes) (seconds : ℕ) (u : Store)
      → execute fl info at (Command.expire key (seconds * 1000 % 2 ^ 64)) u ≡ (
        (expire at key (seconds * 1000 % 2 ^ 64) u).0,
        returns (int_bool (expire at key (seconds * 1000 % 2 ^ 64) u).1),
      )
  unfolding execute handle_expire
  expire_runs key seconds u = refl

  expire-Leads :
      (key : Bytes) (seconds : ℕ) (u : Store)
      → is_utf8 key ≡ true
      → seconds ≤ max_u64
      → Leads
          (command (codes "EXPIRE") key (to_string seconds ∷ []) ∷ [])
          u
          (expire at key (seconds * 1000 % 2 ^ 64) u).0
  expire-Leads key seconds u x b =
      one_command (codes "EXPIRE" ∷ key ∷ to_string seconds ∷ [])
        (Command.expire key (seconds * 1000 % 2 ^ 64)) u
        (expire at key (seconds * 1000 % 2 ^ 64) u).0 _ (try_from-expire fl key x seconds b)
        (expire_runs key seconds u)

  expire-Leaves :
      (key : Bytes) (seconds : ℕ) (u : Store)
      → Leaves key u (expire at key (seconds * 1000 % 2 ^ 64) u).0
  expire-Leaves key seconds u =
      frame_of key (Command.expire key (seconds * 1000 % 2 ^ 64)) u _ _ (expire_runs key seconds u)
        tt (λ w. w) refl

  -- The commands for one key, run where the key is missing, give it a value with the same content
  -- and the deadline that EXPIRE sets, and leave every other key.
  pub restore_key :
      (key : Bytes) (v : StoredValue) (ttl_ms : Option ℕ) (t : Store)
      → is_utf8 key ≡ true
      → IsGood fl v
      → IsPrintable fl v
      → FitsExpire ttl_ms
      → Holds key none t
      → (u : Store) × Leads (value_to_commands fl key v ttl_ms) t u
        × Restored key v (renewed at ttl_ms) u
        × Leaves key t u
  unfolding value_to_commands expire_commands
  restore_key key v none t x g p b h =
      let (u, w, same, l, k, f) = restore_value key v t x g p h in
      (u, Leads-append (data_commands fl key v) [] t u u l refl, (w, same, k.0, k.1), f)
  restore_key key v (some ms) t x g p b h =
      let (u, w, same, l, k, f) = restore_value key v t x g p h in
      let (d, e) = expire-Holds at key (expire_seconds ms * 1000 % 2 ^ 64) w u k in
      let z : Store = (expire at key (expire_seconds ms * 1000 % 2 ^ 64) u).0 in
      (
        z,
        Leads-append (data_commands fl key v) _ t u z l
            (expire-Leads key (expire_seconds ms) u x b),
        (w, same, d, e),
        λ j ne. SameAt-trans j t u z (f j ne) (expire-Leaves key (expire_seconds ms) u j ne),
      )
