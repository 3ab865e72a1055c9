-- ===== src/Persistence/Aof/Recovery.antt =====
-- A rewritten append-only file (`rewrite_aof` of src/persistence/aof.rs), replayed.
use fire_redis.Prelude.{
  ℕ, ◌≡◌, refl, sym, ap, ◌∙◌, true, none, some, Option, List, [], ◌∷◌, ◌++◌, map, Bytes, All,
  length, arith, append-nil,
}
use mathlib.Core.List.{map-append}
use fire_redis.Dict
use fire_redis.Dict.{Dict}
use fire_redis.Dict.Laws.{NoDup}
use fire_redis.Utf8.{is_utf8}
use fire_redis.Platform.{Platform}
use fire_redis.Metrics.{Metrics}
use fire_redis.Resp.{Value, encode, null}
use fire_redis.Resp.Wire.{normal, IsWire}
use fire_redis.Store
use fire_redis.Store.{
  StoredValue, string, list, set, hash, sorted_set, Store, Instant, ttl_ms_for_persistence,
  get_for_restore, with_metrics,
}
use fire_redis.Keeps.Frame.{SameAt}
use fire_redis.Keeps.Valid.{IsValid, IsGood, keys_keeps}
use fire_redis.Persistence.Aof.{
  done, data_commands, expire_commands, value_to_commands, rewrite_commands, rewrite_aof,
  encode_all, commands_of_entry, replay, field_args, score_args,
}
use fire_redis.Persistence.Aof.Replay.{replay-encode_all, run_log}
use fire_redis.Persistence.Aof.Parses.{normal-bulks}
use fire_redis.Persistence.Entries.{
  own_entries, Free, Free-with_metrics, Free-Leaves, After, After-split,
}
use fire_redis.Persistence.Aof.Restore.{
  IsPrintable, Leads, Leads-append, Leads-run_log, FitsExpire, renewed, Restored, restore_key,
}

-- What an entry of the store needs to be written and read back: its key and fields are Rust strings,
-- its scores read back as they print, and its remaining seconds fit 64 bits.
abbrev pub CanSave : Platform → Instant → Store → Bytes → StoredValue → Type 0
CanSave fl now s k v =
    (is_utf8 k ≡ true) × IsPrintable fl v × FitsExpire (ttl_ms_for_persistence now k s)

-- The key has the content of its value, and the deadline that EXPIRE sets at the time of the replay.
abbrev pub Back : Instant → Instant → Store → Bytes → StoredValue → Store → Store → Type 0
Back now at s j v t u = Restored j v (renewed at (ttl_ms_for_persistence now j s)) u

moved :
    (now at : Instant) (s : Store) (k : Bytes) (v : StoredValue) (t u w : Store)
    → Back now at s k v t u
    → SameAt k u w
    → Back now at s k v t w
moved now at s k v t u w (x, same, e, d) h = (x, same, h.0 ∙ e, h.1 ∙ d)

module _ (fl : Platform) (info : Metrics → Bytes) (now at : Instant) (s : Store) where
  abbrev Ready : Dict StoredValue → Type 0
  Ready d =
      All (λ e. (get_for_restore e.0 s ≡ some e.1) × IsGood fl e.1 × CanSave fl now s e.0 e.1) d

  restore_all :
      (d : Dict StoredValue) (t : Store)
      → NoDup d
      → Ready d
      → Free d t
      → (u : Store) × Leads fl info at (rewrite_commands fl now (Dict.keys d) s) t u
        × ((j : Bytes) → After (Back now at s) j (Dict.get d j) t u)
  unfolding rewrite_commands Dict.get
  restore_all [] t n r f = (t, refl, λ j. (refl, refl))
  restore_all ((k, v) ∷ d) t n ((held, good, (text, prints, fits)), r) (h, f) =
      let (u, l, now_there, leaves) =
        restore_key fl info at k v (ttl_ms_for_persistence now k s) t text good prints fits h in
      let (w, m, after) = restore_all d u n.1 r (Free-Leaves d k t u n.0 leaves f) in
      (
        w,
        rw held (
            Leads-append fl info at (value_to_commands fl k v (ttl_ms_for_persistence now k s)) _ t
              u w l m),
        After-split (Back now at s) (λ j v t u w h b. b) (moved now at s) d k v t u w n.0 now_there
            leaves after,
      )

  -- The commands are arrays of bulk strings, which read back as they are.
  IsNormal : List Value → Type 0
  IsNormal vs = map normal vs ≡ vs

  IsNormal-append : (a b : List Value) → IsNormal a → IsNormal b → IsNormal (a ++ b)
  unfolding IsNormal
  IsNormal-append a b h k =
      map-append normal a b ∙ ap (λ t. t ++ map normal b) h ∙ ap (λ t. a ++ t) k

  IsNormal-data : (k : Bytes) (v : StoredValue) → IsNormal (data_commands fl k v)
  unfolding data_commands IsNormal
  IsNormal-data k (string b) = refl
  IsNormal-data k (list []) = refl
  IsNormal-data k (list (x ∷ xs)) = rw (normal-bulks xs) refl
  IsNormal-data k (set []) = refl
  IsNormal-data k (set ((m, u) ∷ d)) = rw (normal-bulks (Dict.keys d)) refl
  IsNormal-data k (hash []) = refl
  IsNormal-data k (hash ((f, v) ∷ d)) = rw (normal-bulks (field_args ((f, v) ∷ d))) refl
  IsNormal-data k (sorted_set [] tree) = refl
  IsNormal-data k (sorted_set ((m, x) ∷ d) tree) =
      rw (normal-bulks (score_args fl ((m, x) ∷ d))) refl

  IsNormal-expire : (k : Bytes) (o : Option ℕ) → IsNormal (expire_commands k o)
  unfolding expire_commands IsNormal
  IsNormal-expire k none = refl
  IsNormal-expire k (some ms) = refl

  IsNormal-entry : (k : Bytes) (o : Option StoredValue) → IsNormal (commands_of_entry fl now k o s)
  unfolding value_to_commands IsNormal
  IsNormal-entry k none = refl
  IsNormal-entry k (some v) =
      IsNormal-append (data_commands fl k v) (expire_commands k (ttl_ms_for_persistence now k s))
        (IsNormal-data k v) (IsNormal-expire k (ttl_ms_for_persistence now k s))

  IsNormal-rewrite : (ks : List Bytes) → IsNormal (rewrite_commands fl now ks s)
  unfolding rewrite_commands IsNormal
  IsNormal-rewrite [] = refl
  IsNormal-rewrite (k ∷ ks) =
      IsNormal-append _ (rewrite_commands fl now ks s) (IsNormal-entry k (get_for_restore k s))
        (IsNormal-rewrite ks)

  whole_log :
      (log : List Value) (t : Store)
      → All (IsWire fl.most_values) log
      → IsNormal log
      → replay fl info (λ _. at) (encode_all log) t ≡ run_log fl info (λ _. at) 0 log t
  unfolding IsNormal encode
  whole_log log t w n =
      ap (λ b. replay fl info (λ _. at) b t) (sym (append-nil (encode_all log)))
      ∙ replay-encode_all fl info (λ _. at) log null 0 t w tt (omega arith)
      ∙ ap (λ l. run_log fl info (λ _. at) 0 l t) n

  restored_file :
      (m : Metrics)
      → NoDup s.entries
      → Ready s.entries
      → All (IsWire fl.most_values) (rewrite_commands fl now (Dict.keys s.entries) s)
      → (u : Store) × (replay fl info
            (λ _. at)
            (encode_all (rewrite_commands fl now (Dict.keys s.entries) s))
            (with_metrics m)
          ≡ (u, done (length (rewrite_commands fl now (Dict.keys s.entries) s))))
        × ((j : Bytes) → After (Back now at s) j (Dict.get s.entries j) (with_metrics m) u)
  restored_file m n r w =
      let log : List Value = rewrite_commands fl now (Dict.keys s.entries) s in
      let (u, l, after) =
        restore_all s.entries (with_metrics m) n r (Free-with_metrics m s.entries) in
      (
        u,
        whole_log log (with_metrics m) w (IsNormal-rewrite (Dict.keys s.entries))
            ∙ Leads-run_log fl info at log 0 (with_metrics m) u l
            ∙ ap (λ k. (u, done k)) (omega arith),
        after,
      )

ready_entries :
    (fl : Platform) (now : Instant) (s : Store)
    → IsValid fl s
    → All (λ e. CanSave fl now s e.0 e.1) s.entries
    → All
        (λ e. (get_for_restore e.0 s ≡ some e.1) × IsGood fl e.1 × CanSave fl now s e.0 e.1)
        s.entries
unfolding get_for_restore
ready_entries fl now s h c = go s.entries (own_entries s.entries h.distinct) c
  where
    go :
        (d : Dict StoredValue)
        → All (λ e. Dict.get s.entries e.0 ≡ some e.1) d
        → All (λ e. CanSave fl now s e.0 e.1) d
        → All
            (λ e. (Dict.get s.entries e.0 ≡ some e.1) × IsGood fl e.1 × CanSave fl now s e.0 e.1)
            d
    go [] e c = tt
    go ((k, v) ∷ d) e c = ((e.0, h.good k v e.0, c.0), go d e.1 c.1)

-- The file that a rewrite of a valid keyspace writes, where no temporary file was left behind,
-- replays at a later start into an empty keyspace with no failure, in as many commands as the
-- rewrite counted. Every key that has not expired comes back with the same content, and with the
-- deadline that EXPIRE sets for its remaining time; no other key is there.
pub replay-rewrite_aof :
    (fl : Platform) (info : Metrics → Bytes) (now at : Instant) (s : Store) (m : Metrics)
    → IsValid fl s
    → All (λ e. CanSave fl now (Store.keys now s).0 e.0 e.1) (Store.keys now s).0.entries
    → All
        (IsWire fl.most_values)
        (rewrite_commands fl now (Store.keys now s).1 (Store.keys now s).0)
    → (u : Store) × (replay fl info (λ _. at) (rewrite_aof fl now [] s).1.0 (with_metrics m)
        ≡ (u, done (rewrite_aof fl now [] s).1.1))
      × ((j : Bytes)
          → After
              (Back now at (Store.keys now s).0)
              j
              (Dict.get (Store.keys now s).0.entries j)
              (with_metrics m)
              u)
unfolding rewrite_aof Store.keys
replay-rewrite_aof fl info now at s m h c w =
    let live : Store = (Store.keys now s).0 in
    let valid : IsValid fl live = keys_keeps fl now s h in
    restored_file fl info now at live m valid.distinct (ready_entries fl now live valid c) w
