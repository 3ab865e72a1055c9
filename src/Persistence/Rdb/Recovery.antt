-- ===== src/Persistence/Rdb/Recovery.antt =====
-- A snapshot file (src/persistence/rdb.rs), loaded.
use fire_redis.Prelude.{
  ℕ, suc, ◌/◌, ◌≤◌, ◌≡◌, sym, ap, ◌∙◌, false, some, [], ◌∷◌, ◌++◌, Bytes, codes, ltb, beq, ◌||◌,
  not, All, length, take, arith, max_u64, append_assoc,
}
use fire_redis.Dict
use fire_redis.Dict.{Dict}
use fire_redis.Dict.Laws.{NoDup}
use fire_redis.Decimal.{to_string}
use fire_redis.Platform.{Platform}
use fire_redis.Metrics.{Metrics}
use fire_redis.Store
use fire_redis.Store.{
  StoredValue, string, list, set, hash, sorted_set, Store, Instant, from_millis, with_metrics,
  restore, set_with_ttl, set_deadline,
}
use fire_redis.Keeps.Valid.{IsValid, IsGood, evict_keeps}
use fire_redis.Persistence.Entries.{own_entries, Free-with_metrics, After}
use fire_redis.Persistence.Rdb.{
  op_select_db, write_length, write_aux, save_entries, header, resize_db, trailer, save,
}
use fire_redis.Persistence.Rdb.Reader.{loaded, load}
use fire_redis.Persistence.Rdb.RoundTrip.{passed}
use fire_redis.Decimal.RoundTrip.{length-to_string}
use fire_redis.Persistence.Rdb.Records.{
  Loads, Loads-append, Loads-aux, Loads-select, Loads-resize, loads_end,
}
use fire_redis.Persistence.Rdb.Entries.{CanStore, Back, Loads-entries}

module _ (fl : Platform) (wall : ℕ) (now : Instant) (clock : ℕ) (at : Instant) where
  -- The records behind the magic and the version, up to the entries.
  abbrev preamble : Dict StoredValue → Dict Instant → Bytes
  preamble entries expirations =
      write_aux (codes "redis-ver") (codes "7.0.0")
      ++ (write_aux (codes "redis-bits") (codes "64")
          ++ (write_aux (codes "ctime") (to_string (wall / 1000))
              ++ ((op_select_db ∷ write_length 0) ++ resize_db entries expirations)))

  Loads-preamble :
      (entries : Dict StoredValue) (expirations : Dict Instant) (t : Store)
      → wall ≤ max_u64
      → length entries ≤ max_u64
      → length expirations ≤ max_u64
      → Loads fl clock at (preamble entries expirations) t t
  Loads-preamble entries expirations t b n m =
      let aux = Loads-aux fl clock at in
      Loads-append fl clock at _ _ t t t
        (aux (codes "redis-ver") (codes "7.0.0") t (omega arith) (omega arith))
        (Loads-append fl clock at _ _ t t t
          (aux (codes "redis-bits") (codes "64") t (omega arith) (omega arith))
          (Loads-append fl clock at _ _ t t t
            (aux (codes "ctime") (to_string (wall / 1000)) t (omega arith)
              (omega (arith, length-to_string (wall / 1000))))
            (Loads-append fl clock at (op_select_db ∷ write_length 0)
              (resize_db entries expirations) t t t (Loads-select fl clock at t)
              (Loads-resize fl clock at (length entries) (length expirations) t n m))))

  regroup :
      (a b c d r y : Bytes)
      → (a ++ (b ++ (c ++ d))) ++ (r ++ y) ≡ (a ++ (b ++ (c ++ (d ++ r)))) ++ y
  regroup a b c d r y = simp append_assoc

  long_enough : (b : Bytes) → ltb (length (codes "REDIS" ++ (codes "0011" ++ b))) 9 ≡ false
  long_enough b = ground arith

  -- Nine bytes are passed over, and the loop has a round for every byte.
  load_starts :
      (w : Bytes) (t u : Store)
      → Loads fl clock at w t u
      → load fl clock at (codes "REDIS" ++ (codes "0011" ++ (w ++ trailer))) t ≡ (u, loaded)
  unfolding load beq
  load_starts w t u l =
      let buf : Bytes = codes "REDIS" ++ (codes "0011" ++ (w ++ trailer)) in
      let (f, pos, b, e) = l (suc (length buf)) 9 trailer (omega arith) in
      passed _ _ (ltb (length buf) 9 || not (beq (take 5 buf) (codes "REDIS")))
        (ap (λ b. b || false) (long_enough (w ++ trailer)))
      ∙ e
      ∙ loads_end fl clock at f pos u b

  file_shape :
      (s : Store)
      → (save fl wall now s).1
        ≡ codes "REDIS"
          ++ (codes "0011"
              ++ ((preamble (Store.snapshot now s).1.0 (Store.snapshot now s).1.1
                    ++ save_entries fl wall now
                        (Store.snapshot now s).1.0
                        (Store.snapshot now s).1.1)
                  ++ trailer))
  unfolding save header
  file_shape s =
      let (d, x) = (Store.snapshot now s).1 in
      ap (λ b. codes "REDIS" ++ (codes "0011" ++ b))
        (regroup (write_aux (codes "redis-ver") (codes "7.0.0"))
            (write_aux (codes "redis-bits") (codes "64"))
            (write_aux (codes "ctime") (to_string (wall / 1000))) (op_select_db ∷ write_length 0)
            (resize_db d x) (save_entries fl wall now d x ++ trailer)
          ∙ sym (append_assoc (preamble d x) (save_entries fl wall now d x) trailer))

IsGood-entries :
    (fl : Platform) (now : Instant) (s : Store)
    → IsValid fl s
    → All (λ e. CanStore fl e.0 e.1) (Store.snapshot now s).1.0
    → All (λ e. IsGood fl e.1 × CanStore fl e.0 e.1) (Store.snapshot now s).1.0
unfolding Store.snapshot
IsGood-entries fl now s h c =
    let live = Store.evict_expired now s in
    let valid : IsValid fl live.0 = evict_keeps fl now s h in
    go live.0 valid live.0.entries (own_entries live.0.entries valid.distinct) c
  where
    go :
        (t : Store)
        → IsValid fl t
        → (d : Dict StoredValue) → All (λ e. Dict.get t.entries e.0 ≡ some e.1) d
        → All (λ e. CanStore fl e.0 e.1) d
        → All (λ e. IsGood fl e.1 × CanStore fl e.0 e.1) d
    go t q [] e c = tt
    go t q ((k, v) ∷ d) e c = ((q.good k v e.0, c.0), go t q d e.1 c.1)

snapshot_distinct :
    (fl : Platform) (now : Instant) (s : Store) → IsValid fl s → NoDup (Store.snapshot now s).1.0
unfolding Store.snapshot
snapshot_distinct fl now s h = (evict_keeps fl now s h).distinct

-- The file that a valid keyspace is saved to loads, at a later start, into an empty keyspace. Every
-- key that had not expired at the save comes back with its value, an index of scores built again:
-- a key without a deadline has none, a key whose deadline on the wall clock has not passed at the
-- load has that time left, and a key whose deadline has passed stays away, as do all other keys.
-- The keys and fields are Rust strings, the scores read back as they print, and the lengths and the
-- wall clock fit 64 bits; the reader can reserve room for the elements of each value.
pub load-save :
    (fl : Platform) (wall : ℕ) (now : Instant) (clock : ℕ) (at : Instant) (s : Store) (m : Metrics)
    → IsValid fl s
    → wall ≤ max_u64
    → length (Store.snapshot now s).1.0 ≤ max_u64
    → length (Store.snapshot now s).1.1 ≤ max_u64
    → All (λ e. CanStore fl e.0 e.1) (Store.snapshot now s).1.0
    → (u : Store) × (load fl clock at (save fl wall now s).1 (with_metrics m) ≡ (u, loaded))
      × ((j : Bytes)
          → After
              (Back fl wall now clock at (Store.snapshot now s).1.1)
              j
              (Dict.get (Store.snapshot now s).1.0 j)
              (with_metrics m)
              u)
load-save fl wall now clock at s m h b n k c =
    let (d, x) = (Store.snapshot now s).1 in
    let (u, l, after) =
      Loads-entries fl wall now clock at d x (with_metrics m) (snapshot_distinct fl now s h)
        (IsGood-entries fl now s h c) (Free-with_metrics m d) in
    (
      u,
      ap (λ f. load fl clock at f (with_metrics m)) (file_shape fl wall now clock at s)
          ∙ load_starts fl wall now clock at
              (preamble fl wall now clock at d x ++ save_entries fl wall now d x) (with_metrics m) u
              (Loads-append fl clock at (preamble fl wall now clock at d x) _ (with_metrics m)
                (with_metrics m) u (Loads-preamble fl wall now clock at d x (with_metrics m) b n k)
                l),
      after,
    )
