-- ===== src/Persistence/Rdb/Records.antt =====
-- The loop of `load_from_file` (src/persistence/rdb.rs) on the records that `save_to_file` writes.
use fire_redis.Prelude.{
  ℕ, zero, suc, ◌+◌, ◌≤◌, ◌<◌, ◌≡◌, refl, ap, ◌∙◌, true, [], ◌∷◌, ◌++◌, Bytes, ltb, length, arith,
  max_u64, append_assoc, length-append,
}
use fire_redis.Utf8.{from_utf8_lossy-valid, is_utf8}
use fire_redis.Platform.{Platform}
use fire_redis.Store.{StoredValue, string, list, set, hash, sorted_set, Store, Instant}
use fire_redis.Keeps.Valid.{IsGood}
use fire_redis.Persistence.Rdb.{
  op_select_db, op_resize_db, op_aux, op_expire_time_ms, to_le_bytes, from_le_bytes, write_length,
  write_bytes, write_aux, write_value, value_type, write_entry, trailer,
}
use fire_redis.Persistence.Rdb.Reader.{
  Read, got, then_read, read_length, read_string_bytes, read_value, read_entry, read_typed_entry,
  read_record, Action, stop, skip, put, put_until, apply, Loaded, loaded, on_record, load_loop,
}
use fire_redis.Persistence.Rdb.RoundTrip.{
  Reads, Fits, IsStorable, reread, then-Reads, then_wraps, passed, read_length-write_length,
  read_string_bytes-write_bytes, read_value-write_value,
}

le_eight : (n : ℕ) → n ≤ max_u64 → from_le_bytes (to_le_bytes 8 n) ≡ n
unfolding from_le_bytes to_le_bytes
le_eight n h = omega arith

module _ (fl : Platform) where
  Reads-entry :
      (key : Bytes) (v : StoredValue)
      → is_utf8 key ≡ true
      → Fits key
      → IsGood fl v
      → IsStorable fl v
      → Reads
          (read_entry fl (value_type v))
          (write_bytes key ++ write_value fl v)
          (key, reread fl v)
  unfolding read_entry
  Reads-entry key v x f g h =
      then-Reads read_string_bytes _ (write_bytes key) (write_value fl v) key (key, reread fl v)
        (read_string_bytes-write_bytes key f)
        (rw (from_utf8_lossy-valid key x) (
          then_wraps (λ w. (key, w)) (read_value fl (value_type v)) (write_value fl v) (reread fl v)
            (read_value-write_value fl v g h)))

  record_of_type :
      (v : StoredValue) (pos : ℕ) (buf : Bytes)
      → read_record fl (value_type v) pos buf
        ≡ then_read (read_entry fl (value_type v) pos buf) (λ e. got (put e.0 e.1))
  unfolding read_record
  record_of_type (string b) pos buf = refl
  record_of_type (list xs) pos buf = refl
  record_of_type (set ms) pos buf = refl
  record_of_type (hash map) pos buf = refl
  record_of_type (sorted_set scores tree) pos buf = refl

  pub Reads-put :
      (key : Bytes) (v : StoredValue)
      → is_utf8 key ≡ true
      → Fits key
      → IsGood fl v
      → IsStorable fl v
      → Reads
          (read_record fl (value_type v))
          (write_bytes key ++ write_value fl v)
          (put key (reread fl v))
  Reads-put key v x f g h pos rest =
      record_of_type v pos ((write_bytes key ++ write_value fl v) ++ rest)
      ∙ then_wraps (λ e. put e.0 e.1) (read_entry fl (value_type v))
          (write_bytes key ++ write_value fl v) (key, reread fl v) (Reads-entry key v x f g h) pos
          rest

  Reads-typed :
      (key : Bytes) (v : StoredValue)
      → is_utf8 key ≡ true
      → Fits key
      → IsGood fl v
      → IsStorable fl v
      → Reads (read_typed_entry fl) (write_entry fl key v) (key, reread fl v)
  unfolding read_typed_entry
  Reads-typed key v x f g h pos rest =
      Reads-entry key v x f g h (pos + 1) rest
      ∙ ap (λ n. got (key, reread fl v) n rest) (omega arith)

  pub Reads-put_until :
      (key : Bytes) (v : StoredValue) (ms : ℕ)
      → ms ≤ max_u64
      → is_utf8 key ≡ true
      → Fits key
      → IsGood fl v
      → IsStorable fl v
      → Reads
          (read_record fl op_expire_time_ms)
          (to_le_bytes 8 ms ++ write_entry fl key v)
          (put_until ms key (reread fl v))
  unfolding read_record to_le_bytes
  Reads-put_until key v ms b x f g h pos rest =
      let then_put : ℕ → Read (Bytes × StoredValue) → Read Action =
        λ n r. then_read r (λ e. got (put_until n e.0 e.1)) in
      passed _ _ (ltb (length (to_le_bytes 8 ms ++ (write_entry fl key v ++ rest))) 8)
        (ground arith)
      ∙ ap (then_put (from_le_bytes (to_le_bytes 8 ms))) (Reads-typed key v x f g h (pos + 8) rest)
      ∙ ap (λ n. got (put_until n key (reread fl v)) (pos + 8 + length (write_entry fl key v)) rest)
          (le_eight ms b)
      ∙ ap (λ n. got (put_until ms key (reread fl v)) n rest) (omega arith)

module _ (fl : Platform) (wall : ℕ) (at : Instant) where
  -- The loop, at these bytes and whatever comes behind them, goes on behind them from this store.
  -- It has a round left for each byte, and still does.
  abbrev pub Loads : Bytes → Store → Store → Type 0
  Loads w t u =
      (f pos : ℕ) (rest : Bytes)
      → length (w ++ rest) < f
      → (f' : ℕ) × (pos' : ℕ) × (length rest < f')
        × (load_loop f fl wall at pos (w ++ rest) t ≡ load_loop f' fl wall at pos' rest u)

  pub Loads-nil : (t : Store) → Loads [] t t
  Loads-nil t f pos rest h = (f, pos, h, refl)

  pub Loads-append : (w x : Bytes) (t u v : Store) → Loads w t u → Loads x u v → Loads (w ++ x) t v
  Loads-append w x t u v h k f pos rest b =
      let (f', pos', b', e) = h f pos (x ++ rest) (rw append_assoc at b) in
      let (f'', pos'', b'', e') = k f' pos' rest b' in (f'', pos'', b'', rw append_assoc (e ∙ e'))

  abbrev pub Goes : Action → Type 0
  Goes stop = ⊥
  Goes _ = Unit

  Goes-on :
      (a : Action) (pos : ℕ) (rest : Bytes) (next : ℕ → Bytes → Store → Store × Loaded) (t : Store)
      → Goes a
      → on_record wall at (got a pos rest) next t ≡ next pos rest (apply wall at a t)
  Goes-on stop pos rest next t g = absurd g
  Goes-on skip pos rest next t g = refl
  Goes-on (put k v) pos rest next t g = refl
  Goes-on (put_until ms k v) pos rest next t g = refl

  pub one_record :
      (op : ℕ) (w : Bytes) (a : Action) (t : Store)
      → Goes a
      → Reads (read_record fl op) w a
      → Loads (op ∷ w) t (apply wall at a t)
  unfolding load_loop
  one_record op w a t g h zero pos rest b = absurd (omega arith)
  one_record op w a t g h (suc f) pos rest b = (
    f,
    pos + 1 + length w,
    omega (arith, length-append w rest),
    rw (h (pos + 1) rest) (Goes-on a _ rest _ t g),
  )

  pub Loads-aux : (key v : Bytes) (t : Store) → Fits key → Fits v → Loads (write_aux key v) t t
  unfolding write_aux read_record apply
  Loads-aux key v t f g = one_record op_aux (write_bytes key ++ write_bytes v) skip t tt (
      then-Reads read_string_bytes _ (write_bytes key) (write_bytes v) key skip
        (read_string_bytes-write_bytes key f)
        (then_wraps (λ _. skip) read_string_bytes (write_bytes v) v
          (read_string_bytes-write_bytes v g)))

  pub Loads-select : (t : Store) → Loads (op_select_db ∷ write_length 0) t t
  unfolding read_record apply
  Loads-select t = one_record op_select_db (write_length 0) skip t tt (
      then_wraps (λ _. skip) read_length (write_length 0) 0
        (read_length-write_length 0 (omega arith)))

  pub Loads-resize :
      (n m : ℕ) (t : Store)
      → n ≤ max_u64
      → m ≤ max_u64
      → Loads (op_resize_db ∷ write_length n ++ write_length m) t t
  unfolding read_record apply
  Loads-resize n m t h k = one_record op_resize_db (write_length n ++ write_length m) skip t tt (
      then-Reads read_length _ (write_length n) (write_length m) n skip
        (read_length-write_length n h)
        (then_wraps (λ _. skip) read_length (write_length m) m (read_length-write_length m k)))

  pub loads_end :
      (f pos : ℕ) (t : Store)
      → length trailer < f
      → load_loop f fl wall at pos trailer t ≡ (t, loaded)
  unfolding load_loop read_record
  loads_end zero pos t h = absurd (omega arith)
  loads_end (suc f) pos t h = refl
