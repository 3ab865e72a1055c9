-- ===== src/Persistence/Rdb/Entries.antt =====
-- The entries of a snapshot file (src/persistence/rdb.rs), loaded one after the other.
use fire_redis.Prelude.{
  ℕ, ◌+◌, ◌-◌, ◌≡◌, refl, ◌∙◌, true, none, some, Option, [], ◌∷◌, ◌++◌, Bytes, ltb, leb, beq_refl,
  All, if◌then◌else◌, arith, Bool-cases, inl, inr,
}
use fire_redis.Dict
use fire_redis.Dict.{Dict}
use fire_redis.Dict.Laws.{NoDup, get-insert}
use fire_redis.Utf8.{is_utf8}
use fire_redis.Platform.{Platform}
use fire_redis.Store
use fire_redis.Store.{
  StoredValue, string, list, set, hash, sorted_set, Store, Instant, from_millis, with_metrics,
  restore, set_with_ttl, set_deadline,
}
use fire_redis.Keeps.Frame.{SameAt}
use fire_redis.Keeps.Valid.{IsGood}
use fire_redis.Persistence.Entries.{
  Holds, Leaves, Free, Free-Leaves, After, After-split, SameAt-trans,
}
use fire_redis.Persistence.Rdb.{
  op_expire_time_ms, to_le_bytes, value_type, write_entry, expire_at_ms, save_entry, save_entries,
}
use fire_redis.Persistence.Rdb.Reader.{put, put_until, apply}
use fire_redis.Persistence.Rdb.RoundTrip.{Fits, IsStorable, reread}
use fire_redis.Persistence.Rdb.Records.{
  Reads-put, Reads-put_until, Loads, Loads-nil, Loads-append, one_record,
}

-- An entry that the format can hold.
abbrev pub CanStore : Platform → Bytes → StoredValue → Type 0
CanStore fl k v = (is_utf8 k ≡ true) × Fits k × IsStorable fl v

-- The file was written at `now`, `wall` on the wall clock; it is loaded at `at`, `clock` on it.
module _ (fl : Platform) (wall : ℕ) (now : Instant) (clock : ℕ) (at : Instant) where
  -- Whether an entry with this deadline comes back, and with which deadline.
  abbrev pub renewed : Option Instant → Option (Option Instant)
  renewed none = some none
  renewed (some d) =
      if leb d now
      then none
      else if ltb clock (expire_at_ms wall now d)
      then some (some (at + from_millis (expire_at_ms wall now d - clock)))
      else none

  abbrev pub Shown : Option (Option Instant) → Bytes → StoredValue → Store → Store → Type 0
  Shown none k v t u = SameAt k t u
  Shown (some deadline) k v t u =
      (Dict.get u.entries k ≡ some (reread fl v)) × (Dict.get u.expirations k ≡ deadline)

  abbrev restored : Bytes → StoredValue → Option (Option Instant) → Store → Store
  restored k v none t = t
  restored k v (some none) t = restore k (reread fl v) t
  restored k v (some (some d)) t = set_deadline k d (Store.write k (reread fl v) t)

  Loads-entry :
      (k : Bytes) (v : StoredValue) (o : Option Instant) (t : Store)
      → IsGood fl v
      → CanStore fl k v
      → Loads fl clock at (save_entry fl wall now k v o) t (restored k v (renewed o) t)
  unfolding apply restore set_with_ttl
  Loads-entry k v none t g (x, f, h) =
      one_record fl clock at (value_type v) _ (put k (reread fl v)) t tt (Reads-put fl k v x f g h)
  Loads-entry k v (some d) t g (x, f, h) = elim (Bool-cases (leb d now)) [
    | inl late ↦ rw late (Loads-nil fl clock at t)
    | inr live ↦
        let e : ℕ = expire_at_ms wall now d in
        let w : Bytes = to_le_bytes 8 e ++ write_entry fl k v in
        let r =
          one_record fl clock at op_expire_time_ms w (put_until e k (reread fl v)) t tt
            (Reads-put_until fl k v e (omega arith) x f g h) in
        elim (Bool-cases (ltb clock e)) [
          | inl there ↦ rw live (rw there (rw there at r))
          | inr gone ↦ rw live (rw gone (rw gone at r))
        ]
  ]

  Leaves-entry :
      (k : Bytes) (v : StoredValue) (o : Option (Option Instant)) (t : Store)
      → Leaves k t (restored k v o t)
  unfolding restore
  Leaves-entry k v none t j ne = (refl, refl)
  Leaves-entry k v (some none) t j ne = (rw get-insert (rw ne refl), refl)
  Leaves-entry k v (some (some d)) t j ne = (rw get-insert (rw ne refl), rw get-insert (rw ne refl))

  shows_entry :
      (k : Bytes) (v : StoredValue) (o : Option (Option Instant)) (t : Store)
      → Holds k none t
      → Shown o k v t (restored k v o t)
  unfolding restore
  shows_entry k v none t h = (refl, refl)
  shows_entry k v (some none) t h = (rw get-insert (rw (beq_refl k) refl), h.1)
  shows_entry k v (some (some d)) t h =
      (rw get-insert (rw (beq_refl k) refl), rw get-insert (rw (beq_refl k) refl))

  Shown-before :
      (o : Option (Option Instant)) (k : Bytes) (v : StoredValue) (t u w : Store)
      → SameAt k t u
      → Shown o k v u w
      → Shown o k v t w
  Shown-before none k v t u w h b = SameAt-trans k t u w h b
  Shown-before (some d) k v t u w h b = b

  Shown-behind :
      (o : Option (Option Instant)) (k : Bytes) (v : StoredValue) (t u w : Store)
      → Shown o k v t u
      → SameAt k u w
      → Shown o k v t w
  Shown-behind none k v t u w b h = SameAt-trans k t u w b h
  Shown-behind (some d) k v t u w (e, x) h = (h.0 ∙ e, h.1 ∙ x)

  -- The entry of a key, restored from a store.
  abbrev pub Back : Dict Instant → Bytes → StoredValue → Store → Store → Type 0
  Back expirations k v t u = Shown (renewed (Dict.get expirations k)) k v t u

  pub Loads-entries :
      (d : Dict StoredValue) (expirations : Dict Instant) (t : Store)
      → NoDup d
      → All (λ e. IsGood fl e.1 × CanStore fl e.0 e.1) d
      → Free d t
      → (u : Store) × Loads fl clock at (save_entries fl wall now d expirations) t u
        × ((j : Bytes) → After (Back expirations) j (Dict.get d j) t u)
  unfolding save_entries Dict.get
  Loads-entries [] expirations t n r f = (t, Loads-nil fl clock at t, λ j. (refl, refl))
  Loads-entries ((k, v) ∷ d) expirations t n ((good, can), r) (h, f) =
      let o : Option Instant = Dict.get expirations k in
      let u : Store = restored k v (renewed o) t in
      let (w, l, after) =
        Loads-entries d expirations u n.1 r
          (Free-Leaves d k t u n.0 (Leaves-entry k v (renewed o) t) f) in
      (
        w,
        Loads-append fl clock at (save_entry fl wall now k v o) _ t u w
            (Loads-entry k v o t good can) l,
        After-split (Back expirations) (λ j x. Shown-before (renewed (Dict.get expirations j)) j x)
            (λ j x. Shown-behind (renewed (Dict.get expirations j)) j x) d k v t u w n.0
            (shows_entry k v (renewed o) t h) (Leaves-entry k v (renewed o) t) after,
      )
