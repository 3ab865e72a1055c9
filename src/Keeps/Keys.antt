-- ===== src/Keeps/Keys.antt =====
-- The operations of src/store/mod.rs and src/store/string.rs keep what `Closed` keeps.
use fire_redis.Prelude.{
  ℕ, ◌+◌, ◌≡◌, refl, sym, Bool, true, false, Bytes, arith, inl, inr, Option-cases, subst,
}
use fire_redis.Dict
use fire_redis.Dict.{is_some}
use fire_redis.Dict.Laws.{insert-insert, remove-insert}
use fire_redis.Store
use fire_redis.Store.{
  StoredValue, string, Store, Instant, write, forget, write_or_forget, check_expiration,
  set_expiration, or_insert, exists, type_of, expire, pttl, ttl, is_due,
}
use fire_redis.Store.Strings
use fire_redis.Keeps.{Closed}

pub write-write :
    (key : Bytes) (v w : StoredValue) (s : Store) → write key w (write key v s) ≡ write key w s
write-write key v w s = λ i. record s { entries = insert-insert s.entries key v w i }

forget-write :
    (key : Bytes) (v : StoredValue) (s : Store) → forget key (write key v s) ≡ forget key s
forget-write key v s = λ i. record s {
  entries = remove-insert s.entries key v i;
  expirations = Dict.remove s.expirations key;
}

module _ {Q : StoredValue → Type 0} {P : Store → Type 0} {key : Bytes} (c : Closed Q P key) where
  pub check_keeps : (now : Instant) (s : Store) → P s → P (check_expiration now key s).0
  unfolding check_expiration
  check_keeps now s p = ground (arith, c.on_forget s)

  pub write_or_forget_keeps :
      (s : Store) (v : StoredValue) (empty : Bool)
      → (empty ≡ false → Q v)
      → P s
      → P (write_or_forget key v empty s)
  write_or_forget_keeps s v true q p = subst P (sym (forget-write key v s)) (c.on_forget s p)
  write_or_forget_keeps s v false q p = c.on_write s v (q refl) p

  -- A value written over a default that was just inserted.
  pub overwrite_keeps :
      (s : Store) (v w : StoredValue) → Q w → P s → P (write key w (write key v s))
  overwrite_keeps s v w q p = subst P (sym (write-write key v w s)) (c.on_write s w q p)

  pub exists_keeps : (now : Instant) (s : Store) → P s → P (exists now key s).0
  unfolding exists
  exists_keeps now s p = check_keeps now s p

  pub type_of_keeps : (now : Instant) (s : Store) → P s → P (type_of now key s).0
  unfolding type_of
  type_of_keeps now s p = ground (arith, c.on_forget s)

  pub pttl_keeps : (now : Instant) (s : Store) → P s → P (pttl now key s).0
  unfolding pttl
  pttl_keeps now s p = ground (arith, c.on_forget s)

  pub ttl_keeps : (now : Instant) (s : Store) → P s → P (ttl now key s).0
  unfolding ttl
  ttl_keeps now s p = ground (arith, c.on_forget s)

  pub expire_keeps : (now : Instant) (ms : ℕ) (s : Store) → P s → P (expire now key ms s).0
  unfolding expire
  expire_keeps now ms s p =
      ground (arith, c.on_forget s, c.on_deadline s (now + Store.from_millis ms))

  pub get_keeps : (now : Instant) (s : Store) → P s → P (Strings.get now key s).0
  unfolding Strings.get
  get_keeps now s p = ground (arith, c.on_forget s)

  pub strlen_keeps : (now : Instant) (s : Store) → P s → P (Strings.strlen now key s).0
  unfolding Strings.strlen
  strlen_keeps now s p = ground (arith, c.on_forget s)

  -- The two ways through `entry(key).or_insert_with`: an old value, or the default just inserted.
  pub or_insert_keeps :
      (d : StoredValue) (step : StoredValue → Store → Store) (s : Store)
      → ((v : StoredValue) → Q v → P s → P (step v s))
      → (P s → P (step d (write key d s)))
      → P s
      → P (step (or_insert key d s).1 (or_insert key d s).0)
  unfolding or_insert
  or_insert_keeps d step s old fresh p = elim (Option-cases (Dict.get s.entries key)) [
    | inl e ↦ rw e (fresh p)
    | inr (v, e) ↦ rw e (old v (c.on_read s v e p) p)
  ]
