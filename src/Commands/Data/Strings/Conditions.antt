-- ===== src/Commands/Data/Strings/Conditions.antt =====
-- The conditions of SET, in `handle_set` of src/commands/data.rs.
use fire_redis.Prelude.{
  ℕ, ◌≡◌, ◌≤◌, refl, true, false, Option, none, some, Bytes, codes, if◌then◌else◌, returns, arith,
  beq_iff,
}
use fire_redis.Dict.{is_some}
use fire_redis.Dict.Laws.{get-remove}
use fire_redis.Resp.{simple_string, null}
use fire_redis.Store
use fire_redis.Store.{StoredValue, Store, Instant}
use fire_redis.Store.Expiry.{visible}
use fire_redis.Store.Strings
use fire_redis.Commands.Types.{SetCondition, always, nx, xx}
use fire_redis.Commands.Data.Replies.{Handled}
use fire_redis.Commands.Data.Strings.{handle_set, permits}
use fire_redis.Store.Strings.Reads.{lives, get-set}
use fire_redis.Keeps.Unlogged.{visible-check}

-- OK, and GET reads the new value until its expiry.
abbrev pub Succeeds : Instant → Instant → Bytes → Bytes → Option ℕ → Handled → Type 0
Succeeds now t key v px (s, reply) =
    (reply ≡ returns (simple_string (codes "OK")))
    × ((Strings.get t key s).1 ≡ (if lives now t px then some v else none))

-- Null, and a client sees what it saw, at every key and at every later time.
abbrev pub IsRefused : Instant → Store → Handled → Type 0
IsRefused now before (s, reply) =
    (reply ≡ returns null)
    × ((u : Instant) (j : Bytes) → now ≤ u → visible u j s ≡ visible u j before)

-- What the condition asks of the value that a client sees at the key: NX of none, XX of some.
abbrev pub Decides : SetCondition → Option StoredValue → Type 0 → Type 0 → Type 0
Decides always seen Sets Refuses = Sets
Decides nx none Sets Refuses = Sets
Decides nx (some v) Sets Refuses = Refuses
Decides xx none Sets Refuses = Refuses
Decides xx (some v) Sets Refuses = Sets

exists-visible :
    (now : Instant) (key : Bytes) (s : Store)
    → (Store.exists now key s).1 ≡ is_some (visible now key s)
unfolding Store.exists Store.check_expiration visible
exists-visible now key s = ground (arith, get-remove s.entries key key, beq_iff key key)

module _ (now t : Instant) (key v : Bytes) (px : Option ℕ) (s : Store) where
  sets :
      (c : SetCondition)
      → permits c (Store.exists now key s).1 ≡ true
      → Succeeds now t key v px (handle_set now key v px c s)
  unfolding handle_set
  sets c met = rw met (refl, get-set now t key v px (Store.exists now key s).0)

  refuses :
      (c : SetCondition)
      → permits c (Store.exists now key s).1 ≡ false
      → IsRefused now s (handle_set now key v px c s)
  unfolding handle_set Store.exists
  refuses c unmet = rw unmet (refl, λ u j le. visible-check now u key j s le)

  by_value :
      (c : SetCondition) (seen : Option StoredValue)
      → (Store.exists now key s).1 ≡ is_some seen
      → Decides c seen
          (Succeeds now t key v px (handle_set now key v px c s))
          (IsRefused now s (handle_set now key v px c s))
  by_value always seen e = sets always refl
  by_value nx none e = sets nx (rw e refl)
  by_value nx (some w) e = refuses nx (rw e refl)
  by_value xx none e = refuses xx e
  by_value xx (some w) e = sets xx e

  -- SET with NX where a client sees no value at the key, with XX where it sees one, or with neither
  -- answers OK, and GET then reads the new value until its expiry. In the other two cases it answers null,
  -- and from its time on clients see at every key what they saw.
  pub handle_set-Decides :
      (c : SetCondition)
      → Decides c
          (visible now key s)
          (Succeeds now t key v px (handle_set now key v px c s))
          (IsRefused now s (handle_set now key v px c s))
  handle_set-Decides c = by_value c (visible now key s) (exists-visible now key s)
