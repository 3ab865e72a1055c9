-- ===== src/Keeps.antt =====
-- What the operations on one key keep: a predicate on stores that the changes of that key's entry
-- and deadline keep is kept by every method of src/store.
pub mod Keys
pub mod Values
pub mod Collections
pub mod Named
pub mod Commands
pub mod Frame
pub mod Loops
pub mod Valid
pub mod Parsers
pub mod Requests
pub mod Scores
pub mod Reads
pub mod Unlogged
use fire_redis.Prelude.{◌≡◌, Bool, true, false, Option, none, some, Bytes}
use fire_redis.Dict
use fire_redis.Store.{StoredValue, Store, Instant, write, forget, set_deadline, clear_deadline}

-- `Q` holds of the values that may be written, and of the value that stands at the key.
pub record Closed (Q : StoredValue → Type 0) (P : Store → Type 0) (key : Bytes) : Type 0 where
  pub on_forget : (s : Store) → P s → P (forget key s)
  pub on_write : (s : Store) (v : StoredValue) → Q v → P s → P (write key v s)
  pub on_deadline :
      (s : Store) (t : Instant)
      → Dict.contains_key s.entries key ≡ true
      → P s
      → P (set_deadline key t s)
  pub on_clear : (s : Store) → P s → P (clear_deadline key s)
  pub on_read : (s : Store) (v : StoredValue) → Dict.get s.entries key ≡ some v → P s → Q v
