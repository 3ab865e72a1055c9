-- ===== src/Commands/Data/Replies.antt =====
-- What the handlers of src/commands/data.rs share: the replies, `ensure_type` and the sorts. A handler
-- takes the store and returns it beside its reply, or panics.
use fire_redis.Prelude.{
  ℕ, Bool, true, false, Option, none, some, List, [], ◌∷◌, map, Bytes, codes, beq, ltb,
  if◌then◌else◌, ◌==◌, pos, as_i64, Outcome, returns, panics,
}
use fire_redis.Resp.{Value, error, integer, bulk_string, array, values_of}
use fire_redis.Store
use fire_redis.Store.{Instant, Store}

abbrev pub Handled : Type 0
Handled = Store × Outcome Value

abbrev pub answer {ℓ} : {A : Type ℓ} → (A → Value) → Store × A → Handled
answer f (s, a) = (s, returns (f a))

abbrev pub answer_outcome {ℓ} : {A : Type ℓ} → (A → Value) → Store × Outcome A → Handled
answer_outcome f (s, returns a) = (s, returns (f a))
answer_outcome f (s, panics) = (s, panics)

abbrev pub wrong_type : Value
wrong_type = error (codes "WRONGTYPE Operation against a key holding the wrong kind of value")

unfoldable pub bulk_or_null : Option Bytes → Value
bulk_or_null v = bulk_string v

abbrev pub bulk : Bytes → Value
bulk b = bulk_string (some b)

unfoldable pub bulk_array : List Bytes → Value
bulk_array items = array (values_of (map bulk items))

unfoldable pub int_bool : Bool → Value
int_bool b = integer (pos (if b then 1 else 0))

-- `n as i64` of a length.
abbrev pub integer_of : ℕ → Value
integer_of n = integer (as_i64 n)

abbrev pub type_clash : Option Bytes → Bytes → Option Value
type_clash none expected = none
type_clash (some actual) expected = if beq actual expected then none else some wrong_type

unfoldable pub ensure_type : Instant → Bytes → Bytes → Store → Store × Option Value
ensure_type now key expected s =
    let (s', actual) = Store.type_of now key s in (s', type_clash actual expected)

abbrev pub unless_error : Option Value → (Store → Handled) → Store → Handled
unless_error none f s = f s
unless_error (some e) f s = (s, returns e)

-- The first lines of a handler: the early return of `ensure_type`.
unfoldable pub typed : Bytes → Instant → Bytes → (Store → Handled) → Store → Handled
unfolding ensure_type
typed expected now key f s = let (s', e) = ensure_type now key expected s in unless_error e f s'

-- Byte order, which is the order of Rust's strings and byte strings.
unfoldable pub bytes_le : Bytes → Bytes → Bool
bytes_le [] t = true
bytes_le (b ∷ s) [] = false
bytes_le (b ∷ s) (c ∷ t) = let rest = bytes_le s t in if b == c then rest else ltb b c

-- The sorts of the program, by a key.
unfoldable pub insert_sorted {ℓ} : {A : Type ℓ} → (A → Bytes) → A → List A → List A
unfolding bytes_le
insert_sorted f a [] = a ∷ []
insert_sorted f a (x ∷ xs) =
    let later = insert_sorted f a xs in if bytes_le (f a) (f x) then a ∷ x ∷ xs else x ∷ later

unfoldable pub sort_by {ℓ} : {A : Type ℓ} → (A → Bytes) → List A → List A
unfolding insert_sorted
sort_by f [] = []
sort_by f (x ∷ xs) = insert_sorted f x (sort_by f xs)

abbrev pub sorted_bulks : List Bytes → Value
sorted_bulks items = bulk_array (sort_by (λ b. b) items)
