-- ===== src/Commands/Args.antt =====
-- The conversions of one argument, and of the rest of a request, in src/commands/mod.rs.
use fire_redis.Prelude.{ℕ, Option, none, some, List, [], ◌∷◌, Bytes, codes, ℤ, pos}
use fire_redis.Decimal.{parse_u64, parse_i64}
use fire_redis.Utf8.{from_utf8_lossy}
use fire_redis.Platform.{Platform, Score}
use fire_redis.Resp.{Value, error, integer, bulk_string}

-- Rust's `Result<T, Value>`: an error is the reply.
pub data Result {ℓ} (A : Type ℓ) : Type ℓ where
  ok : A → Result A
  err : Value → Result A

infixl 5 ◌>>=◌
abbrev pub ◌>>=◌ {ℓ κ} : {A : Type ℓ} {B : Type κ} → Result A → (A → Result B) → Result B
ok a >>= f = f a
err e >>= f = err e

-- ok_or: the value, or this error.
abbrev pub or_error {ℓ} : {A : Type ℓ} → Value → Option A → Result A
or_error e none = err e
or_error e (some a) = ok a

abbrev pub not_string : Value
not_string = error (codes "ERR value is not string")

abbrev pub not_integer : Value
not_integer = error (codes "ERR value is not integer")

abbrev pub not_float : Value
not_float = error (codes "ERR value is not float")

unfoldable pub bulk_to_string : Value → Result Bytes
bulk_to_string (bulk_string (some b)) = ok (from_utf8_lossy b)
bulk_to_string _ = err not_string

unfoldable pub bulk_to_bytes : Value → Result Bytes
bulk_to_bytes (bulk_string (some b)) = ok b
bulk_to_bytes _ = err not_string

unfoldable pub bulk_to_u64 : Value → Result ℕ
bulk_to_u64 (bulk_string (some b)) = or_error not_integer (parse_u64 (from_utf8_lossy b))
bulk_to_u64 (integer (pos i)) = ok i
bulk_to_u64 _ = err not_integer

unfoldable pub bulk_to_i64 : Value → Result ℤ
bulk_to_i64 (bulk_string (some b)) = or_error not_integer (parse_i64 (from_utf8_lossy b))
bulk_to_i64 (integer i) = ok i
bulk_to_i64 _ = err not_integer

unfoldable pub bulk_to_f64 : Platform → Value → Result Score
bulk_to_f64 fl (bulk_string (some b)) = or_error not_float (fl.parse (from_utf8_lossy b))
bulk_to_f64 fl (integer i) = ok (fl.of_i64 i)
bulk_to_f64 fl _ = err not_float

-- args.iter().map(f).collect::<Result<Vec<_>, _>>(): the first error ends it.
unfoldable pub collect : {A : Type 0} → (Value → Result A) → List Value → Result (List A)
collect f [] = ok []
collect f (v ∷ vs) = do a ← f v; rest ← collect f vs; ok (a ∷ rest)

-- The loop over `args.chunks(2)`. Its callers have checked that the number of arguments is even.
unfoldable pub collect_pairs :
    {A B : Type 0} → (Value → Result A) → (Value → Result B) → List Value → Result (List (A × B))
collect_pairs f g (v ∷ w ∷ vs) = do
  a ← f v
  b ← g w
  rest ← collect_pairs f g vs
  ok ((a, b) ∷ rest)
collect_pairs f g _ = ok []
