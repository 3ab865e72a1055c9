-- ===== src/Platform.antt =====
-- What the code takes from the platform. An `f64` is its 64 bits: the order of the `ordered_float` crate
-- and Rust's conversions are parameters, and so are the capacities that depend on the sizes that the
-- compiler gives to types.
use fire_redis.Prelude.{ℕ, ℤ, Bool, Option, Bytes}

abbrev pub Score : Type 0
Score = ℕ

pub record Platform : Type 0 where
  -- The place of a score in the total order of `OrderedFloat`; scores of one rank are equal there.
  pub rank : Score → ℕ
  -- `str::parse::<f64>`, `f64::to_string` and `i as f64`.
  pub parse : Bytes → Option Score
  pub to_string : Score → Bytes
  pub of_i64 : ℤ → Score
  -- `isize::MAX` over the size that the compiler gives to a `Value`: for more of them
  -- `Vec::with_capacity` panics.
  pub most_values : ℕ
  -- Whether `with_capacity` of the collection that holds a value of this type in the snapshot file has
  -- room for so many elements, or panics.
  pub has_room : ℕ → ℕ → Bool
