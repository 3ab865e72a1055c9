-- ===== src/Decimal.antt =====
-- Decimal text: `to_string` of the unsigned and signed 64-bit integers, and `str::parse::<u64>`,
-- `str::parse::<i64>`. The laws are in Decimal/RoundTrip.
pub mod RoundTrip
use fire_redis.Prelude.{
  ℕ, zero, suc, ◌+◌, ◌-◌, ◌*◌, ◌/◌, ◌%◌, ◌^◌, Bool, ◌&&◌, Option, none, some, [], ◌∷◌, ◌++◌, Bytes,
  ltb, leb, ◌==◌, if◌then◌else◌, ℤ, pos, negsuc, max_i64, max_u64,
}

-- The digits of `n`, the last one behind the others; `fuel` bounds their number.
unfoldable pub digits : ℕ → ℕ → Bytes
digits zero n = []
digits (suc fuel) n =
    let longer = digits fuel (n / 10) ++ (b'0' + n % 10) ∷ [] in
    if ltb n 10 then (b'0' + n % 10) ∷ [] else longer

unfoldable pub to_string : ℕ → Bytes
unfolding digits
to_string n = digits (suc n) n

unfoldable pub i64_to_string : ℤ → Bytes
unfolding to_string
i64_to_string (pos n) = to_string n
i64_to_string (negsuc n) = b'-' ∷ to_string (suc n)

abbrev pub is_digit : ℕ → Bool
is_digit c = leb b'0' c && leb c b'9'

unfoldable pub parse_digits : Bytes → ℕ → Option ℕ
parse_digits [] acc = some acc
parse_digits (c ∷ s) acc = if is_digit c then parse_digits s (acc * 10 + (c - b'0')) else none

-- At least one digit, and nothing else. No bound yet.
unfoldable pub parse_nat : Bytes → Option ℕ
unfolding parse_digits
parse_nat [] = none
parse_nat (c ∷ s) = parse_digits (c ∷ s) 0

-- The overflow of the accumulator is an error, as is a value out of range.
abbrev pub at_most : ℕ → Option ℕ → Option ℕ
at_most limit none = none
at_most limit (some n) = if leb n limit then some n else none

unfoldable pub parse_u64 : Bytes → Option ℕ
unfolding parse_nat
parse_u64 [] = none
parse_u64 (c ∷ s) = at_most max_u64 (if c == b'+' then parse_nat s else parse_nat (c ∷ s))

abbrev pub positive : Option ℕ → Option ℤ
positive none = none
positive (some n) = some (pos n)

abbrev pub negative : Option ℕ → Option ℤ
negative none = none
negative (some zero) = some (pos 0)
negative (some (suc n)) = some (negsuc n)

unfoldable pub parse_i64 : Bytes → Option ℤ
unfolding parse_nat
parse_i64 [] = none
parse_i64 (c ∷ s) =
    if c == b'-'
    then negative (at_most (2 ^ 63) (parse_nat s))
    else positive (at_most max_i64 (if c == b'+' then parse_nat s else parse_nat (c ∷ s)))
