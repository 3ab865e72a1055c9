-- ===== src/Decimal/RoundTrip.antt =====
-- Every integer is read back from its decimal text.
use fire_redis.Prelude.{
  ℕ, zero, suc, ◌+◌, ◌-◌, ◌*◌, ◌/◌, ◌%◌, ◌≤◌, ◌<◌, ◌≡◌, ◌≢◌, refl, some, [], ◌∷◌, ◌++◌, Bytes, ℤ,
  pos, negsuc, IsI64, max_i64, max_u64, All, length, length-append, arith, All-append,
}
use fire_redis.Decimal.{
  digits, to_string, i64_to_string, parse_digits, parse_nat, parse_u64, parse_i64,
}

-- A digit behind others.
parse_digits-append :
    (s : Bytes) (acc n d : ℕ)
    → d < 10
    → parse_digits s acc ≡ some n
    → parse_digits (s ++ (b'0' + d) ∷ []) acc ≡ some (n * 10 + d)
unfolding parse_digits
parse_digits-append [] acc n d h e = ground arith
parse_digits-append (c ∷ s) acc n d h e =
    ground (arith, parse_digits-append s (acc * 10 + (c - b'0')) n d h)

parse_digits-digits : (fuel n : ℕ) → n < fuel → parse_digits (digits fuel n) 0 ≡ some n
unfolding digits parse_digits
parse_digits-digits zero n h = absurd (omega arith)
parse_digits-digits (suc fuel) n h = ground (
  arith,
  parse_digits-digits fuel (n / 10),
  parse_digits-append (digits fuel (n / 10)) 0 (n / 10) (n % 10),
)

abbrev pub IsDigit : ℕ → Type 0
IsDigit c = (b'0' ≤ c) × (c ≤ b'9')

digits-IsDigit : (fuel n : ℕ) → All IsDigit (digits fuel n)
unfolding digits
digits-IsDigit zero n = tt
digits-IsDigit (suc fuel) n =
    let last : All IsDigit ((b'0' + n % 10) ∷ []) = ((omega arith, omega arith), tt) in
    ground (
      arith,
      last,
      All-append IsDigit (digits fuel (n / 10)) ((b'0' + n % 10) ∷ [])
          (digits-IsDigit fuel (n / 10)) last,
    )

append-ne-nil : (s : Bytes) (c : ℕ) → s ++ c ∷ [] ≢ []
append-ne-nil [] c e = cc
append-ne-nil (d ∷ s) c e = cc

digits-ne-nil : (fuel n : ℕ) → digits (suc fuel) n ≢ []
unfolding digits
digits-ne-nil fuel n = ground (arith, append-ne-nil (digits fuel (n / 10)) (b'0' + n % 10))

-- The text of a number is made of digits.
pub to_string-IsDigit : (n : ℕ) → All IsDigit (to_string n)
unfolding to_string
to_string-IsDigit n = digits-IsDigit (suc n) n

parse_u64-digits :
    (s : Bytes) (n : ℕ)
    → All IsDigit s
    → s ≢ []
    → parse_digits s 0 ≡ some n
    → n ≤ max_u64
    → parse_u64 s ≡ some n
unfolding parse_u64
parse_u64-digits [] n d h e fits = absurd (h refl)
parse_u64-digits (c ∷ s) n d h e fits = ground arith

parse_nat-digits : (s : Bytes) (n : ℕ) → s ≢ [] → parse_digits s 0 ≡ some n → parse_nat s ≡ some n
unfolding parse_nat
parse_nat-digits [] n h e = absurd (h refl)
parse_nat-digits (c ∷ s) n h e = e

-- Every number is read back from its text.
pub parse_nat-to_string : (n : ℕ) → parse_nat (to_string n) ≡ some n
unfolding to_string
parse_nat-to_string n =
    parse_nat-digits (digits (suc n) n) n (digits-ne-nil n n)
      (parse_digits-digits (suc n) n (omega arith))

-- Every u64 is read back from its text.
pub parse_u64-to_string : (n : ℕ) → n ≤ max_u64 → parse_u64 (to_string n) ≡ some n
unfolding to_string
parse_u64-to_string n =
    parse_u64-digits (digits (suc n) n) n (digits-IsDigit (suc n) n) (digits-ne-nil n n)
      (parse_digits-digits (suc n) n (omega arith))

parse_i64-digits :
    (s : Bytes) (n : ℕ)
    → All IsDigit s
    → s ≢ []
    → parse_digits s 0 ≡ some n
    → n ≤ max_i64
    → parse_i64 s ≡ some (pos n)
unfolding parse_i64
parse_i64-digits [] n d h e fits = absurd (h refl)
parse_i64-digits (c ∷ s) n d h e fits = ground arith

parse_i64-minus :
    (s : Bytes) (n : ℕ)
    → s ≢ []
    → parse_digits s 0 ≡ some (suc n)
    → n ≤ max_i64
    → parse_i64 (b'-' ∷ s) ≡ some (negsuc n)
unfolding parse_i64
parse_i64-minus [] n h e fits = absurd (h refl)
parse_i64-minus (c ∷ s) n h e fits = ground arith

-- Every i64 is read back from its text.
pub parse_i64-i64_to_string : (i : ℤ) → IsI64 i → parse_i64 (i64_to_string i) ≡ some i
unfolding i64_to_string
parse_i64-i64_to_string (pos n) =
    parse_i64-digits (digits (suc n) n) n (digits-IsDigit (suc n) n) (digits-ne-nil n n)
      (parse_digits-digits (suc n) n (omega arith))
parse_i64-i64_to_string (negsuc n) =
    parse_i64-minus (digits (suc (suc n)) (suc n)) n (digits-ne-nil (suc n) (suc n))
      (parse_digits-digits (suc (suc n)) (suc n) (omega arith))

-- The bytes of a signed number are ASCII, and no line break is among them.
abbrev pub IsPlain : ℕ → Type 0
IsPlain c = (c ≢ 13) × (c < 0x80)

IsPlain-digits : (s : Bytes) → All IsDigit s → All IsPlain s
IsPlain-digits [] h = tt
IsPlain-digits (c ∷ s) h = (((omega arith), (omega arith)), IsPlain-digits s h.1)

pub to_string-IsPlain : (n : ℕ) → All IsPlain (to_string n)
to_string-IsPlain n = IsPlain-digits (to_string n) (to_string-IsDigit n)

pub i64_to_string-IsPlain : (i : ℤ) → All IsPlain (i64_to_string i)
unfolding i64_to_string
i64_to_string-IsPlain (pos n) = to_string-IsPlain n
i64_to_string-IsPlain (negsuc n) = ((omega arith, omega arith), to_string-IsPlain (suc n))

length-digits : (fuel n : ℕ) → length (digits fuel n) ≤ fuel
unfolding digits
length-digits zero n = omega arith
length-digits (suc fuel) n = ground (
  arith,
  length-digits fuel (n / 10),
  length-append (digits fuel (n / 10)) ((b'0' + n % 10) ∷ []),
)

pub length-to_string : (n : ℕ) → length (to_string n) ≤ n + 1
unfolding to_string
length-to_string n = omega (arith, length-digits (suc n) n)
