-- ===== src/Persistence/Aof/Parses.antt =====
-- How `Command::try_from` reads the commands of `value_to_commands` (src/persistence/aof.rs).
use fire_redis.Prelude.{
  ℕ, ◌*◌, ◌%◌, ◌^◌, ◌≤◌, ◌<◌, ◌≡◌, refl, ap, true, none, some, List, [], ◌∷◌, map, Bytes, codes,
  All, length, arith, beq, to_ascii_uppercase, max_u64,
}
use fire_redis.Dict
use fire_redis.Dict.{Dict}
use fire_redis.Decimal.{to_string}
use fire_redis.Decimal.RoundTrip.{parse_u64-to_string, to_string-IsPlain, IsPlain}
use fire_redis.Utf8.{from_utf8_lossy, is_utf8, from_utf8_lossy-valid, is_utf8-ascii}
use fire_redis.Platform.{Platform, Score}
use fire_redis.Resp.{Value, cons, values_of, list_of}
use fire_redis.Resp.Wire.{normal_items}
use fire_redis.Commands.Types.{Command, always}
use fire_redis.Commands.Args.{
  ok, bulk_to_string, bulk_to_bytes, bulk_to_u64, bulk_to_f64, collect, collect_pairs,
}
use fire_redis.Commands.Parse.{
  try_from, parsers, parse_set, parse_key_bytes, parse_h_set, parse_z_add, parse_expire,
}
use fire_redis.Commands.SetOptions.{parse_options}
use fire_redis.Commands.Data.Replies.{bulk}
use fire_redis.Persistence.Aof.{field_args, score_args}

pub list_of-values_of : (vs : List Value) → list_of (values_of vs) ≡ vs
list_of-values_of [] = refl
list_of-values_of (v ∷ vs) = ap (λ t. v ∷ t) (list_of-values_of vs)

-- An array of bulk strings is its own normal form.
pub normal-bulks :
    (bs : List Bytes) → normal_items (values_of (map bulk bs)) ≡ values_of (map bulk bs)
normal-bulks [] = refl
normal-bulks (b ∷ bs) = ap (λ t. cons (bulk b) t) (normal-bulks bs)

string_read : (b : Bytes) → is_utf8 b ≡ true → bulk_to_string (bulk b) ≡ ok b
unfolding bulk_to_string
string_read b h = ap ok (from_utf8_lossy-valid b h)

collect-bulks : (bs : List Bytes) → collect bulk_to_bytes (map bulk bs) ≡ ok bs
unfolding collect bulk_to_bytes
collect-bulks [] = refl
collect-bulks (b ∷ bs) = rw (collect-bulks bs)

-- Keys and fields are Rust strings.
abbrev pub HasText {ℓ} : {V : Type ℓ} → Dict V → Type 0
HasText d = All (λ e. is_utf8 e.0 ≡ true) d

collect-fields :
    (d : Dict Bytes)
    → HasText d
    → collect_pairs bulk_to_string bulk_to_bytes (map bulk (field_args d)) ≡ ok d
unfolding collect_pairs field_args bulk_to_bytes
collect-fields [] h = refl
collect-fields ((f, v) ∷ d) h = rw (string_read f h.0) (rw (collect-fields d h.1))

-- A score is printed so that it reads back.
abbrev pub Prints : Platform → Score → Type 0
Prints fl x = fl.parse (from_utf8_lossy (fl.to_string x)) ≡ some x

-- ZADD takes the score first.
unfoldable pub swapped : Dict Score → List (Score × Bytes)
swapped [] = []
swapped ((m, x) ∷ scores) = (x, m) ∷ swapped scores

collect-scores :
    (fl : Platform) (d : Dict Score)
    → All (λ e. Prints fl e.1) d
    → collect_pairs (bulk_to_f64 fl) bulk_to_bytes (map bulk (score_args fl d)) ≡ ok (swapped d)
unfolding collect_pairs score_args bulk_to_bytes bulk_to_f64 swapped
collect-scores fl [] h = refl
collect-scores fl ((m, x) ∷ d) h = rw h.0 (rw (collect-scores fl d h.1))

ascii : (s : Bytes) → All IsPlain s → All (λ c. c < 0x80) s
ascii [] h = tt
ascii (c ∷ s) h = (h.0.1, ascii s h.1)

-- The number of arguments behind the key is even.
fields_even : (d : Dict Bytes) → length (map bulk (field_args d)) % 2 ≡ 0
unfolding field_args
fields_even [] = omega arith
fields_even ((f, v) ∷ d) = omega (arith, fields_even d)

scores_even : (fl : Platform) (d : Dict Score) → length (map bulk (score_args fl d)) % 2 ≡ 0
unfolding score_args
scores_even fl [] = omega arith
scores_even fl ((m, x) ∷ d) = omega (arith, scores_even fl d)

pub is_utf8-to_string : (n : ℕ) → is_utf8 (to_string n) ≡ true
is_utf8-to_string n = is_utf8-ascii (to_string n) (ascii (to_string n) (to_string-IsPlain n))

module _ (fl : Platform) (key : Bytes) (text : is_utf8 key ≡ true) where
  pub try_from-set :
      (v : Bytes)
      → try_from fl (map bulk (codes "SET" ∷ key ∷ v ∷ [])) ≡ ok (Command.set key v none always)
  unfolding try_from parsers Dict.get beq to_ascii_uppercase parse_set bulk_to_bytes parse_options
  try_from-set v = rw (from_utf8_lossy-valid key text) refl

  pub try_from-r_push :
      (x : Bytes) (xs : List Bytes)
      → try_from fl (map bulk (codes "RPUSH" ∷ key ∷ x ∷ xs)) ≡ ok (Command.r_push key (x ∷ xs))
  unfolding try_from parsers Dict.get beq to_ascii_uppercase parse_key_bytes
  try_from-r_push x xs = rw (from_utf8_lossy-valid key text) (rw (collect-bulks xs) refl)

  pub try_from-s_add :
      (x : Bytes) (xs : List Bytes)
      → try_from fl (map bulk (codes "SADD" ∷ key ∷ x ∷ xs)) ≡ ok (Command.s_add key (x ∷ xs))
  unfolding try_from parsers Dict.get beq to_ascii_uppercase parse_key_bytes
  try_from-s_add x xs = rw (from_utf8_lossy-valid key text) (rw (collect-bulks xs) refl)

  pub try_from-h_set :
      (f v : Bytes) (d : Dict Bytes)
      → HasText ((f, v) ∷ d)
      → try_from fl (map bulk (codes "HSET" ∷ key ∷ field_args ((f, v) ∷ d)))
        ≡ ok (Command.h_set key ((f, v) ∷ d))
  unfolding try_from parsers Dict.get beq to_ascii_uppercase parse_h_set field_args
  try_from-h_set f v d h = rw (fields_even d) (
      rw (from_utf8_lossy-valid key text)
        (rw (from_utf8_lossy-valid f h.0) (rw (collect-fields d h.1) refl)))

  pub try_from-z_add :
      (m : Bytes) (x : Score) (d : Dict Score)
      → All (λ e. Prints fl e.1) ((m, x) ∷ d)
      → try_from fl (map bulk (codes "ZADD" ∷ key ∷ score_args fl ((m, x) ∷ d)))
        ≡ ok (Command.z_add key (swapped ((m, x) ∷ d)))
  unfolding try_from parsers Dict.get beq to_ascii_uppercase parse_z_add score_args swapped
  try_from-z_add m x d h =
      rw (scores_even fl d)
        (rw (from_utf8_lossy-valid key text) (rw h.0 (rw (collect-scores fl d h.1) refl)))

  pub try_from-expire :
      (n : ℕ)
      → n ≤ max_u64
      → try_from fl (map bulk (codes "EXPIRE" ∷ key ∷ to_string n ∷ []))
        ≡ ok (Command.expire key (n * 1000 % 2 ^ 64))
  unfolding try_from parsers Dict.get beq to_ascii_uppercase parse_expire bulk_to_u64
  try_from-expire n h = rw (from_utf8_lossy-valid key text) (
      rw (from_utf8_lossy-valid (to_string n) (is_utf8-to_string n))
        (rw (parse_u64-to_string n h) refl))
