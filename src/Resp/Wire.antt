-- ===== src/Resp/Wire.antt =====
-- The values that RESP can carry (src/resp.rs), and their lines as the encoder writes them.
use fire_redis.Prelude.{
  ℕ, zero, suc, ◌+◌, ◌≤◌, ◌<◌, ◌≡◌, ◌≢◌, ◌∙◌, refl, sym, ap, none, some, [], ◌∷◌, ◌++◌, Bytes,
  length, length-append, drop, take-append_self, drop-append_self, append_assoc, append-nil,
  beq_refl, crlf, ltb_no, ℤ, pos, IsI64, max_i64, arith, All, true,
}
use fire_redis.Decimal.{to_string, i64_to_string}
use fire_redis.Decimal.RoundTrip.{IsPlain, i64_to_string-IsPlain, parse_i64-i64_to_string}
use fire_redis.Utf8.{is_utf8, is_utf8-ascii}
use fire_redis.Resp.{
  Value, Values, simple_string, error, integer, bulk_string, array, null_array, null, nil, cons,
  RespError, Parse, parsed, find_crlf, parse_line, with_line, with_i64, bulk_body, encode,
  encode_items, count,
}
use fire_redis.Resp.Bounds.{line_at, parse_line-cons}

mutual
  unfolding encode

  encode-append : (v : Value) (dst : Bytes) → encode v dst ≡ dst ++ encode v []
  encode-append (simple_string s) dst = refl
  encode-append (error s) dst = refl
  encode-append (integer i) dst = refl
  encode-append (bulk_string none) dst = refl
  encode-append (bulk_string (some b)) dst = simp append_assoc
  encode-append (array items) dst =
      items-append items (dst ++ (b'*' ∷ to_string (count items) ++ crlf))
      ∙ append_assoc dst (b'*' ∷ to_string (count items) ++ crlf) (encode_items items [])
      ∙ ap (λ t. dst ++ t) (sym (items-append items (b'*' ∷ to_string (count items) ++ crlf)))
  encode-append null_array dst = refl
  encode-append null dst = refl

  pub items-append : (vs : Values) (dst : Bytes) → encode_items vs dst ≡ dst ++ encode_items vs []
  items-append nil dst = sym (append-nil dst)
  items-append (cons v vs) dst =
      items-append vs (encode v dst)
      ∙ ap (λ t. t ++ encode_items vs []) (encode-append v dst)
      ∙ append_assoc dst (encode v []) (encode_items vs [])
      ∙ ap (λ t. dst ++ t) (sym (items-append vs (encode v [])))

abbrev pub NotCr : ℕ → Type 0
NotCr c = c ≢ 13

pub find_crlf-text :
    (s rest : Bytes) → All NotCr s → find_crlf (s ++ 13 ∷ 10 ∷ rest) ≡ some (length s)
unfolding find_crlf
find_crlf-text [] rest h = refl
find_crlf-text (a ∷ []) rest h = ground arith
find_crlf-text (a ∷ b ∷ s) rest h = ground (arith, find_crlf-text (b ∷ s) rest h.1)

pub line_read :
    (t : ℕ) (s rest : Bytes)
    → All NotCr s
    → parse_line ((t ∷ s ++ crlf) ++ rest) 1 ≡ some (s, 1 + length s + 2)
unfolding line_at
line_read t s rest h = rw (
  append_assoc (t ∷ s) crlf rest,
  parse_line-cons t (s ++ 13 ∷ 10 ∷ rest),
  find_crlf-text s rest h,
  take-append_self s (13 ∷ 10 ∷ rest),
)

pub plain-NotCr : (s : Bytes) → All IsPlain s → All NotCr s
plain-NotCr [] h = tt
plain-NotCr (c ∷ s) h = (h.0.0, plain-NotCr s h.1)

plain_ascii : (s : Bytes) → All IsPlain s → All (λ c. c < 0x80) s
plain_ascii [] h = tt
plain_ascii (c ∷ s) h = (h.0.1, plain_ascii s h.1)

-- A line that holds a number is read as that number.
pub number_line :
    {A : Type 0} (t : ℕ) (i : ℤ) (rest : Bytes) (e : RespError) (k : Bytes → RespError)
    (f : ℕ → ℤ → Parse A)
    → IsI64 i
    → with_line
        (parse_line ((t ∷ i64_to_string i ++ crlf) ++ rest) 1)
        (λ line n. with_i64 line e k (f n))
      ≡ f (1 + length (i64_to_string i) + 2) i
number_line t i rest e k f h =
    rw
      (line_read t (i64_to_string i) rest (plain-NotCr (i64_to_string i) (i64_to_string-IsPlain i)))
      (rw
        (is_utf8-ascii (i64_to_string i) (plain_ascii (i64_to_string i) (i64_to_string-IsPlain i)))
        (rw (parse_i64-i64_to_string i h)))

pub length-line : (t : ℕ) (s : Bytes) → length (t ∷ s ++ crlf) ≡ 1 + length s + 2
length-line t s = omega (arith, length-append s crlf)

pub bulk_read :
    (hdr b rest : Bytes)
    → bulk_body (((hdr ++ b) ++ crlf) ++ rest) (length hdr) (pos (length b))
      ≡ parsed (bulk_string (some b)) (length hdr + length b + 2)
unfolding bulk_body
bulk_read hdr b rest = rw (append_assoc (hdr ++ b) crlf rest) (
    rw
      (ltb_no (length ((hdr ++ b) ++ (crlf ++ rest))) (length hdr + length b + 2)
        (omega (arith, length-append (hdr ++ b) (crlf ++ rest), length-append hdr b)))
      (rw (← length-append hdr b) (
        rw (drop-append_self (hdr ++ b) (crlf ++ rest)) (
          rw (append_assoc hdr b (crlf ++ rest)) (
            rw (drop-append_self hdr (b ++ (crlf ++ rest)), take-append_self b (crlf ++ rest))
              (rw (beq_refl crlf)))))))

-- RESP has one null on the wire for the two null bulk strings, and one for the null array.
abbrev mutual
  pub normal : Value → Value
  normal (simple_string s) = simple_string s
  normal (error s) = error s
  normal (integer i) = integer i
  normal (bulk_string none) = null
  normal (bulk_string (some b)) = bulk_string (some b)
  normal (array items) = array (normal_items items)
  normal null_array = null
  normal null = null

  pub normal_items : Values → Values
  normal_items nil = nil
  normal_items (cons v vs) = cons (normal v) (normal_items vs)

-- A line of text: UTF-8 with no carriage return.
abbrev pub IsLine : Bytes → Type 0
IsLine s = (is_utf8 s ≡ true) × All NotCr s

-- The values that the protocol can carry: text lines, 64-bit integers, lengths of 63 bits, and
-- arrays for which the decoder can reserve room.
abbrev mutual
  pub IsWire : ℕ → Value → Type 0
  IsWire most (simple_string s) = IsLine s
  IsWire most (error s) = IsLine s
  IsWire most (integer i) = IsI64 i
  IsWire most (bulk_string none) = Unit
  IsWire most (bulk_string (some b)) = length b ≤ max_i64
  IsWire most (array items) = (count items ≤ max_i64) × (count items ≤ most) × AreWire most items
  IsWire most null_array = Unit
  IsWire most null = Unit

  pub AreWire : ℕ → Values → Type 0
  AreWire most nil = Unit
  AreWire most (cons v vs) = IsWire most v × AreWire most vs

pub number_line_nat :
    {A : Type 0} (t n : ℕ) (rest : Bytes) (e : RespError) (k : Bytes → RespError)
    (f : ℕ → ℤ → Parse A)
    → n ≤ max_i64
    → with_line
        (parse_line ((t ∷ to_string n ++ crlf) ++ rest) 1)
        (λ line m. with_i64 line e k (f m))
      ≡ f (length (t ∷ to_string n ++ crlf)) (pos n)
unfolding i64_to_string
number_line_nat t n rest e k f h =
    rw (length-line t (to_string n)) (number_line t (pos n) rest e k f h)

pub drop-drop : (a b c : ℕ) (s : Bytes) → a + b ≡ c → drop c s ≡ drop b (drop a s)
drop-drop zero b c s h = let e : c ≡ b = omega arith in rw e
drop-drop (suc a) zero zero [] h = refl
drop-drop (suc a) (suc b) zero [] h = refl
drop-drop (suc a) zero (suc c) [] h = refl
drop-drop (suc a) (suc b) (suc c) [] h = refl
drop-drop (suc a) b zero (x ∷ s) h = absurd (omega arith)
drop-drop (suc a) b (suc c) (x ∷ s) h = drop-drop a b c s (omega arith)

pub length-encode_pos : (v : Value) → 0 < length (encode v [])
unfolding encode
length-encode_pos (array items) =
    rw (items-append items (b'*' ∷ to_string (count items) ++ crlf)) (omega arith)
length-encode_pos (bulk_string none) = omega arith
length-encode_pos (bulk_string (some b)) = omega arith
length-encode_pos (simple_string s) = omega arith
length-encode_pos _ = omega arith
