-- ===== src/Resp/Bounds.antt =====
-- The bounds of the parser of src/resp.rs.
use fire_redis.Prelude.{
  ℕ, zero, suc, ◌+◌, ◌-◌, ◌≤◌, ◌≡◌, refl, Option, none, some, [], ◌∷◌, Bytes, length, length-drop,
  drop, take, ℤ, pos, negsuc, ltb, arith, Bool-cases, Option-cases, inl, inr,
}
use fire_redis.Decimal.{parse_i64}
use fire_redis.Utf8.{is_utf8}
use fire_redis.Resp.{
  Value, Values, integer, invalid_integer_bytes, invalid_integer, invalid_bulk_length_bytes,
  invalid_bulk_length, invalid_array_length_bytes, invalid_array_length, array, null, need_more,
  failed, panicked, RespError, Parse, parsed, incomplete, invalid, overflow, out_of_fuel, bind,
  find_crlf, parse_line, with_line, with_i64, parse_simple_string, parse_error, parse_integer,
  bulk_body, parse_bulk_string, item_count, if_fits, parse_value, parse_array, parse_items, enough,
  decode, decoded, stuck, frame, Decoded,
}

-- The run kept within its fuel, and the bytes that it consumed lie between the two bounds.
abbrev pub Within : {A : Type 0} → ℕ → ℕ → Parse A → Type 0
Within lo hi (parsed a n) = (lo ≤ n) × (n ≤ hi)
Within lo hi incomplete = Unit
Within lo hi (invalid e) = Unit
Within lo hi overflow = Unit
Within lo hi out_of_fuel = ⊥

pub find_crlf-bound : (s : Bytes) (n : ℕ) → find_crlf s ≡ some n → n + 2 ≤ length s
unfolding find_crlf
find_crlf-bound [] n h = cc
find_crlf-bound (a ∷ []) n h = cc
find_crlf-bound (a ∷ b ∷ []) n h = ground arith
find_crlf-bound (a ∷ b ∷ c ∷ s) zero h = omega arith
find_crlf-bound (a ∷ b ∷ c ∷ s) (suc n) h = ground (arith, find_crlf-bound (b ∷ c ∷ s) n)

-- The line from the second byte on.
unfoldable pub line_at : ℕ → Bytes → Option ℕ → Option (Bytes × ℕ)
line_at t s none = none
line_at t s (some n) = some (take n s, 1 + n + 2)

pub parse_line-cons : (t : ℕ) (s : Bytes) → parse_line (t ∷ s) 1 ≡ line_at t s (find_crlf s)
unfolding parse_line line_at
parse_line-cons t s = ground arith

with_line-Within :
    {A : Type 0} (buf : Bytes) (lo : ℕ) (f : Bytes → ℕ → Parse A)
    → ((line : Bytes) (n : ℕ) → 3 ≤ n → n ≤ length buf → Within lo (length buf) (f line n))
    → Within lo (length buf) (with_line (parse_line buf 1) f)
unfolding line_at parse_line
with_line-Within [] lo f h = tt
with_line-Within (t ∷ s) lo f h = elim (Option-cases (find_crlf s)) [
  | inl e ↦ rw (parse_line-cons t s, e) tt
  | inr (n, e) ↦
      rw (parse_line-cons t s, e)
        (h _ (1 + n + 2) (omega arith) (omega (arith, find_crlf-bound s n e)))
]

with_i64-Within :
    {A : Type 0} (line : Bytes) (lo hi : ℕ) (e : RespError) (g : Bytes → RespError)
    (f : ℤ → Parse A)
    → ((i : ℤ) → Within lo hi (f i))
    → Within lo hi (with_i64 line e g f)
with_i64-Within line lo hi e g f h = elim (Bool-cases (is_utf8 line)) [
  | inl ok ↦ elim (Option-cases (parse_i64 line)) [
    | inl p ↦ rw ok (rw p tt)
    | inr (i, p) ↦ rw ok (rw p (h i))
  ]
  | inr bad ↦ rw bad tt
]

bind-Within :
    {A B : Type 0} (r : Parse A) (f : A → ℕ → Parse B) (lo mid lo' hi : ℕ)
    → Within lo mid r
    → ((a : A) (n : ℕ) → lo ≤ n → n ≤ mid → Within lo' hi (f a n))
    → Within lo' hi (bind r f)
bind-Within (parsed a n) f lo mid lo' hi h k = k a n h.0 h.1
bind-Within incomplete f lo mid lo' hi h k = tt
bind-Within (invalid e) f lo mid lo' hi h k = tt
bind-Within overflow f lo mid lo' hi h k = tt
bind-Within out_of_fuel f lo mid lo' hi h k = h

bulk_body-Within :
    (buf : Bytes) (offset : ℕ) (len : ℤ)
    → 1 ≤ offset
    → offset ≤ length buf
    → Within 1 (length buf) (bulk_body buf offset len)
unfolding bulk_body
bulk_body-Within buf offset (negsuc n) h k = (h, k)
bulk_body-Within buf offset (pos n) h k = ground arith

simple-Within :
    (buf : Bytes)
    → Within 1 (length buf) (parse_simple_string buf)
      × Within 1 (length buf) (parse_error buf)
      × Within 1 (length buf) (parse_integer buf)
      × Within 1 (length buf) (parse_bulk_string buf)
unfolding parse_simple_string parse_error parse_integer parse_bulk_string
simple-Within buf = (
  with_line-Within buf 1 _ (λ line n h k. (omega arith, k)),
  with_line-Within buf 1 _ (λ line n h k. (omega arith, k)),
  with_line-Within buf 1 _ (λ line n h k.
      with_i64-Within line 1 (length buf) invalid_integer_bytes invalid_integer
        (λ i. parsed (integer i) n) (λ i. (omega arith, k))),
  with_line-Within buf 1 _ (λ line n h k.
      with_i64-Within line 1 (length buf) invalid_bulk_length_bytes invalid_bulk_length
        (bulk_body buf n) (λ i. bulk_body-Within buf n i (omega arith) k)),
)

fits-Within :
    (most n lo hi : ℕ) (r : Parse Value) → Within lo hi r → Within lo hi (if_fits most n r)
fits-Within most n lo hi r h = elim (Bool-cases (ltb most n)) [ inl e ↦ rw e tt | inr e ↦ rw e h ]

array_body-Within :
    (most : ℕ) (buf : Bytes) (offset : ℕ) (len : ℤ) (items : ℕ → Parse Values)
    → 1 ≤ offset
    → offset ≤ length buf
    → ((n : ℕ) → Within offset (length buf) (items n))
    → Within 1 (length buf) (elim (item_count len) [
      | none ↦ parsed null offset
      | some n ↦ if_fits most n (bind (items n) λ vs end. parsed (array vs) end)
    ])
array_body-Within most buf offset (negsuc _) items lo hi h = (lo, hi)
array_body-Within most buf offset (pos n) items lo hi h = fits-Within most n 1 (length buf) _ (
    bind-Within (items n) _ offset (length buf) 1 (length buf) (h n)
      (λ vs end a b. (omega arith, b)))

mutual
  unfolding parse_value

  value-Within :
      (most f : ℕ) (buf : Bytes)
      → length buf + length buf + 3 ≤ f
      → Within 1 (length buf) (parse_value most f buf)
  value-Within most zero buf h = absurd (omega arith)
  value-Within most (suc f) [] h = tt
  value-Within most (suc f) (t ∷ s) h =
      ground (arith, simple-Within (t ∷ s), array-Within most f (t ∷ s) (omega arith))

  array-Within :
      (most f : ℕ) (buf : Bytes)
      → length buf + length buf + 2 ≤ f
      → Within 1 (length buf) (parse_array most f buf)
  array-Within most zero buf h = absurd (omega arith)
  array-Within most (suc f) buf h = with_line-Within buf 1 _ λ line n lo hi.
      with_i64-Within line 1 (length buf) invalid_array_length_bytes invalid_array_length
        (λ len. elim (item_count len) [
          | none ↦ parsed null n
          | some c ↦
              if_fits most c (bind (parse_items most f c buf n) λ vs end. parsed (array vs) end)
        ])
        λ len.
          array_body-Within most buf n len (λ count. parse_items most f count buf n) (omega arith)
            hi (λ count. items-Within most f count buf n hi (omega arith))

  items-Within :
      (most f : ℕ) (n : ℕ) (buf : Bytes) (offset : ℕ)
      → offset ≤ length buf
      → (length buf - offset) + (length buf - offset) + 4 ≤ f
      → Within offset (length buf) (parse_items most f n buf offset)
  items-Within most zero n buf offset h k = absurd (omega arith)
  items-Within most (suc f) zero buf offset h k = (omega arith, h)
  items-Within most (suc f) (suc n) buf offset h k =
      bind-Within (parse_value most f (drop offset buf)) _ 1 (length buf - offset) offset
        (length buf)
        (rw (length-drop offset buf) at
          (value-Within most f (drop offset buf) (omega (arith, length-drop offset buf))))
        (λ v c lo hi.
          bind-Within (parse_items most f n buf (offset + c)) _ (offset + c) (length buf) offset
            (length buf) (items-Within most f n buf (offset + c) (omega arith) (omega arith))
            (λ vs end a b. (omega arith, b)))

-- With the fuel that `decode` gives, the parser never runs out of it, and a frame consumes at least
-- one byte and at most the buffer.
pub parse_value-Within :
    (most : ℕ) (buf : Bytes) → Within 1 (length buf) (parse_value most (enough buf) buf)
parse_value-Within most buf = value-Within most (enough buf) buf (omega arith)

-- What a call of `decode` does to the buffer, by its result.
abbrev pub Advances : Bytes → Decoded × Bytes → Type 0
Advances src (frame v, rest) = length rest + 1 ≤ length src
Advances src (need_more, rest) = rest ≡ src
Advances src (failed e, rest) = rest ≡ src
Advances src (panicked, rest) = rest ≡ src
Advances src (stuck, rest) = ⊥

Advances-result :
    (t : ℕ) (s : Bytes) (r : Parse Value)
    → Within 1 (suc (length s)) r
    → Advances (t ∷ s) (decoded (t ∷ s) r)
Advances-result t s (parsed v n) h = omega (arith, length-drop n (t ∷ s))
Advances-result t s incomplete h = refl
Advances-result t s (invalid e) h = refl
Advances-result t s overflow h = refl
Advances-result t s out_of_fuel h = h

-- A call of `decode` returns a frame and advances the buffer by at least one byte of it, or leaves
-- the buffer as it was; it never runs out of fuel.
pub decode-Advances : (most : ℕ) (src : Bytes) → Advances src (decode most src)
unfolding decode
decode-Advances most [] = refl
decode-Advances most (t ∷ s) =
    Advances-result t s (parse_value most (enough (t ∷ s)) (t ∷ s))
      (parse_value-Within most (t ∷ s))
