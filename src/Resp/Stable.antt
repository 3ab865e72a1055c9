-- ===== src/Resp/Stable.antt =====
-- The decoder does not look past a decided result: bytes that arrive later change neither a frame,
-- an error nor a panic, so how the stream is cut into reads does not matter.
use fire_redis.Prelude.{
  ℕ, zero, suc, ◌+◌, ◌≤◌, ◌<◌, ◌≡◌, refl, ap, none, some, [], ◌∷◌, ◌++◌, Bytes, length,
  length-append, length-drop, drop, take, beq, crlf, ltb, ltb_no, if◌then◌else◌, ℤ, pos, negsuc,
  arith, Bool-cases, Option-cases, inl, inr, ◌⊎◌,
}
use fire_redis.Decimal.{parse_i64}
use fire_redis.Utf8.{is_utf8}
use fire_redis.Resp.{
  Value, Values, bulk_string, missing_terminator, integer, array, null, invalid_integer_bytes,
  invalid_integer, invalid_bulk_length_bytes, invalid_bulk_length, invalid_array_length_bytes,
  invalid_array_length, RespError, Parse, parsed, incomplete, invalid, overflow, out_of_fuel, bind,
  find_crlf, parse_line, with_line, with_i64, parse_simple_string, parse_error, parse_integer,
  bulk_body, parse_bulk_string, item_count, if_fits, parse_value, parse_array, parse_items, Decoded,
  frame, need_more, failed, panicked, stuck, decode, decoded, enough,
}
use fire_redis.Resp.Bounds.{find_crlf-bound, line_at, parse_line-cons, Within, parse_value-Within}

-- The second result is the first one, if the first is decided.
abbrev pub Extends : {A : Type 0} → Parse A → Parse A → Type 0
Extends (parsed a n) r = r ≡ parsed a n
Extends incomplete r = Unit
Extends (invalid e) r = r ≡ invalid e
Extends overflow r = r ≡ overflow
Extends out_of_fuel r = Unit

Extends-refl : {A : Type 0} (r : Parse A) → Extends r r
Extends-refl (parsed a n) = refl
Extends-refl incomplete = tt
Extends-refl (invalid e) = refl
Extends-refl overflow = refl
Extends-refl out_of_fuel = tt

find_crlf-append : (s more : Bytes) (n : ℕ) → find_crlf s ≡ some n → find_crlf (s ++ more) ≡ some n
unfolding find_crlf
find_crlf-append [] more n h = cc
find_crlf-append (a ∷ []) more n h = cc
find_crlf-append (a ∷ b ∷ s) more zero h = ground (arith)
find_crlf-append (a ∷ b ∷ s) more (suc n) h = ground (arith, find_crlf-append (b ∷ s) more n)

drop-append : (n : ℕ) (s more : Bytes) → n ≤ length s → drop n (s ++ more) ≡ drop n s ++ more
drop-append zero s more h = refl
drop-append (suc n) [] more h = absurd (omega arith)
drop-append (suc n) (x ∷ s) more h = drop-append n s more (omega arith)

take-append : (n : ℕ) (s more : Bytes) → n ≤ length s → take n (s ++ more) ≡ take n s
take-append zero s more h = refl
take-append (suc n) [] more h = absurd (omega arith)
take-append (suc n) (x ∷ s) more h = ap (λ t. x ∷ t) (take-append n s more (omega arith))

drop_past : (n : ℕ) (s : Bytes) → length s < n → drop n s ≡ []
drop_past zero s h = elim h [ ]
drop_past (suc n) [] h = refl
drop_past (suc n) (x ∷ s) h = drop_past n s (omega arith)

with_line-Extends :
    {A : Type 0} (buf more : Bytes) (f g : Bytes → ℕ → Parse A)
    → ((line : Bytes) (n : ℕ) → Extends (f line n) (g line n))
    → Extends (with_line (parse_line buf 1) f) (with_line (parse_line (buf ++ more) 1) g)
unfolding parse_line line_at
with_line-Extends [] more f g h = tt
with_line-Extends (t ∷ s) more f g h = elim (Option-cases (find_crlf s)) [
  | inl e ↦ rw (parse_line-cons t s, e) tt
  | inr (n, e) ↦
      rw (parse_line-cons t s, e)
        (rw (parse_line-cons t (s ++ more), find_crlf-append s more n e)
          (rw (take-append n s more (omega (arith, find_crlf-bound s n e))) (h _ (1 + n + 2))))
]

with_i64-Extends :
    {A : Type 0} (line : Bytes) (e : RespError) (k : Bytes → RespError) (f g : ℤ → Parse A)
    → ((i : ℤ) → Extends (f i) (g i))
    → Extends (with_i64 line e k f) (with_i64 line e k g)
with_i64-Extends line e k f g h = elim (Bool-cases (is_utf8 line)) [
  | inl ok ↦ elim (Option-cases (parse_i64 line)) [
    | inl p ↦ rw ok (rw p refl)
    | inr (i, p) ↦ rw ok (rw p (h i))
  ]
  | inr bad ↦ rw bad refl
]

bind-Extends :
    {A B : Type 0} (r r' : Parse A) (f g : A → ℕ → Parse B)
    → Extends r r'
    → ((a : A) (n : ℕ) → Extends (f a n) (g a n))
    → Extends (bind r f) (bind r' g)
bind-Extends (parsed a n) r' f g h k = rw h (k a n)
bind-Extends incomplete r' f g h k = tt
bind-Extends (invalid e) r' f g h k = rw h refl
bind-Extends overflow r' f g h k = rw h refl
bind-Extends out_of_fuel r' f g h k = tt

bulk_result : Bytes → ℕ → ℕ → Parse Value
bulk_result buf offset n =
    if beq (take 2 (drop (offset + n) buf)) crlf
    then parsed (bulk_string (some (take n (drop offset buf)))) (offset + n + 2)
    else invalid missing_terminator

bulk_body-Extends :
    (buf more : Bytes) (offset : ℕ) (len : ℤ)
    → Extends (bulk_body buf offset len) (bulk_body (buf ++ more) offset len)
unfolding bulk_body bulk_result
bulk_body-Extends buf more offset (negsuc n) = refl
bulk_body-Extends buf more offset (pos n) = elim (Bool-cases (ltb (length buf) (offset + n + 2))) [
  | inl short ↦ rw short tt
  | inr long ↦
      let fits : offset + n + 2 ≤ length buf = ground arith in
      rw (ltb_no (length (buf ++ more)) (offset + n + 2) (omega (arith, length-append buf more))) (
        rw
          (
            drop-append offset buf more (omega arith),
            drop-append (offset + n) buf more (omega arith),
          )
          (rw
            (
              take-append n (drop offset buf) more (omega (arith, length-drop offset buf)),
              take-append 2 (drop (offset + n) buf) more
                  (omega (arith, length-drop (offset + n) buf)),
            )
            (rw long (Extends-refl (bulk_result buf offset n)))))
]

simple-Extends :
    (buf more : Bytes)
    → Extends (parse_simple_string buf) (parse_simple_string (buf ++ more))
      × Extends (parse_error buf) (parse_error (buf ++ more))
      × Extends (parse_integer buf) (parse_integer (buf ++ more))
      × Extends (parse_bulk_string buf) (parse_bulk_string (buf ++ more))
unfolding parse_simple_string parse_error parse_integer parse_bulk_string
simple-Extends buf more = (
  with_line-Extends buf more _ _ (λ line n. refl),
  with_line-Extends buf more _ _ (λ line n. refl),
  with_line-Extends buf more _ _ (λ line n.
      with_i64-Extends line invalid_integer_bytes invalid_integer (λ i. parsed (integer i) n)
        (λ i. parsed (integer i) n) (λ i. refl)),
  with_line-Extends buf more _ _ (λ line n.
      with_i64-Extends line invalid_bulk_length_bytes invalid_bulk_length (bulk_body buf n)
        (bulk_body (buf ++ more) n) (bulk_body-Extends buf more n)),
)

-- What an array is once its length line has been read.
array_result : ℕ → Parse Value → (ℕ → Parse Values) → ℤ → Parse Value
array_result most absent items len = elim (item_count len) [
  | none ↦ absent
  | some c ↦ if_fits most c (bind (items c) λ vs end. parsed (array vs) end)
]

fits-Extends :
    (most n : ℕ) (r r' : Parse Value)
    → Extends r r'
    → Extends (if_fits most n r) (if_fits most n r')
fits-Extends most n r r' h = elim (Bool-cases (ltb most n)) [ inl e ↦ rw e refl | inr e ↦ rw e h ]

array_result-Extends :
    (most n : ℕ) (items items' : ℕ → Parse Values) (len : ℤ)
    → ((c : ℕ) → Extends (items c) (items' c))
    → Extends
        (array_result most (parsed null n) items len)
        (array_result most (parsed null n) items' len)
unfolding array_result
array_result-Extends most n items items' (negsuc _) h = refl
array_result-Extends most n items items' (pos c) h =
    fits-Extends most c _ _ (bind-Extends (items c) (items' c) _ _ (h c) (λ vs end. refl))

at_offset :
    (p : Bytes → Parse Value) (q : Bytes → Parse Value) (buf more : Bytes) (offset : ℕ)
    → (p [] ≡ incomplete) ⊎ (p [] ≡ out_of_fuel)
    → ((b : Bytes) → Extends (p b) (q (b ++ more)))
    → Extends (p (drop offset buf)) (q (drop offset (buf ++ more)))
at_offset p q buf more offset empty h = elim (Bool-cases (ltb (length buf) offset)) [
  | inl past ↦
      rw (drop_past offset buf (ground arith)) (elim empty [ inl e ↦ rw e tt | inr e ↦ rw e tt ])
  | inr inside ↦ rw (drop-append offset buf more (ground arith)) (h (drop offset buf))
]

parse_value-nil :
    (most f : ℕ) → (parse_value most f [] ≡ incomplete) ⊎ (parse_value most f [] ≡ out_of_fuel)
unfolding parse_value
parse_value-nil most zero = inr refl
parse_value-nil most (suc f) = inl refl

mutual
  unfolding parse_value array_result

  value-Extends :
      (most f g : ℕ) (buf more : Bytes)
      → f ≤ g
      → Extends (parse_value most f buf) (parse_value most g (buf ++ more))
  value-Extends most zero g buf more h = tt
  value-Extends most (suc f) zero buf more h = absurd (omega arith)
  value-Extends most (suc f) (suc g) [] more h = tt
  value-Extends most (suc f) (suc g) (t ∷ s) more h =
      ground (arith, simple-Extends (t ∷ s) more, array-Extends most f g (t ∷ s) more (omega arith))

  array-Extends :
      (most f g : ℕ) (buf more : Bytes)
      → f ≤ g
      → Extends (parse_array most f buf) (parse_array most g (buf ++ more))
  array-Extends most zero g buf more h = tt
  array-Extends most (suc f) zero buf more h = absurd (omega arith)
  array-Extends most (suc f) (suc g) buf more h = with_line-Extends buf more _ _ λ line n.
      with_i64-Extends line invalid_array_length_bytes invalid_array_length
        (array_result most (parsed null n) (λ c. parse_items most f c buf n))
        (array_result most (parsed null n) (λ c. parse_items most g c (buf ++ more) n))
        λ len.
          array_result-Extends most n (λ c. parse_items most f c buf n)
            (λ c. parse_items most g c (buf ++ more) n) len
            (λ c. items-Extends most f g c buf more n (omega arith))

  items-Extends :
      (most f g n : ℕ) (buf more : Bytes) (offset : ℕ)
      → f ≤ g
      → Extends (parse_items most f n buf offset) (parse_items most g n (buf ++ more) offset)
  items-Extends most zero g n buf more offset h = tt
  items-Extends most (suc f) zero n buf more offset h = absurd (omega arith)
  items-Extends most (suc f) (suc g) zero buf more offset h = refl
  items-Extends most (suc f) (suc g) (suc n) buf more offset h =
      bind-Extends (parse_value most f (drop offset buf))
        (parse_value most g (drop offset (buf ++ more))) _ _
        (at_offset (parse_value most f) (parse_value most g) buf more offset
          (parse_value-nil most f) (λ b. value-Extends most f g b more (omega arith)))
        (λ v c.
          bind-Extends (parse_items most f n buf (offset + c))
            (parse_items most g n (buf ++ more) (offset + c)) _ _
            (items-Extends most f g n buf more (offset + c) (omega arith)) (λ vs end. refl))

pub parse_value-Extends :
    (most f g : ℕ) (buf more : Bytes)
    → f ≤ g
    → Extends (parse_value most f buf) (parse_value most g (buf ++ more))
parse_value-Extends = value-Extends

-- What a call of `decode` on more bytes owes to the result of an earlier call.
abbrev pub Stands : Bytes → Decoded × Bytes → Decoded × Bytes → Type 0
Stands more (frame v, rest) r = r ≡ (frame v, rest ++ more)
Stands more (failed e, rest) r = r ≡ (failed e, rest ++ more)
Stands more (panicked, rest) r = r ≡ (panicked, rest ++ more)
Stands more (need_more, rest) r = Unit
Stands more (stuck, rest) r = Unit

Stands-result :
    (src more : Bytes) (r r' : Parse Value)
    → Within 1 (length src) r
    → Extends r r'
    → Stands more (decoded src r) (decoded (src ++ more) r')
Stands-result src more (parsed v n) r' w h = rw h (rw (drop-append n src more w.1))
Stands-result src more incomplete r' w h = tt
Stands-result src more (invalid e) r' w h = rw h refl
Stands-result src more overflow r' w h = rw h refl
Stands-result src more out_of_fuel r' w h = tt

-- What a first call of `decode` says stands when more bytes arrive: a frame is decoded again as the
-- same frame, with the new bytes behind the rest, an error stays that error, and a panic a panic.
pub decode-Stands :
    (most : ℕ) (src more : Bytes) → Stands more (decode most src) (decode most (src ++ more))
unfolding decode
decode-Stands most [] more = tt
decode-Stands most (t ∷ s) more =
    Stands-result (t ∷ s) more (parse_value most (enough (t ∷ s)) (t ∷ s))
      (parse_value most (enough (t ∷ s ++ more)) (t ∷ s ++ more)) (parse_value-Within most (t ∷ s))
      (value-Extends most (enough (t ∷ s)) (enough (t ∷ s ++ more)) (t ∷ s) more
        (omega (arith, length-append s more)))
