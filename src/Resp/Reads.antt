-- ===== src/Resp/Reads.antt =====
-- `parse_value` (src/resp.rs) on what the encoder writes of a value.
use fire_redis.Prelude.{
  ℕ, zero, suc, ◌+◌, ◌/◌, ◌%◌, ◌≤◌, ◌<◌, ◌≡◌, ◌∙◌, refl, sym, ap, none, some, [], ◌∷◌, ◌++◌, Bytes,
  length, length-append, drop, drop-append_self, append_assoc, crlf, ℤ, negsuc, IsI64, max_i64,
  arith, codes,
}
use fire_redis.Decimal.{digits, to_string, i64_to_string}
use fire_redis.Utf8.{from_utf8_lossy-valid}
use fire_redis.Resp.{
  Value, Values, Parse, simple_string, error, integer, bulk_string, array, null_array, null, nil,
  cons, invalid_integer_bytes, invalid_integer, invalid_bulk_length_bytes, invalid_bulk_length,
  invalid_array_length_bytes, invalid_array_length, item_count, if_fits, parsed, bind, parse_line,
  with_line, with_i64, parse_simple_string, parse_error, parse_integer, bulk_body,
  parse_bulk_string, parse_value, parse_items, parse_array, encode, encode_items, count,
}
use fire_redis.Resp.Wire.{
  items-append, line_read, number_line, length-line, bulk_read, normal, normal_items, IsLine,
  IsWire, AreWire, number_line_nat, drop-drop, length-encode_pos,
}

abbrev Reads : ℕ → Value → Type 0
Reads most v =
    (f : ℕ) (rest : Bytes)
    → length (encode v []) + length (encode v []) + 3 ≤ f
    → parse_value most f (encode v [] ++ rest) ≡ parsed (normal v) (length (encode v []))

length-bulk : (hdr b : Bytes) → length hdr + length b + 2 ≡ length ((hdr ++ b) ++ crlf)
length-bulk hdr b = omega (arith, length-append (hdr ++ b) crlf, length-append hdr b)

bulk_string_reads :
    (b rest : Bytes)
    → length b ≤ max_i64
    → parse_bulk_string ((((b'$' ∷ to_string (length b) ++ crlf) ++ b) ++ crlf) ++ rest)
      ≡ parsed
          (bulk_string (some b))
          (length (((b'$' ∷ to_string (length b) ++ crlf) ++ b) ++ crlf))
unfolding parse_bulk_string
bulk_string_reads b rest h =
    let hdr : Bytes = b'$' ∷ to_string (length b) ++ crlf in
    let buf : Bytes = ((hdr ++ b) ++ crlf) ++ rest in
    ap
      (λ t.
        with_line (parse_line t 1)
          λ line m. with_i64 line invalid_bulk_length_bytes invalid_bulk_length (bulk_body buf m))
      (append_assoc (hdr ++ b) crlf rest ∙ append_assoc hdr b (crlf ++ rest))
    ∙ number_line_nat b'$' (length b) (b ++ (crlf ++ rest)) invalid_bulk_length_bytes
        invalid_bulk_length (bulk_body buf) h
    ∙ bulk_read hdr b rest
    ∙ ap (λ n. parsed (bulk_string (some b)) n) (length-bulk hdr b)

scalar_reads :
    (most f : ℕ) (rest : Bytes)
    → ((s : Bytes)
        → IsLine s
        → (parse_value most (suc f) ((b'+' ∷ s ++ crlf) ++ rest)
            ≡ parsed (simple_string s) (length (b'+' ∷ s ++ crlf)))
          × (parse_value most (suc f) ((b'-' ∷ s ++ crlf) ++ rest)
              ≡ parsed (error s) (length (b'-' ∷ s ++ crlf))))
      × ((i : ℤ)
          → IsI64 i
          → parse_value most (suc f) ((b':' ∷ i64_to_string i ++ crlf) ++ rest)
            ≡ parsed (integer i) (length (b':' ∷ i64_to_string i ++ crlf)))
      × ((b : Bytes)
          → length b ≤ max_i64
          → parse_value most
              (suc f)
              ((((b'$' ∷ to_string (length b) ++ crlf) ++ b) ++ crlf) ++ rest)
            ≡ parsed
                (bulk_string (some b))
                (length (((b'$' ∷ to_string (length b) ++ crlf) ++ b) ++ crlf)))
unfolding parse_value parse_simple_string parse_error parse_integer parse_bulk_string
scalar_reads most f rest = (
  λ s h. (
    rw (line_read b'+' s rest h.1, from_utf8_lossy-valid s h.0, length-line b'+' s),
    rw (line_read b'-' s rest h.1, from_utf8_lossy-valid s h.0, length-line b'-' s),
  ),
  λ i h.
      number_line b':' i rest invalid_integer_bytes invalid_integer (λ n j. parsed (integer j) n) h
      ∙ ap (λ n. parsed (integer i) n) (sym (length-line b':' (i64_to_string i))),
  λ b h. bulk_string_reads b rest h,
)

abbrev header : Values → Bytes
header items = b'*' ∷ to_string (count items) ++ crlf

length-to_string_pos : (n : ℕ) → 0 < length (to_string n)
unfolding to_string
length-to_string_pos n = ground (arith, length-append (digits n (n / 10)) ((b'0' + n % 10) ∷ []))

fits_through : (most n : ℕ) (r : Parse Value) → n ≤ most → if_fits most n r ≡ r
fits_through most n r h = ground arith

array_reads :
    (most : ℕ) (items : Values) (f : ℕ) (rest : Bytes)
    → count items ≤ max_i64
    → count items ≤ most
    → ((offset : ℕ) (buf : Bytes)
        → drop offset buf ≡ encode_items items [] ++ rest
        → parse_items most f (count items) buf offset
          ≡ parsed (normal_items items) (offset + length (encode_items items [])))
    → parse_array most (suc f) (header items ++ (encode_items items [] ++ rest))
      ≡ parsed (array (normal_items items)) (length (encode (array items) []))
unfolding parse_value encode
array_reads most items f rest h fits reads =
    let hdr : Bytes = header items in
    let body : Bytes = encode_items items [] in
    number_line_nat b'*' (count items) (body ++ rest) invalid_array_length_bytes
      invalid_array_length
      (λ n len. elim (item_count len) [
        | none ↦ parsed null n
        | some c ↦
            if_fits most c (
              bind (parse_items most f c (hdr ++ (body ++ rest)) n) λ vs end. parsed (array vs) end)
      ])
      h
    ∙ fits_through most (count items) _ fits
    ∙ ap (λ r. bind r λ vs end. parsed (array vs) end)
        (reads (length hdr) (hdr ++ (body ++ rest)) (drop-append_self hdr (body ++ rest)))
    ∙ ap (λ n. parsed (array (normal_items items)) n)
        (sym (length-append hdr body) ∙ ap (λ t. length t) (sym (items-append items hdr)))

regroup :
    (items : Values) (rest : Bytes)
    → encode (array items) [] ++ rest ≡ header items ++ (encode_items items [] ++ rest)
unfolding encode
regroup items rest =
    ap (λ t. t ++ rest) (items-append items (header items))
    ∙ append_assoc (header items) (encode_items items []) rest

length-array :
    (items : Values) → length (encode_items items []) + 4 ≤ length (encode (array items) [])
unfolding encode
length-array items = rw (items-append items (header items)) (
    omega (
      arith,
      length-append (header items) (encode_items items []),
      length-append (b'*' ∷ to_string (count items)) crlf,
      length-to_string_pos (count items),
    ))

null_reads :
    (most f : ℕ) (rest : Bytes)
    → (parse_value most (suc f) (codes "$-1\r\n" ++ rest) ≡ parsed null 5)
      × (parse_array most (suc f) (codes "*-1\r\n" ++ rest) ≡ parsed null 5)
unfolding parse_value parse_bulk_string parse_error parse_integer parse_simple_string bulk_body
    i64_to_string
null_reads most f rest = (
  number_line b'$' (negsuc 0) rest invalid_bulk_length_bytes invalid_bulk_length
      (bulk_body (codes "$-1\r\n" ++ rest)) (omega arith),
  number_line b'*' (negsuc 0) rest invalid_array_length_bytes invalid_array_length
      (λ n len. elim (item_count len) [
        | none ↦ parsed null n
        | some c ↦ if_fits most c (
            bind (parse_items most f c (codes "*-1\r\n" ++ rest) n) λ vs end. parsed (array vs) end)
      ])
      (omega arith),
)

mutual
  unfolding encode parse_value count

  pub value-Reads : (most : ℕ) (v : Value) → IsWire most v → Reads most v
  value-Reads most v w zero rest h = absurd (omega arith)
  value-Reads most (simple_string s) w (suc f) rest h = ((scalar_reads most f rest).0 s w).0
  value-Reads most (error s) w (suc f) rest h = ((scalar_reads most f rest).0 s w).1
  value-Reads most (integer i) w (suc f) rest h = (scalar_reads most f rest).1 i w
  value-Reads most (bulk_string none) w (suc f) rest h = (null_reads most f rest).0
  value-Reads most (bulk_string (some b)) w (suc f) rest h = (scalar_reads most f rest).2 b w
  value-Reads most null w (suc f) rest h = (null_reads most f rest).0
  value-Reads most null_array w (suc zero) rest h = absurd (omega arith)
  value-Reads most null_array w (suc (suc f)) rest h = (null_reads most f rest).1
  value-Reads most (array items) w (suc zero) rest h = absurd (omega arith)
  value-Reads most (array items) w (suc (suc f)) rest h =
      ap (λ t. parse_value most (suc (suc f)) t) (regroup items rest)
      ∙ array_reads most items f rest w.0 w.1 (λ offset buf e.
        items_read most items w.2 f offset buf rest e (omega (arith, length-array items)))

  items_read :
      (most : ℕ) (vs : Values)
      → AreWire most vs
      → (f offset : ℕ) (buf rest : Bytes) → drop offset buf ≡ encode_items vs [] ++ rest
      → length (encode_items vs []) + length (encode_items vs []) + 4 ≤ f
      → parse_items most f (count vs) buf offset
        ≡ parsed (normal_items vs) (offset + length (encode_items vs []))
  items_read most vs w zero offset buf rest e h = absurd (omega arith)
  items_read most nil w (suc f) offset buf rest e h =
      let z : offset + 0 ≡ offset = omega arith in rw z
  items_read most (cons v vs) w (suc f) offset buf rest e h =
      let one : Bytes = encode v [] in
      let more : Bytes = encode_items vs [] in
      let split : encode_items vs one ≡ one ++ more = items-append vs one in
      let size : length (encode_items vs one) ≡ length one + length more =
        ap (λ t. length t) split ∙ length-append one more in
      let here : drop offset buf ≡ one ++ (more ++ rest) =
        e ∙ ap (λ t. t ++ rest) split ∙ append_assoc one more rest in
      let there : drop (offset + length one) buf ≡ more ++ rest =
        drop-drop offset (length one) (offset + length one) buf refl
        ∙ ap (λ t. drop (length one) t) here
        ∙ drop-append_self one (more ++ rest) in
      ap
        (λ t. bind (parse_value most f t) λ a c.
          bind (parse_items most f (count vs) buf (offset + c)) λ rs end. parsed (cons a rs) end)
        here
      ∙ ap
          (λ r. bind r λ a c.
            bind (parse_items most f (count vs) buf (offset + c)) λ rs end. parsed (cons a rs) end)
          (value-Reads most v w.0 f (more ++ rest) (omega (arith, length-encode_pos v)))
      ∙ ap (λ r. bind r λ rs end. parsed (cons (normal v) rs) end)
          (items_read most vs w.1 f (offset + length one) buf rest there
            (omega (arith, length-encode_pos v)))
      ∙ ap (λ n. parsed (cons (normal v) (normal_items vs)) n) (omega arith)
