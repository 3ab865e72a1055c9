-- ===== src/Resp.antt =====
-- src/resp.rs: RESP values, the decoder of a connection's buffer and the encoder.
-- The proofs are in the modules below.
mod Tests
pub mod Bounds
pub mod Stable
pub mod Wire
pub mod Reads
pub mod RoundTrip
use fire_redis.Prelude.{
  ℕ, zero, suc, ◌+◌, ◌-◌, Bool, true, false, ◌&&◌, Option, none, some, List, [], ◌∷◌, ◌++◌, Bytes,
  codes, crlf, beq, ltb, ◌==◌, if◌then◌else◌, length, take, drop, is_empty, ℤ, pos, negsuc,
}
use fire_redis.Decimal.{to_string, i64_to_string, parse_i64}
use fire_redis.Utf8.{from_utf8_lossy, is_utf8}

-- `Array(Some(items))` is `array items`, and `Array(None)` is `null_array`. A vector of values is a
-- type of its own, since a value holds one.
mutual
  pub data Value : Type 0 where
    simple_string : Bytes → Value
    error : Bytes → Value
    integer : ℤ → Value
    bulk_string : Option Bytes → Value
    array : Values → Value
    null_array : Value
    null : Value

  pub data Values : Type 0 where
    nil : Values
    cons : Value → Values → Values

abbrev pub values_of : List Value → Values
values_of [] = nil
values_of (v ∷ vs) = cons v (values_of vs)

abbrev pub list_of : Values → List Value
list_of nil = []
list_of (cons v vs) = v ∷ list_of vs

-- The messages of `RespError::Invalid`.
pub data RespError : Type 0 where
  unknown_type : ℕ → RespError
  invalid_integer_bytes : RespError
  invalid_integer : Bytes → RespError
  invalid_bulk_length_bytes : RespError
  invalid_bulk_length : Bytes → RespError
  missing_terminator : RespError
  invalid_array_length_bytes : RespError
  invalid_array_length : Bytes → RespError

-- Ok(Some((a, consumed))), Ok(None), Err(e), a panic; `out_of_fuel` has no counterpart in the program.
pub data Parse (A : Type 0) : Type 0 where
  parsed : A → ℕ → Parse A
  incomplete : Parse A
  invalid : RespError → Parse A
  overflow : Parse A
  out_of_fuel : Parse A

abbrev pub bind : {A B : Type 0} → Parse A → (A → ℕ → Parse B) → Parse B
bind (parsed a n) f = f a n
bind incomplete f = incomplete
bind (invalid e) f = invalid e
bind overflow f = overflow
bind out_of_fuel f = out_of_fuel

-- buf.windows(2).position(|w| w == b"\r\n")
unfoldable pub find_crlf : Bytes → Option ℕ
find_crlf [] = none
find_crlf (a ∷ []) = none
find_crlf (a ∷ b ∷ s) =
    let later = find_crlf (b ∷ s) in
    if a == 13 && b == 10 then some 0 else elim later [ none ↦ none | some n ↦ some (suc n) ]

-- The line without its CRLF, and the number of bytes up to its end from the buffer's start.
unfoldable pub parse_line : Bytes → ℕ → Option (Bytes × ℕ)
parse_line buf start = if ltb (length buf) start then none else elim (find_crlf (drop start buf)) [
  | none ↦ none
  | some rel ↦ some (take rel (drop start buf), start + rel + 2)
]

abbrev pub with_line : {A : Type 0} → Option (Bytes × ℕ) → (Bytes → ℕ → Parse A) → Parse A
with_line none f = incomplete
with_line (some (line, consumed)) f = f line consumed

-- `str::from_utf8(line)` and `parse::<i64>()`, with the errors of the caller.
abbrev pub with_i64 :
    {A : Type 0} → Bytes → RespError → (Bytes → RespError) → (ℤ → Parse A) → Parse A
with_i64 line bad_bytes bad_number f =
    if is_utf8 line
    then elim (parse_i64 line) [ none ↦ invalid (bad_number line) | some i ↦ f i ]
    else invalid bad_bytes

unfoldable pub parse_simple_string : Bytes → Parse Value
parse_simple_string buf =
    with_line (parse_line buf 1)
      λ line consumed. parsed (simple_string (from_utf8_lossy line)) consumed

unfoldable pub parse_error : Bytes → Parse Value
parse_error buf =
    with_line (parse_line buf 1) λ line consumed. parsed (error (from_utf8_lossy line)) consumed

unfoldable pub parse_integer : Bytes → Parse Value
parse_integer buf = with_line (parse_line buf 1) λ line consumed.
    with_i64 line invalid_integer_bytes invalid_integer λ num. parsed (integer num) consumed

-- The body of a bulk string of `len` bytes behind its length line.
unfoldable pub bulk_body : Bytes → ℕ → ℤ → Parse Value
bulk_body buf offset (negsuc _) = parsed null offset
bulk_body buf offset (pos len) =
    if ltb (length buf) (offset + len + 2)
    then incomplete
    else if beq (take 2 (drop (offset + len) buf)) crlf
    then parsed (bulk_string (some (take len (drop offset buf)))) (offset + len + 2)
    else invalid missing_terminator

unfoldable pub parse_bulk_string : Bytes → Parse Value
unfolding bulk_body
parse_bulk_string buf = with_line (parse_line buf 1) λ line offset.
    with_i64 line invalid_bulk_length_bytes invalid_bulk_length (bulk_body buf offset)

-- The length line of an array: `none` for a negative length.
abbrev pub item_count : ℤ → Option ℕ
item_count (negsuc _) = none
item_count (pos n) = some n

abbrev pub if_fits : ℕ → ℕ → Parse Value → Parse Value
if_fits most n r = if ltb most n then overflow else r

-- `Vec::with_capacity` for more than `most` values is a capacity overflow, a panic. Nested values stand at computed offsets, so each call costs a unit of fuel. `parse_items` is the
-- loop over the items left, from `offset`; it returns the offset behind the last one.
unfoldable mutual
  pub parse_value : ℕ → ℕ → Bytes → Parse Value
  parse_value most zero buf = out_of_fuel
  parse_value most (suc f) [] = incomplete
  parse_value most (suc f) (t ∷ rest) =
      let buf = t ∷ rest in
      let items = parse_array most f buf in
      if t == b'+'
      then parse_simple_string buf
      else if t == b'-'
      then parse_error buf
      else if t == b':'
      then parse_integer buf
      else if t == b'$'
      then parse_bulk_string buf
      else if t == b'*'
      then items
      else invalid (unknown_type t)

  pub parse_array : ℕ → ℕ → Bytes → Parse Value
  parse_array most zero buf = out_of_fuel
  parse_array most (suc f) buf = with_line (parse_line buf 1) λ line offset.
      with_i64 line invalid_array_length_bytes invalid_array_length λ len. elim (item_count len) [
        | none ↦ parsed null offset
        | some n ↦
            if_fits most n
              (bind (parse_items most f n buf offset) λ items end. parsed (array items) end)
      ]

  pub parse_items : ℕ → ℕ → ℕ → Bytes → ℕ → Parse Values
  parse_items most zero n buf offset = out_of_fuel
  parse_items most (suc f) zero buf offset = parsed nil offset
  parse_items most (suc f) (suc n) buf offset =
      bind (parse_value most f (drop offset buf)) λ v consumed.
        bind (parse_items most f n buf (offset + consumed)) λ vs end. parsed (cons v vs) end

-- What `decode` returns; the bytes left in the buffer come beside it.
pub data Decoded : Type 0 where
  frame : Value → Decoded
  need_more : Decoded
  failed : RespError → Decoded
  panicked : Decoded
  stuck : Decoded

-- Twice the length and three more are always enough fuel (Resp/Bounds).
abbrev pub enough : Bytes → ℕ
enough buf = length buf + length buf + 3

-- Only a whole frame is consumed.
abbrev pub decoded : Bytes → Parse Value → Decoded × Bytes
decoded src (parsed v consumed) = (frame v, drop consumed src)
decoded src incomplete = (need_more, src)
decoded src (invalid e) = (failed e, src)
decoded src overflow = (panicked, src)
decoded src out_of_fuel = (stuck, src)

unfoldable pub decode : ℕ → Bytes → Decoded × Bytes
decode most src =
    if is_empty src then (need_more, src) else decoded src (parse_value most (enough src) src)

unfoldable pub count : Values → ℕ
count nil = zero
count (cons v vs) = suc (count vs)

-- The encoder appends to its buffer.
unfoldable mutual
  pub encode : Value → Bytes → Bytes
  encode (simple_string s) dst = dst ++ (b'+' ∷ s ++ crlf)
  encode (error s) dst = dst ++ (b'-' ∷ s ++ crlf)
  encode (integer i) dst = dst ++ (b':' ∷ i64_to_string i ++ crlf)
  encode (bulk_string none) dst = dst ++ codes "$-1\r\n"
  encode null dst = dst ++ codes "$-1\r\n"
  encode (bulk_string (some b)) dst = ((dst ++ (b'$' ∷ to_string (length b) ++ crlf)) ++ b) ++ crlf
  encode null_array dst = dst ++ codes "*-1\r\n"
  encode (array items) dst = encode_items items (dst ++ (b'*' ∷ to_string (count items) ++ crlf))

  pub encode_items : Values → Bytes → Bytes
  encode_items nil dst = dst
  encode_items (cons v vs) dst = encode_items vs (encode v dst)
