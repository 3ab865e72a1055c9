-- ===== src/Resp/RoundTrip.antt =====
-- What the encoder of src/resp.rs writes, its decoder reads back.
use fire_redis.Prelude.{
  ℕ, zero, suc, ◌<◌, ◌≡◌, ◌∙◌, refl, sym, ap, [], ◌∷◌, ◌++◌, Bytes, length, length-append, drop,
  take, drop-append_self, append-nil, arith, false, is_empty, length-drop,
}
use fire_redis.Resp.{
  Value, encode, decode, frame, need_more, failed, panicked, stuck, Decoded, enough,
}
use fire_redis.Resp.Stable.{Stands, decode-Stands}
use fire_redis.Resp.Bounds.{Advances, decode-Advances}
use fire_redis.Resp.Wire.{normal, IsWire, length-encode_pos}
use fire_redis.Resp.Reads.{value-Reads}

pub not_empty : (s rest : Bytes) → 0 < length s → is_empty (s ++ rest) ≡ false
not_empty [] rest h = absurd (omega arith)
not_empty (c ∷ s) rest h = refl

-- A value that the protocol can carry, and for whose arrays the decoder can reserve room, encoded in front of any bytes, is decoded back up to the
-- spelling of nulls, and the buffer is left with those bytes.
pub decode-encode :
    (most : ℕ) (v : Value) (rest : Bytes)
    → IsWire most v
    → decode most (encode v [] ++ rest) ≡ (frame (normal v), rest)
unfolding decode
decode-encode most v rest w = rw (not_empty (encode v []) rest (length-encode_pos v)) (
    rw
      (value-Reads most v w (enough (encode v [] ++ rest)) rest
        (omega (arith, length-append (encode v []) rest)))
      (rw (drop-append_self (encode v []) rest)))

take-append-drop : (n : ℕ) (s : Bytes) → take n s ++ drop n s ≡ s
take-append-drop zero s = refl
take-append-drop (suc n) [] = refl
take-append-drop (suc n) (x ∷ s) = ap (λ t. x ∷ t) (take-append-drop n s)

append-eq-nil : (s t : Bytes) → s ++ t ≡ [] → t ≡ []
append-eq-nil [] t h = h
append-eq-nil (x ∷ s) t h = cc

prefix_result :
    (pre suf : Bytes) (v : Value) (d : Decoded × Bytes)
    → 0 < length suf
    → Advances pre d
    → Stands suf d (frame v, [])
    → d ≡ (need_more, pre)
prefix_result pre suf v (frame x, rest) h a s =
    let gone : suf ≡ [] = append-eq-nil rest suf (sym (ap (λ (r : Decoded × Bytes). r.1) s)) in
    absurd (omega (arith, ap (λ (t : Bytes). length t) gone))
prefix_result pre suf v (need_more, rest) h a s = ap (λ t. (need_more, t)) a
prefix_result pre suf v (failed e, rest) h a s =
    let wrong : frame v ≡ failed e = ap (λ (r : Decoded × Bytes). r.0) s in cc
prefix_result pre suf v (panicked, rest) h a s =
    let wrong : frame v ≡ panicked = ap (λ (r : Decoded × Bytes). r.0) s in cc
prefix_result pre suf v (stuck, rest) h a s = absurd a

pub decode-take-encode :
    (most : ℕ) (v : Value) (k : ℕ)
    → IsWire most v
    → k < length (encode v [])
    → decode most (take k (encode v [])) ≡ (need_more, take k (encode v []))
decode-take-encode most v k w h =
    let pre : Bytes = take k (encode v []) in
    let suf : Bytes = drop k (encode v []) in
    let whole : decode most (pre ++ suf) ≡ (frame (normal v), []) =
      ap (λ t. decode most t) (take-append-drop k (encode v []) ∙ sym (append-nil (encode v [])))
      ∙ decode-encode most v [] w in
    prefix_result pre suf (normal v) (decode most pre) (omega (arith, length-drop k (encode v [])))
      (decode-Advances most pre) (rw whole at (decode-Stands most pre suf))
