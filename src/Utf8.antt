-- ===== src/Utf8.antt =====
-- `str::from_utf8` and `String::from_utf8_lossy`: a scan over the bytes that holds the start of a
-- multi-byte character. An ill-formed maximal subpart becomes U+FFFD.
use mathlib.Core.Path.{◌≡⟨◌⟩◌, ◌∎}
use fire_redis.Prelude.{
  ap, sym, ℕ, ◌-◌, ◌≡◌, refl, Bool, true, false, ◌&&◌, [], ◌∷◌, ◌++◌, append_assoc, append-nil,
  Bytes, ltb, leb, ◌==◌, if◌then◌else◌, All, ◌<◌, arith,
}

-- `partial seen left lo hi`: `left` more bytes are wanted, the next one between `lo` and `hi`.
pub data Scan : Type 0 where
  boundary : Scan
  partial : Bytes → ℕ → ℕ → ℕ → Scan

abbrev between : ℕ → ℕ → ℕ → Bool
between lo hi b = leb lo b && leb b hi

abbrev replacement : Bytes
replacement = 0xEF ∷ 0xBF ∷ 0xBD ∷ []

-- What one byte writes, the state behind it, and whether the input is well formed so far.
abbrev Step : Type 0
Step = Bytes × Scan × Bool

-- The first byte of a character. `bad` is what an ill-formed start before it wrote.
lead : Bytes → Bool → ℕ → Step
lead bad good b =
    if ltb b 0x80
    then (bad ++ b ∷ [], boundary, good)
    else if between 0xC2 0xDF b
    then (bad, partial (b ∷ []) 1 0x80 0xBF, good)
    else if b == 0xE0
    then (bad, partial (b ∷ []) 2 0xA0 0xBF, good)
    else if b == 0xED
    then (bad, partial (b ∷ []) 2 0x80 0x9F, good)
    else if between 0xE1 0xEF b
    then (bad, partial (b ∷ []) 2 0x80 0xBF, good)
    else if b == 0xF0
    then (bad, partial (b ∷ []) 3 0x90 0xBF, good)
    else if between 0xF1 0xF3 b
    then (bad, partial (b ∷ []) 3 0x80 0xBF, good)
    else if b == 0xF4
    then (bad, partial (b ∷ []) 3 0x80 0x8F, good)
    else (bad ++ replacement, boundary, false)

step : Scan → ℕ → Step
unfolding lead
step boundary b = lead [] true b
step (partial seen left lo hi) b =
    if between lo hi b
    then if leb left 1
      then (seen ++ b ∷ [], boundary, true)
      else ([], partial (seen ++ b ∷ []) (left - 1) 0x80 0xBF, true)
    else lead replacement false b

scan_lossy : Scan → Bytes → Bytes
unfolding step
scan_lossy boundary [] = []
scan_lossy (partial seen left lo hi) [] = replacement
scan_lossy st (b ∷ s) = (step st b).0 ++ scan_lossy (step st b).1 s

scan_valid : Scan → Bytes → Bool
unfolding step
scan_valid boundary [] = true
scan_valid (partial seen left lo hi) [] = false
scan_valid st (b ∷ s) = (step st b).2 && scan_valid (step st b).1 s

-- `String::from_utf8_lossy(b).to_string()`
unfoldable pub from_utf8_lossy : Bytes → Bytes
unfolding scan_lossy
from_utf8_lossy = scan_lossy boundary

-- Whether `str::from_utf8(b)` is `Ok`; the string has the same bytes.
unfoldable pub is_utf8 : Bytes → Bool
unfolding scan_valid
is_utf8 = scan_valid boundary

abbrev held : Scan → Bytes
held boundary = []
held (partial seen left lo hi) = seen

-- A step that finds nothing wrong moves its byte from the input to the output or to what is held.
step_keeps :
    (st : Scan) (b : ℕ)
    → (step st b).2 ≡ true
    → held st ++ b ∷ [] ≡ (step st b).0 ++ held (step st b).1
unfolding step
step_keeps boundary b h = ground arith
step_keeps (partial seen left lo hi) b h = ground (arith, append-nil (seen ++ b ∷ []))

next_lossy :
    (st : Scan) (b : ℕ) (s : Bytes)
    → (step st b).2 && scan_valid (step st b).1 s ≡ true
    → (scan_valid (step st b).1 s ≡ true → scan_lossy (step st b).1 s ≡ held (step st b).1 ++ s)
    → (step st b).0 ++ scan_lossy (step st b).1 s ≡ held st ++ b ∷ s
next_lossy st b s h ih =
    (step st b).0 ++ scan_lossy (step st b).1 s
    ≡⟨ ap (λ t. (step st b).0 ++ t) (ih (ground arith)) ⟩ (step st b).0 ++ (held (step st b).1 ++ s)
    ≡⟨ sym (append_assoc (step st b).0 (held (step st b).1) s) ⟩
      ((step st b).0 ++ held (step st b).1) ++ s
    ≡⟨ ap (λ t. t ++ s) (sym (step_keeps st b (ground arith))) ⟩ (held st ++ b ∷ []) ++ s
    ≡⟨ append_assoc (held st) (b ∷ []) s ⟩ held st ++ b ∷ s ∎

scan_lossy-valid : (st : Scan) (s : Bytes) → scan_valid st s ≡ true → scan_lossy st s ≡ held st ++ s
unfolding scan_lossy scan_valid
scan_lossy-valid boundary [] h = refl
scan_lossy-valid (partial seen left lo hi) [] h = cc
scan_lossy-valid boundary (b ∷ s) h =
    next_lossy boundary b s h (scan_lossy-valid (step boundary b).1 s)
scan_lossy-valid (partial seen left lo hi) (b ∷ s) h =
    next_lossy (partial seen left lo hi) b s h
      (scan_lossy-valid (step (partial seen left lo hi) b).1 s)

-- Well-formed text is its own lossy reading.
pub from_utf8_lossy-valid : (s : Bytes) → is_utf8 s ≡ true → from_utf8_lossy s ≡ s
unfolding from_utf8_lossy is_utf8
from_utf8_lossy-valid = scan_lossy-valid boundary

-- ASCII is well formed.
pub is_utf8-ascii : (s : Bytes) → All (λ c. c < 0x80) s → is_utf8 s ≡ true
unfolding is_utf8
is_utf8-ascii [] h = refl
is_utf8-ascii (c ∷ s) h = ground (arith, is_utf8-ascii s h.1)

euro_cut : from_utf8_lossy (0xE2 ∷ 0x82 ∷ 0x41 ∷ []) ≡ 0xEF ∷ 0xBF ∷ 0xBD ∷ 0x41 ∷ []
unfolding from_utf8_lossy
euro_cut = refl
