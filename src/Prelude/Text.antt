-- ===== src/Prelude/Text.antt =====
-- Byte strings. Both `Bytes` and `String` are lists of bytes: a `String` is its UTF-8 encoding.
use Prim.Native.Nat.{◌+◌, ℕ, ◌-◌}
use Prim.Native.Char.{code}
use Prim.Native.String.{String}
use mathlib.Core.Path.{◌≡◌, refl}
use mathlib.Core.Logic.{◌↔◌, ◌≢◌}
use mathlib.Core.Bool.{Bool, true, false, ◌&&◌}
use mathlib.Core.List.{List, [], ◌∷◌, map}
use native.Mathlib.Omega.{arith}
use fire_redis.Prelude.Tests.{leb, ◌==◌, if◌then◌else◌}

abbrev pub Bytes : Type 0
Bytes = List ℕ

-- The bytes of an ASCII literal.
abbrev pub codes : String → Bytes
codes String.[] = []
codes (String.◌∷◌ c s) = code c ∷ codes s

-- Equality of byte strings.
unfoldable pub beq : Bytes → Bytes → Bool
beq [] [] = true
beq [] (c ∷ t) = false
beq (b ∷ s) [] = false
beq (b ∷ s) (c ∷ t) = b == c && beq s t

pub beq_refl : (s : Bytes) → beq s s ≡ true
unfolding beq
beq_refl [] = refl
beq_refl (b ∷ s) = ground (arith, beq_refl s)

pub beq_sound : (s t : Bytes) → beq s t ≡ true → s ≡ t
unfolding beq
beq_sound [] [] h = refl
beq_sound [] (c ∷ t) h = ground arith
beq_sound (b ∷ s) [] h = ground arith
beq_sound (b ∷ s) (c ∷ t) h = ground (arith, beq_sound s t)

pub beq_iff : (s t : Bytes) → (beq s t ≡ true) ↔ (s ≡ t)
beq_iff s t = (beq_sound s t, λ e. rw e (beq_refl t))

pub beq_ne : (s t : Bytes) → s ≢ t → beq s t ≡ false
beq_ne s t h = ground (arith, beq_iff s t)

-- `str::to_ascii_lowercase`
abbrev to_lower : ℕ → ℕ
to_lower c = if leb b'A' c && leb c b'Z' then c + 32 else c

unfoldable pub to_ascii_lowercase : Bytes → Bytes
to_ascii_lowercase = map to_lower

-- `u8::to_ascii_uppercase` and `[u8]::to_ascii_uppercase`.
unfoldable pub to_upper : ℕ → ℕ
to_upper c = if leb b'a' c && leb c b'z' then c - 32 else c

unfoldable pub to_ascii_uppercase : Bytes → Bytes
unfolding to_upper
to_ascii_uppercase = map to_upper

abbrev pub crlf : Bytes
crlf = 13 ∷ 10 ∷ []
