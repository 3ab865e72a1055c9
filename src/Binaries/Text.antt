-- ===== src/Binaries/Text.antt =====
-- The text functions of the standard library that src/bin uses.
use fire_redis.Prelude.{
  ℕ, zero, suc, ◌-◌, Bool, true, ◌&&◌, List, [], ◌∷◌, ◌++◌, Bytes, ltb, ◌==◌, if◌then◌else◌,
}
use fire_redis.Http.{space_len, split_from}

-- `str::split_whitespace`
abbrev pub split_whitespace : Bytes → List Bytes
split_whitespace s = split_from 0 [] s

-- Whether only white space is left; `skip` bytes of a space are still to come.
unfoldable pub is_blank_from : ℕ → Bytes → Bool
unfolding space_len
is_blank_from skip [] = true
is_blank_from zero (c ∷ s) =
    let space = space_len (c ∷ s) in let rest = is_blank_from (space - 1) s in ltb 0 space && rest
is_blank_from (suc skip) (c ∷ s) = is_blank_from skip s

abbrev pub is_blank : Bytes → Bool
is_blank s = is_blank_from 0 s

unfoldable pub trim_start_from : ℕ → Bytes → Bytes
unfolding space_len
trim_start_from skip [] = []
trim_start_from zero (c ∷ s) =
    let space = space_len (c ∷ s) in
    let rest = trim_start_from (space - 1) s in if ltb 0 space then rest else c ∷ s
trim_start_from (suc skip) (c ∷ s) = trim_start_from skip s

-- What stands in front of the white space at the end, which starts at the start of a character.
unfoldable pub trim_end : Bytes → Bytes
unfolding is_blank_from
trim_end [] = []
trim_end (c ∷ s) = let rest = trim_end s in if is_blank (c ∷ s) then [] else c ∷ rest

-- `str::trim`
unfoldable pub trim : Bytes → Bytes
unfolding trim_start_from trim_end
trim s = trim_end (trim_start_from 0 s)

-- `str::split` at a character of ASCII: the piece so far, and those behind it.
unfoldable pub split_at : ℕ → Bytes → Bytes → List Bytes
split_at sep word [] = word ∷ []
split_at sep word (c ∷ s) =
    let rest = split_at sep (if c == sep then [] else word ++ c ∷ []) s in
    if c == sep then word ∷ rest else rest

unfoldable pub split : ℕ → Bytes → List Bytes
unfolding split_at
split sep s = split_at sep [] s
