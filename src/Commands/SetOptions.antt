-- ===== src/Commands/SetOptions.antt =====
-- The options of SET, in `parse_set` of src/commands/mod.rs.
use fire_redis.Prelude.{
  ℕ, ◌*◌, Bool, true, false, Option, none, some, List, [], ◌∷◌, Bytes, codes, beq,
  to_ascii_uppercase, leb, if◌then◌else◌, max_u64,
}
use fire_redis.Resp.{Value, error}
use fire_redis.Commands.Types.{SetCondition, always, nx, xx}
use fire_redis.Commands.Args.{Result, ok, err, ◌>>=◌, bulk_to_string, bulk_to_u64}

abbrev pub syntax_error : Value
syntax_error = error (codes "ERR syntax error")

-- `EX` is in seconds, with a checked product; `PX` is in milliseconds.
unfoldable pub expire_ms : Bool → ℕ → Result (Option ℕ)
expire_ms true ttl =
    if leb (ttl * 1000) max_u64
    then ok (some (ttl * 1000))
    else err (error (codes "ERR invalid expire time in 'set' command"))
expire_ms false ttl = ok (some ttl)

abbrev is_always : SetCondition → Bool
is_always always = true
is_always _ = false

-- What the text of an option selects: a time, in seconds or not, or a condition.
pub data OptionKind : Type 0 where
  time : Bool → OptionKind
  condition : SetCondition → OptionKind
  unknown : OptionKind

unfoldable pub option_kind : Bytes → OptionKind
option_kind opt =
    if beq opt (codes "EX")
    then time true
    else if beq opt (codes "PX")
    then time false
    else if beq opt (codes "NX")
    then condition nx
    else if beq opt (codes "XX")
    then condition xx
    else unknown

abbrev pub Options : Type 0
Options = Option ℕ × SetCondition

abbrev Continue : Type 0
Continue = Option ℕ → SetCondition → Result Options

-- One round of the loop: `next` goes on behind the option, and `following` is the argument behind
-- it with what goes on behind that.
unfoldable pub apply_option :
    OptionKind → Option ℕ → SetCondition → Option (Value × Continue) → Continue → Result Options
unfolding expire_ms bulk_to_u64
apply_option (time seconds) (some px) c following next = err syntax_error
apply_option (time seconds) none c none next = err syntax_error
apply_option (time seconds) none c (some (v, later)) next = do
  ttl ← bulk_to_u64 v
  px ← expire_ms seconds ttl
  later px c
apply_option (condition c') px c following next =
    if is_always c then next px c' else err syntax_error
apply_option unknown px c following next = err syntax_error

-- The loop over the options from `args[3]` on.
unfoldable pub parse_options : List Value → Option ℕ → SetCondition → Result Options
unfolding apply_option option_kind bulk_to_string
parse_options [] px c = ok (px, c)
parse_options (o ∷ []) px c = do
  name ← bulk_to_string o
  apply_option (option_kind (to_ascii_uppercase name)) px c none (parse_options [])
parse_options (o ∷ v ∷ rest) px c = do
  name ← bulk_to_string o
  apply_option (option_kind (to_ascii_uppercase name)) px c (some (v, parse_options rest))
      (parse_options (v ∷ rest))
