-- ===== src/Commands/Types.antt =====
-- The command type of src/commands/mod.rs.
use fire_redis.Prelude.{ℕ, ℤ, Option, List, Bytes}
use fire_redis.Platform.{Score}

-- `SetCondition::None` is `always`.
pub data SetCondition : Type 0 where
  always nx xx : SetCondition

pub data Command : Type 0 where
  ping quit info flush_all : Command
  echo : Bytes → Command
  get incr decr str_len type ttl pttl keys : Bytes → Command
  set : Bytes → Bytes → Option ℕ → SetCondition → Command
  del exists m_get : List Bytes → Command
  expire : Bytes → ℕ → Command
  m_set : List (Bytes × Bytes) → Command
  append : Bytes → Bytes → Command
  l_push r_push : Bytes → List Bytes → Command
  l_pop r_pop l_len : Bytes → Command
  l_index : Bytes → ℤ → Command
  l_range : Bytes → ℤ → ℤ → Command
  s_add s_rem : Bytes → List Bytes → Command
  s_members s_card : Bytes → Command
  s_is_member : Bytes → Bytes → Command
  s_pop : Bytes → Option ℕ → Command
  h_set : Bytes → List (Bytes × Bytes) → Command
  h_get h_exists : Bytes → Bytes → Command
  h_del : Bytes → List Bytes → Command
  h_len h_keys h_vals h_get_all : Bytes → Command
  z_add : Bytes → List (Score × Bytes) → Command
  z_range z_rev_range : Bytes → ℤ → ℤ → Command
  z_score : Bytes → Bytes → Command
  z_rem : Bytes → List Bytes → Command
  z_card : Bytes → Command
  z_count : Bytes → Score → Score → Command
