-- ===== src/Commands/WrongType.antt =====
-- WRONGTYPE: the commands on one type, at a key that holds another (src/commands/data.rs).
use fire_redis.Prelude.{◌≡◌, false, some, Bytes, codes, beq}
use fire_redis.Dict
use fire_redis.Platform.{Platform}
use fire_redis.Metrics.{Metrics}
use fire_redis.Store
use fire_redis.Store.{StoredValue, Store, Instant, type_name}
use fire_redis.Store.Expiry.{visible}
use fire_redis.Commands.Types.{Command}
use fire_redis.Commands.Data.Strings as S
use fire_redis.Commands.Data.Lists as L
use fire_redis.Commands.Data.Sets as E
use fire_redis.Commands.Data.Hashes as H
use fire_redis.Commands.Data.SortedSets as Z

-- A client sees a value at the key that is not of this type.
abbrev pub Clashes : Instant → Store → Bytes → Bytes → Type 0
Clashes now s key expected =
    (v : StoredValue) × (visible now key s ≡ some v) × (beq (type_name v) expected ≡ false)

-- The command works on one type, and its key holds another.
abbrev pub IsMistyped : Instant → Store → Command → Type 0
IsMistyped now s (Command.get k) = Clashes now s k (codes "string")
IsMistyped now s (Command.append k v) = Clashes now s k (codes "string")
IsMistyped now s (Command.str_len k) = Clashes now s k (codes "string")
IsMistyped now s (Command.l_push k vs) = Clashes now s k (codes "list")
IsMistyped now s (Command.r_push k vs) = Clashes now s k (codes "list")
IsMistyped now s (Command.l_pop k) = Clashes now s k (codes "list")
IsMistyped now s (Command.r_pop k) = Clashes now s k (codes "list")
IsMistyped now s (Command.l_len k) = Clashes now s k (codes "list")
IsMistyped now s (Command.l_index k i) = Clashes now s k (codes "list")
IsMistyped now s (Command.l_range k i j) = Clashes now s k (codes "list")
IsMistyped now s (Command.s_add k ms) = Clashes now s k (codes "set")
IsMistyped now s (Command.s_rem k ms) = Clashes now s k (codes "set")
IsMistyped now s (Command.s_members k) = Clashes now s k (codes "set")
IsMistyped now s (Command.s_is_member k m) = Clashes now s k (codes "set")
IsMistyped now s (Command.s_card k) = Clashes now s k (codes "set")
IsMistyped now s (Command.s_pop k n) = Clashes now s k (codes "set")
IsMistyped now s (Command.h_set k fs) = Clashes now s k (codes "hash")
IsMistyped now s (Command.h_get k f) = Clashes now s k (codes "hash")
IsMistyped now s (Command.h_del k fs) = Clashes now s k (codes "hash")
IsMistyped now s (Command.h_len k) = Clashes now s k (codes "hash")
IsMistyped now s (Command.h_exists k f) = Clashes now s k (codes "hash")
IsMistyped now s (Command.h_keys k) = Clashes now s k (codes "hash")
IsMistyped now s (Command.h_vals k) = Clashes now s k (codes "hash")
IsMistyped now s (Command.h_get_all k) = Clashes now s k (codes "hash")
IsMistyped now s (Command.z_add k es) = Clashes now s k (codes "zset")
IsMistyped now s (Command.z_range k i j) = Clashes now s k (codes "zset")
IsMistyped now s (Command.z_rev_range k i j) = Clashes now s k (codes "zset")
IsMistyped now s (Command.z_score k m) = Clashes now s k (codes "zset")
IsMistyped now s (Command.z_rem k ms) = Clashes now s k (codes "zset")
IsMistyped now s (Command.z_card k) = Clashes now s k (codes "zset")
IsMistyped now s (Command.z_count k lo hi) = Clashes now s k (codes "zset")
IsMistyped now s _ = ⊥
