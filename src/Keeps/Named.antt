-- ===== src/Keeps/Named.antt =====
-- What a command of src/commands/mod.rs names and needs.
use fire_redis.Prelude.{◌≡◌, false, List, [], ◌∷◌, map, Bytes, is_empty}
use fire_redis.Commands.Types.{Command}

-- The keys that a command names.
abbrev pub keys_of : Command → List Bytes
keys_of Command.ping = []
keys_of Command.quit = []
keys_of Command.info = []
keys_of Command.flush_all = []
keys_of (Command.echo _) = []
keys_of (Command.keys _) = []
keys_of (Command.get k) = k ∷ []
keys_of (Command.incr k) = k ∷ []
keys_of (Command.decr k) = k ∷ []
keys_of (Command.str_len k) = k ∷ []
keys_of (Command.type k) = k ∷ []
keys_of (Command.ttl k) = k ∷ []
keys_of (Command.pttl k) = k ∷ []
keys_of (Command.set k v px c) = k ∷ []
keys_of (Command.del ks) = ks
keys_of (Command.exists ks) = ks
keys_of (Command.m_get ks) = ks
keys_of (Command.expire k ms) = k ∷ []
keys_of (Command.m_set entries) = map (λ e. e.0) entries
keys_of (Command.append k v) = k ∷ []
keys_of (Command.l_push k vs) = k ∷ []
keys_of (Command.r_push k vs) = k ∷ []
keys_of (Command.l_pop k) = k ∷ []
keys_of (Command.r_pop k) = k ∷ []
keys_of (Command.l_len k) = k ∷ []
keys_of (Command.l_index k i) = k ∷ []
keys_of (Command.l_range k i j) = k ∷ []
keys_of (Command.s_add k ms) = k ∷ []
keys_of (Command.s_rem k ms) = k ∷ []
keys_of (Command.s_members k) = k ∷ []
keys_of (Command.s_card k) = k ∷ []
keys_of (Command.s_is_member k m) = k ∷ []
keys_of (Command.s_pop k n) = k ∷ []
keys_of (Command.h_set k fs) = k ∷ []
keys_of (Command.h_get k f) = k ∷ []
keys_of (Command.h_exists k f) = k ∷ []
keys_of (Command.h_del k fs) = k ∷ []
keys_of (Command.h_len k) = k ∷ []
keys_of (Command.h_keys k) = k ∷ []
keys_of (Command.h_vals k) = k ∷ []
keys_of (Command.h_get_all k) = k ∷ []
keys_of (Command.z_add k es) = k ∷ []
keys_of (Command.z_range k i j) = k ∷ []
keys_of (Command.z_rev_range k i j) = k ∷ []
keys_of (Command.z_score k m) = k ∷ []
keys_of (Command.z_rem k ms) = k ∷ []
keys_of (Command.z_card k) = k ∷ []
keys_of (Command.z_count k lo hi) = k ∷ []

-- The two commands on the whole keyspace.
abbrev pub IsWhole : Command → Type 0
IsWhole Command.flush_all = Unit
IsWhole (Command.keys _) = Unit
IsWhole _ = ⊥

-- SADD names at least one member.
abbrev pub HasMembers : Command → Type 0
HasMembers (Command.s_add k ms) = is_empty ms ≡ false
HasMembers _ = Unit
