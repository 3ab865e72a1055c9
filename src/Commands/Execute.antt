-- ===== src/Commands/Execute.antt =====
-- `Command::execute` (src/commands/mod.rs): the handler of each command. `info_string` renders the
-- counters for INFO.
use fire_redis.Prelude.{Bytes, returns}
use fire_redis.Platform.{Platform}
use fire_redis.Metrics.{Metrics}
use fire_redis.Store.{Instant, Store}
use fire_redis.Commands.Types.{Command}
use fire_redis.Commands.Conn.{handle_ping, handle_echo, handle_quit, handle_info}
use fire_redis.Commands.Data.Replies.{Handled}
use fire_redis.Commands.Data.Keys
use fire_redis.Commands.Data.Strings
use fire_redis.Commands.Data.Lists
use fire_redis.Commands.Data.Sets
use fire_redis.Commands.Data.Hashes
use fire_redis.Commands.Data.SortedSets

unfoldable pub execute : Platform → (Metrics → Bytes) → Instant → Command → Store → Handled
unfolding handle_ping handle_echo handle_quit handle_info
execute fl info now Command.ping s = (s, returns handle_ping)
execute fl info now (Command.echo msg) s = (s, returns (handle_echo msg))
execute fl info now Command.quit s = (s, returns handle_quit)
execute fl info now Command.info s = (s, returns (handle_info info s.metrics))
execute fl info now (Command.get k) s = Strings.handle_get now k s
execute fl info now (Command.set k v px c) s = Strings.handle_set now k v px c s
execute fl info now (Command.del keys) s = Keys.handle_del keys s
execute fl info now (Command.exists keys) s = Keys.handle_exists now keys s
execute fl info now (Command.expire k ms) s = Keys.handle_expire now k ms s
execute fl info now (Command.ttl k) s = Keys.handle_ttl now k s
execute fl info now (Command.pttl k) s = Keys.handle_pttl now k s
execute fl info now (Command.incr k) s = Strings.handle_incr now k s
execute fl info now (Command.decr k) s = Strings.handle_decr now k s
execute fl info now (Command.m_get keys) s = Strings.handle_mget now keys s
execute fl info now (Command.m_set entries) s = Strings.handle_mset now entries s
execute fl info now (Command.append k v) s = Strings.handle_append now k v s
execute fl info now (Command.str_len k) s = Strings.handle_strlen now k s
execute fl info now (Command.type k) s = Keys.handle_type now k s
execute fl info now (Command.keys pattern) s = Keys.handle_keys now pattern s
execute fl info now Command.flush_all s = Keys.handle_flushall s
execute fl info now (Command.l_push k vals) s = Lists.handle_l_push now k vals s
execute fl info now (Command.r_push k vals) s = Lists.handle_r_push now k vals s
execute fl info now (Command.l_pop k) s = Lists.handle_l_pop now k s
execute fl info now (Command.r_pop k) s = Lists.handle_r_pop now k s
execute fl info now (Command.l_len k) s = Lists.handle_l_len now k s
execute fl info now (Command.l_index k i) s = Lists.handle_l_index now k i s
execute fl info now (Command.l_range k start stop) s = Lists.handle_l_range now k start stop s
execute fl info now (Command.s_add k ms) s = Sets.handle_s_add now k ms s
execute fl info now (Command.s_rem k ms) s = Sets.handle_s_rem now k ms s
execute fl info now (Command.s_members k) s = Sets.handle_s_members now k s
execute fl info now (Command.s_is_member k m) s = Sets.handle_s_is_member now k m s
execute fl info now (Command.s_card k) s = Sets.handle_s_card now k s
execute fl info now (Command.s_pop k count) s = Sets.handle_s_pop now k count s
execute fl info now (Command.h_set k fields) s = Hashes.handle_h_set now k fields s
execute fl info now (Command.h_get k field) s = Hashes.handle_h_get now k field s
execute fl info now (Command.h_del k fields) s = Hashes.handle_h_del now k fields s
execute fl info now (Command.h_len k) s = Hashes.handle_h_len now k s
execute fl info now (Command.h_exists k field) s = Hashes.handle_h_exists now k field s
execute fl info now (Command.h_keys k) s = Hashes.handle_h_keys now k s
execute fl info now (Command.h_vals k) s = Hashes.handle_h_vals now k s
execute fl info now (Command.h_get_all k) s = Hashes.handle_h_get_all now k s
execute fl info now (Command.z_add k entries) s = SortedSets.handle_z_add fl now k entries s
execute fl info now (Command.z_range k start stop) s = SortedSets.handle_z_range now k start stop s
execute fl info now (Command.z_rev_range k start stop) s =
    SortedSets.handle_z_rev_range now k start stop s
execute fl info now (Command.z_score k m) s = SortedSets.handle_z_score fl now k m s
execute fl info now (Command.z_rem k ms) s = SortedSets.handle_z_rem fl now k ms s
execute fl info now (Command.z_card k) s = SortedSets.handle_z_card now k s
execute fl info now (Command.z_count k lo hi) s = SortedSets.handle_z_count fl now k lo hi s
