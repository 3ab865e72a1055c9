-- ===== src/Commands/Parse.antt =====
-- `Command::try_from` and its parsers (src/commands/mod.rs). The tests on `args.len()` are the
-- patterns; `args[0]` is the command's name.
use fire_redis.Prelude.{
  ℤ, ◌*◌, ◌%◌, ◌^◌, ◌||◌, Option, none, some, List, [], ◌∷◌, ◌++◌, Bytes, codes, to_ascii_uppercase,
  if◌then◌else◌, length, drop, ltb, ◌==◌,
}
use fire_redis.Dict
use fire_redis.Dict.{Dict, is_some}
use fire_redis.Platform.{Platform}
use fire_redis.Utf8.{from_utf8_lossy}
use fire_redis.Resp.{Value, error, bulk_string}
use fire_redis.Commands.Types.{Command, always}
use fire_redis.Commands.Args.{
  Result, ok, err, ◌>>=◌, bulk_to_string, bulk_to_bytes, bulk_to_u64, bulk_to_i64, bulk_to_f64,
  collect, collect_pairs,
}
use fire_redis.Commands.SetOptions.{parse_options}

abbrev pub wrong_number : Value
wrong_number = error (codes "ERR wrong number of arguments")

-- A parser of one command gets all the arguments.
abbrev pub Parser : Type 0
Parser = List Value → Result Command

-- A command without arguments of its own, whose parser looks at none.
abbrev constant : Command → Parser
constant c args = ok c

unfoldable pub parse_echo : Parser
parse_echo (_ ∷ bulk_string (some b) ∷ []) = ok (Command.echo b)
parse_echo (_ ∷ v ∷ []) = err (error (codes "ERR value is not string"))
parse_echo _ = err wrong_number

-- The parsers of the commands that take one key.
unfoldable pub parse_key : Value → (Bytes → Command) → Parser
unfolding bulk_to_string
parse_key e c (_ ∷ k ∷ []) = do key ← bulk_to_string k; ok (c key)
parse_key e c _ = err e

unfoldable pub parse_get : Parser
unfolding parse_key
parse_get = parse_key (error (codes "ERR wrong number of arguments for 'get'")) Command.get

unfoldable pub parse_set : Parser
unfolding parse_options bulk_to_bytes
parse_set (_ ∷ k ∷ v ∷ options) = do
  key ← bulk_to_string k
  val ← bulk_to_bytes v
  (px, c) ← parse_options options none always
  ok (Command.set key val px c)
parse_set _ = err (error (codes "ERR wrong number of arguments for 'set'"))

-- The parsers of DEL, EXISTS and MGET: at least one key.
unfoldable pub parse_keys_list : (List Bytes → Command) → Parser
unfolding collect bulk_to_string
parse_keys_list c (_ ∷ k ∷ ks) = do keys ← collect bulk_to_string (k ∷ ks); ok (c keys)
parse_keys_list c _ = err wrong_number

-- The product of the seconds is not checked: it wraps around in a release build.
unfoldable pub parse_expire : Parser
unfolding bulk_to_string bulk_to_u64
parse_expire (_ ∷ k ∷ t ∷ []) = do
  key ← bulk_to_string k
  ttl ← bulk_to_u64 t
  ok (Command.expire key (ttl * 1000 % 2 ^ 64))
parse_expire _ = err wrong_number

unfoldable pub parse_mset : Parser
unfolding collect_pairs bulk_to_string bulk_to_bytes
parse_mset args =
    let entries = collect_pairs bulk_to_string bulk_to_bytes (drop 1 args) in
    if ltb (length args) 3 || length args % 2 == 0
    then err wrong_number
    else do es ← entries; ok (Command.m_set es)

unfoldable pub parse_append : Parser
unfolding bulk_to_string bulk_to_bytes
parse_append (_ ∷ k ∷ v ∷ []) = do
  key ← bulk_to_string k
  val ← bulk_to_bytes v
  ok (Command.append key val)
parse_append _ = err wrong_number

unfoldable pub parse_flushall : Parser
parse_flushall (_ ∷ []) = ok Command.flush_all
parse_flushall _ = err wrong_number

-- The parsers of LPUSH, RPUSH, SADD, SREM and ZREM: a key and at least one more argument.
unfoldable pub parse_key_bytes : (Bytes → List Bytes → Command) → Parser
unfolding collect bulk_to_string bulk_to_bytes
parse_key_bytes c (_ ∷ k ∷ v ∷ vs) = do
  key ← bulk_to_string k
  vals ← collect bulk_to_bytes (v ∷ vs)
  ok (c key vals)
parse_key_bytes c _ = err wrong_number

unfoldable pub parse_l_index : Parser
unfolding bulk_to_string bulk_to_i64
parse_l_index (_ ∷ k ∷ i ∷ []) = do
  key ← bulk_to_string k
  index ← bulk_to_i64 i
  ok (Command.l_index key index)
parse_l_index _ = err wrong_number

-- The parsers of LRANGE, ZRANGE and ZREVRANGE.
unfoldable pub parse_range : (Bytes → ℤ → ℤ → Command) → Parser
unfolding bulk_to_string bulk_to_i64
parse_range c (_ ∷ k ∷ i ∷ j ∷ []) = do
  key ← bulk_to_string k
  start ← bulk_to_i64 i
  stop ← bulk_to_i64 j
  ok (c key start stop)
parse_range c _ = err wrong_number

-- The parsers of SISMEMBER and ZSCORE.
unfoldable pub parse_key_member : (Bytes → Bytes → Command) → Parser
unfolding bulk_to_string bulk_to_bytes
parse_key_member c (_ ∷ k ∷ m ∷ []) = do
  key ← bulk_to_string k
  member ← bulk_to_bytes m
  ok (c key member)
parse_key_member c _ = err wrong_number

unfoldable pub parse_s_pop : Parser
unfolding bulk_to_string bulk_to_u64
parse_s_pop (_ ∷ k ∷ []) = do key ← bulk_to_string k; ok (Command.s_pop key none)
parse_s_pop (_ ∷ k ∷ n ∷ []) = do
  key ← bulk_to_string k
  count ← bulk_to_u64 n
  ok (Command.s_pop key (some count))
parse_s_pop _ = err wrong_number

unfoldable pub parse_h_set : Parser
unfolding collect_pairs bulk_to_string bulk_to_bytes
parse_h_set (_ ∷ k ∷ f ∷ v ∷ vs) =
    if length vs % 2 == 0
    then (do
      key ← bulk_to_string k
      fields ← collect_pairs bulk_to_string bulk_to_bytes (f ∷ v ∷ vs)
      ok (Command.h_set key fields))
    else err wrong_number
parse_h_set _ = err wrong_number

-- The parsers of HGET and HEXISTS.
unfoldable pub parse_key_field : (Bytes → Bytes → Command) → Parser
unfolding bulk_to_string
parse_key_field c (_ ∷ k ∷ f ∷ []) = do
  key ← bulk_to_string k
  field ← bulk_to_string f
  ok (c key field)
parse_key_field c _ = err wrong_number

unfoldable pub parse_h_del : Parser
unfolding collect bulk_to_string
parse_h_del (_ ∷ k ∷ f ∷ fs) = do
  key ← bulk_to_string k
  fields ← collect bulk_to_string (f ∷ fs)
  ok (Command.h_del key fields)
parse_h_del _ = err wrong_number

unfoldable pub parse_z_add : Platform → Parser
unfolding collect_pairs bulk_to_string bulk_to_bytes bulk_to_f64
parse_z_add fl (_ ∷ k ∷ x ∷ m ∷ rest) =
    if length rest % 2 == 0
    then (do
      key ← bulk_to_string k
      entries ← collect_pairs (bulk_to_f64 fl) bulk_to_bytes (x ∷ m ∷ rest)
      ok (Command.z_add key entries))
    else err wrong_number
parse_z_add fl _ = err wrong_number

unfoldable pub parse_z_count : Platform → Parser
unfolding bulk_to_string bulk_to_f64
parse_z_count fl (_ ∷ k ∷ lo ∷ hi ∷ []) = do
  key ← bulk_to_string k
  min_score ← bulk_to_f64 fl lo
  max_score ← bulk_to_f64 fl hi
  ok (Command.z_count key min_score max_score)
parse_z_count fl _ = err wrong_number

-- The arms of the match on the command's name, in the order of the source.
unfoldable pub parsers : Platform → Dict Parser
unfolding parse_echo parse_get parse_set parse_keys_list parse_expire parse_key parse_mset
    parse_append parse_flushall parse_key_bytes parse_l_index parse_range parse_key_member
    parse_s_pop parse_h_set parse_key_field parse_h_del parse_z_add parse_z_count
parsers fl =
    (codes "PING", constant Command.ping)
    ∷ (codes "ECHO", parse_echo)
    ∷ (codes "INFO", constant Command.info)
    ∷ (codes "GET", parse_get)
    ∷ (codes "SET", parse_set)
    ∷ (codes "DEL", parse_keys_list Command.del)
    ∷ (codes "EXISTS", parse_keys_list Command.exists)
    ∷ (codes "EXPIRE", parse_expire)
    ∷ (codes "TTL", parse_key wrong_number Command.ttl)
    ∷ (codes "PTTL", parse_key wrong_number Command.pttl)
    ∷ (codes "INCR", parse_key wrong_number Command.incr)
    ∷ (codes "DECR", parse_key wrong_number Command.decr)
    ∷ (codes "MGET", parse_keys_list Command.m_get)
    ∷ (codes "MSET", parse_mset)
    ∷ (codes "APPEND", parse_append)
    ∷ (codes "STRLEN", parse_key wrong_number Command.str_len)
    ∷ (codes "TYPE", parse_key wrong_number Command.type)
    ∷ (codes "KEYS", parse_key wrong_number Command.keys)
    ∷ (codes "QUIT", constant Command.quit)
    ∷ (codes "FLUSHALL", parse_flushall)
    ∷ (codes "LPUSH", parse_key_bytes Command.l_push)
    ∷ (codes "RPUSH", parse_key_bytes Command.r_push)
    ∷ (codes "LPOP", parse_key wrong_number Command.l_pop)
    ∷ (codes "RPOP", parse_key wrong_number Command.r_pop)
    ∷ (codes "LLEN", parse_key wrong_number Command.l_len)
    ∷ (codes "LINDEX", parse_l_index)
    ∷ (codes "LRANGE", parse_range Command.l_range)
    ∷ (codes "SADD", parse_key_bytes Command.s_add)
    ∷ (codes "SREM", parse_key_bytes Command.s_rem)
    ∷ (codes "SMEMBERS", parse_key wrong_number Command.s_members)
    ∷ (codes "SISMEMBER", parse_key_member Command.s_is_member)
    ∷ (codes "SCARD", parse_key wrong_number Command.s_card)
    ∷ (codes "SPOP", parse_s_pop)
    ∷ (codes "HSET", parse_h_set)
    ∷ (codes "HGET", parse_key_field Command.h_get)
    ∷ (codes "HDEL", parse_h_del)
    ∷ (codes "HLEN", parse_key wrong_number Command.h_len)
    ∷ (codes "HEXISTS", parse_key_field Command.h_exists)
    ∷ (codes "HKEYS", parse_key wrong_number Command.h_keys)
    ∷ (codes "HVALS", parse_key wrong_number Command.h_vals)
    ∷ (codes "HGETALL", parse_key wrong_number Command.h_get_all)
    ∷ (codes "ZADD", parse_z_add fl)
    ∷ (codes "ZRANGE", parse_range Command.z_range)
    ∷ (codes "ZREVRANGE", parse_range Command.z_rev_range)
    ∷ (codes "ZSCORE", parse_key_member Command.z_score)
    ∷ (codes "ZREM", parse_key_bytes Command.z_rem)
    ∷ (codes "ZCARD", parse_key wrong_number Command.z_card)
    ∷ (codes "ZCOUNT", parse_z_count fl)
    ∷ []

abbrev pub unknown_command : Bytes → Value
unknown_command cmd = error (codes "ERR unknown command '" ++ from_utf8_lossy cmd ++ codes "'")

abbrev pub run_parser : Option Parser → Bytes → Parser
run_parser none cmd args = err (unknown_command cmd)
run_parser (some parse) cmd args = parse args

unfoldable pub try_from : Platform → List Value → Result Command
unfolding parsers
try_from fl [] = err (error (codes "ERR empty command"))
try_from fl (bulk_string (some b) ∷ args) =
    let cmd = to_ascii_uppercase b in
    run_parser (Dict.get (parsers fl) cmd) cmd (bulk_string (some b) ∷ args)
try_from fl (_ ∷ args) = err (error (codes "ERR invalid command"))
