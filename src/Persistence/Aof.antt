-- ===== src/Persistence/Aof.antt =====
-- src/persistence/aof.rs: the log of write commands, its replay and its rewrite.
--
-- A file is its bytes. The log's clock gives the instant at which the n-th command of a replay runs.
pub mod Replay
pub mod Recovery
pub mod Restore
pub mod Effects
pub mod Parses
pub mod Valid
use fire_redis.Prelude.{
  ℕ, zero, suc, ◌+◌, ◌-◌, ◌*◌, ◌/◌, Bool, true, false, not, Option, none, some, List, [], ◌∷◌, ◌++◌,
  map, Bytes, codes, beq, leb, to_ascii_uppercase, is_empty, length, if◌then◌else◌, Outcome,
  returns, panics,
}
use fire_redis.Dict
use fire_redis.Dict.{Dict}
use fire_redis.Decimal.{to_string}
use fire_redis.Platform.{Platform, Score}
use fire_redis.Metrics.{Metrics}
use fire_redis.Resp.{
  Value, simple_string, error, integer, bulk_string, array, null_array, null, values_of, list_of,
  Decoded, frame, need_more, failed, panicked, stuck, encode, decode,
}
use fire_redis.Store
use fire_redis.Store.{StoredValue, string, list, set, hash, sorted_set, Store, Instant}
use fire_redis.Commands.Types.{Command}
use fire_redis.Commands.Args.{Result, ok, err}
use fire_redis.Commands.Parse.{try_from}
use fire_redis.Commands.Execute.{execute}
use fire_redis.Commands.Data.Replies.{bulk}

pub data AofFsyncPolicy : Type 0 where
  always every_sec no_fsync : AofFsyncPolicy

-- The bytes of the file, how many of them `sync_all` has brought to the disk, and the count.
pub record AofWriter : Type 0 where
  pub file : Bytes
  pub synced : ℕ
  pub fsync_policy : AofFsyncPolicy
  pub bytes_written : ℕ

-- `AofWriter::new` on a file with these bytes; they were on the disk before.
unfoldable pub open_writer : Bytes → AofFsyncPolicy → AofWriter
open_writer content policy = record {
  file = content;
  synced = length content;
  fsync_policy = policy;
  bytes_written = length content;
}

unfoldable pub fsync : AofWriter → AofWriter
fsync w = record w { synced = length w.file }

abbrev pub after_write : AofFsyncPolicy → AofWriter → AofWriter
after_write always w = record w { synced = length w.file }
after_write every_sec w = w
after_write no_fsync w = w

unfoldable pub append : Value → AofWriter → AofWriter
append command w =
    let buf = encode command [] in
    after_write w.fsync_policy
      (record w { file = w.file ++ buf; bytes_written = w.bytes_written + length buf })

unfoldable pub truncate : AofWriter → AofWriter
truncate w = record w { file = []; synced = 0; bytes_written = 0 }

-- Whether the command returned, and the store behind it.
abbrev pub settle : Store × Outcome Value → Store × Outcome (Unit {0})
settle (s, returns v) = (s, returns tt)
settle (s, panics) = (s, panics)

abbrev pub run_parsed :
    Platform → (Metrics → Bytes) → Instant → Result Command → Store → Store × Outcome (Unit {0})
run_parsed fl info now (err e) s = (s, returns tt)
run_parsed fl info now (ok c) s = settle (execute fl info now c s)

-- Anything but an array, and what does not parse, is passed over.
unfoldable pub execute_command :
    Platform → (Metrics → Bytes) → Instant → Value → Store → Store × Outcome (Unit {0})
execute_command fl info now (array args) s = run_parsed fl info now (try_from fl (list_of args)) s
execute_command fl info now _ s = (s, returns tt)

-- The commands executed; `crashed` is a panic, and `exhausted` has no counterpart.
pub data Replayed : Type 0 where
  done : ℕ → Replayed
  crashed : Replayed
  exhausted : Replayed

abbrev pub continue_replay :
    Store × Outcome (Unit {0}) → (Store → Store × Replayed) → Store × Replayed
continue_replay (s, returns _) next = next s
continue_replay (s, panics) next = (s, crashed)

-- One round on the result of `decode`; `next` is the loop on the bytes left.
unfoldable pub replay_round :
    Platform
    → (Metrics → Bytes)
    → Instant
    → ℕ
    → Decoded × Bytes
    → (Bytes → Store → Store × Replayed)
    → Store
    → Store × Replayed
replay_round fl info now count (frame v, rest) next s =
    continue_replay (execute_command fl info now v s) (next rest)
replay_round fl info now count (need_more, rest) next s = (s, done count)
replay_round fl info now count (failed e, rest) next s = (s, done count)
replay_round fl info now count (panicked, rest) next s = (s, crashed)
replay_round fl info now count (stuck, rest) next s = (s, exhausted)

unfoldable pub replay_loop :
    ℕ → Platform → (Metrics → Bytes) → (ℕ → Instant) → ℕ → Bytes → Store → Store × Replayed
unfolding replay_round
replay_loop zero fl info clock count bytes s = (s, exhausted)
replay_loop (suc f) fl info clock count bytes s =
    if is_empty bytes
    then (s, done count)
    else replay_round fl info (clock count) count (decode fl.most_values bytes)
        (λ rest t. replay_loop f fl info clock (count + 1) rest t) s

-- Every frame takes a byte at least, so one round more than there are bytes is enough.
unfoldable pub replay :
    Platform → (Metrics → Bytes) → (ℕ → Instant) → Bytes → Store → Store × Replayed
replay fl info clock bytes s = replay_loop (suc (length bytes)) fl info clock 0 bytes s

-- ms.div_ceil(1000)
abbrev pub div_ceil : ℕ → ℕ
div_ceil ms = (ms + 999) / 1000

abbrev pub command : Bytes → Bytes → List Bytes → Value
command name key args = array (values_of (map bulk (name ∷ key ∷ args)))

-- A collection that is empty is left out.
abbrev unless_empty : Bool → Value → List Value
unless_empty true c = []
unless_empty false c = c ∷ []

unfoldable pub field_args : Dict Bytes → List Bytes
field_args [] = []
field_args ((f, v) ∷ map) = f ∷ v ∷ field_args map

unfoldable pub score_args : Platform → Dict Score → List Bytes
score_args fl [] = []
score_args fl ((m, x) ∷ scores) = fl.to_string x ∷ m ∷ score_args fl scores

unfoldable pub data_commands : Platform → Bytes → StoredValue → List Value
unfolding field_args score_args
data_commands fl key (string b) = command (codes "SET") key (b ∷ []) ∷ []
data_commands fl key (list xs) = unless_empty (is_empty xs) (command (codes "RPUSH") key xs)
data_commands fl key (set ms) =
    unless_empty (is_empty ms) (command (codes "SADD") key (Dict.keys ms))
data_commands fl key (hash map) =
    unless_empty (is_empty map) (command (codes "HSET") key (field_args map))
data_commands fl key (sorted_set scores tree) =
    unless_empty (is_empty scores) (command (codes "ZADD") key (score_args fl scores))

-- At least one second: EXPIRE takes seconds.
abbrev pub expire_seconds : ℕ → ℕ
expire_seconds ms = Store.at_least_one (div_ceil ms)

unfoldable pub expire_commands : Bytes → Option ℕ → List Value
expire_commands key none = []
expire_commands key (some ms) =
    command (codes "EXPIRE") key (to_string (expire_seconds ms) ∷ []) ∷ []

unfoldable pub value_to_commands : Platform → Bytes → StoredValue → Option ℕ → List Value
unfolding data_commands expire_commands
value_to_commands fl key v ttl_ms = data_commands fl key v ++ expire_commands key ttl_ms

abbrev pub commands_of_entry : Platform → Instant → Bytes → Option StoredValue → Store → List Value
commands_of_entry fl now key none s = []
commands_of_entry fl now key (some v) s =
    value_to_commands fl key v (Store.ttl_ms_for_persistence now key s)

-- The two loops of `rewrite_aof`, over the keys and over the commands of each.
unfoldable pub rewrite_commands : Platform → Instant → List Bytes → Store → List Value
unfolding value_to_commands
rewrite_commands fl now [] s = []
rewrite_commands fl now (key ∷ keys) s =
    commands_of_entry fl now key (Store.get_for_restore key s) s ++ rewrite_commands fl now keys s

unfoldable pub encode_all : List Value → Bytes
encode_all [] = []
encode_all (v ∷ vs) = encode v [] ++ encode_all vs

-- The new file, and how many commands it has. The temporary file is opened for appending, so it
-- starts with the bytes that it had.
unfoldable pub rewrite_aof : Platform → Instant → Bytes → Store → Store × (Bytes × ℕ)
unfolding rewrite_commands encode_all
rewrite_aof fl now temp s =
    let (s', keys) = Store.keys now s in
    let commands = rewrite_commands fl now keys s' in
    (s', (temp ++ encode_all commands, length commands))

abbrev pub read_commands : List Bytes
read_commands =
    codes "GET"
    ∷ codes "MGET"
    ∷ codes "EXISTS"
    ∷ codes "TTL"
    ∷ codes "PTTL"
    ∷ codes "TYPE"
    ∷ codes "KEYS"
    ∷ codes "SCAN"
    ∷ codes "LRANGE"
    ∷ codes "LLEN"
    ∷ codes "LINDEX"
    ∷ codes "SMEMBERS"
    ∷ codes "SCARD"
    ∷ codes "SISMEMBER"
    ∷ codes "SRANDMEMBER"
    ∷ codes "HGET"
    ∷ codes "HMGET"
    ∷ codes "HGETALL"
    ∷ codes "HKEYS"
    ∷ codes "HVALS"
    ∷ codes "HLEN"
    ∷ codes "HEXISTS"
    ∷ codes "ZRANGE"
    ∷ codes "ZREVRANGE"
    ∷ codes "ZRANGEBYSCORE"
    ∷ codes "ZREVRANGEBYSCORE"
    ∷ codes "ZCARD"
    ∷ codes "ZSCORE"
    ∷ codes "ZRANK"
    ∷ codes "ZREVRANK"
    ∷ codes "ZCOUNT"
    ∷ codes "PING"
    ∷ codes "ECHO"
    ∷ codes "INFO"
    ∷ codes "QUIT"
    ∷ codes "SELECT"
    ∷ codes "DBSIZE"
    ∷ []

unfoldable pub contains : Bytes → List Bytes → Bool
contains name [] = false
contains name (c ∷ cs) = if beq c name then true else contains name cs

unfoldable pub should_log_to_aof : Bytes → Bool
unfolding contains
should_log_to_aof name = not (contains (to_ascii_uppercase name) read_commands)

unfoldable pub format_command_for_aof : Bytes → List Bytes → Value
format_command_for_aof cmd args = array (values_of (map bulk (cmd ∷ args)))
