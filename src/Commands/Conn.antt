-- ===== src/Commands/Conn.antt =====
-- src/commands/conn.rs: replies that do not touch the keyspace.
use fire_redis.Prelude.{some, Bytes, codes}
use fire_redis.Metrics.{Metrics}
use fire_redis.Resp.{Value, simple_string, bulk_string}

unfoldable pub handle_ping : Value
handle_ping = simple_string (codes "PONG")

unfoldable pub handle_echo : Bytes → Value
handle_echo msg = bulk_string (some msg)

unfoldable pub handle_quit : Value
handle_quit = simple_string (codes "OK")

-- `info_string` renders the counters.
unfoldable pub handle_info : (Metrics → Bytes) → Metrics → Value
handle_info info_string metrics = bulk_string (some (info_string metrics))
