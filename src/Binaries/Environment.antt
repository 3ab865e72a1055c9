-- ===== src/Binaries/Environment.antt =====
-- src/bin/server.rs: the configuration from the environment.
use fire_redis.Prelude.{Option, none, some, Bytes, codes, ℕ, leb, if◌then◌else◌}
use fire_redis.Decimal.{parse_u64}
use fire_redis.Server.Config.{ServerConfig, default_config}

-- `str::parse::<u16>`
unfoldable pub parse_u16 : Bytes → Option ℕ
parse_u16 s = elim (parse_u64 s) [ none ↦ none | some n ↦ if leb n 65535 then some n else none ]

abbrev pub or_else {ℓ} : {A : Type ℓ} → Option A → A → A
or_else none a = a
or_else (some b) a = b

-- What `REDIS_BIND` and `REDIS_PORT` hold; a port that is no `u16` counts as none.
unfoldable pub config_from : Option Bytes → Option Bytes → ServerConfig
unfolding parse_u16
config_from bind port = record default_config {
  bind_addr = or_else bind (codes "127.0.0.1");
  port = or_else (elim port [ none ↦ none | some p ↦ parse_u16 p ]) 6379;
}
