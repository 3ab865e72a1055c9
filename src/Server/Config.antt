-- ===== src/Server/Config.antt =====
-- `ServerConfig` of src/server.rs.
use fire_redis.Prelude.{ℕ, Bool, ◌||◌, Bytes, codes}
use fire_redis.Persistence.Config as P
use fire_redis.Persistence.Config.{PersistenceConfig}

pub record ServerConfig : Type 0 where
  pub bind_addr : Bytes
  pub port : ℕ
  pub max_connections : ℕ
  pub timeout_secs : ℕ
  pub eviction_interval_ms : ℕ
  pub persistence : PersistenceConfig

abbrev pub default_config : ServerConfig
default_config = record {
  bind_addr = codes "127.0.0.1";
  port = 6379;
  max_connections = 10000;
  timeout_secs = 30;
  eviction_interval_ms = 1000;
  persistence = P.default;
}

abbrev pub new_config : Bytes → ℕ → ServerConfig
new_config bind_addr port = record default_config { bind_addr = bind_addr; port = port }

abbrev pub with_persistence : Bytes → ℕ → PersistenceConfig → ServerConfig
with_persistence bind_addr port persistence = record default_config {
  bind_addr = bind_addr;
  port = port;
  persistence = persistence;
}

abbrev pub with_eviction_interval_ms : ℕ → ServerConfig → ServerConfig
with_eviction_interval_ms ms config = record config { eviction_interval_ms = ms }

-- Whether `Server::new` makes a persistence manager.
abbrev pub has_manager : ServerConfig → Bool
has_manager config = config.persistence.rdb_enabled || config.persistence.aof_enabled
