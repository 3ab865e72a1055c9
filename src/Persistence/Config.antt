-- ===== src/Persistence/Config.antt =====
-- `PersistenceConfig` and `PersistenceStats` of src/persistence/mod.rs. A path is its text.
use fire_redis.Prelude.{ℕ, Bool, true, false, Option, none, List, [], ◌∷◌, Bytes, codes}
use fire_redis.Persistence.Aof.{AofFsyncPolicy, every_sec}

pub record PersistenceConfig : Type 0 where
  pub rdb_enabled : Bool
  pub rdb_file : Bytes
  pub rdb_save_conditions : List (ℕ × ℕ)
  pub aof_enabled : Bool
  pub aof_file : Bytes
  pub aof_fsync : AofFsyncPolicy
  pub aof_rewrite_percentage : ℕ
  pub aof_rewrite_min_size : ℕ

abbrev pub default : PersistenceConfig
default = record {
  rdb_enabled = true;
  rdb_file = codes "dump.rdb";
  rdb_save_conditions = (1, 900) ∷ (10, 300) ∷ (1000, 60) ∷ [];
  aof_enabled = false;
  aof_file = codes "appendonly.aof";
  aof_fsync = every_sec;
  aof_rewrite_percentage = 100;
  aof_rewrite_min_size = 64;
}

abbrev pub with_aof : PersistenceConfig
with_aof = record default { aof_enabled = true }

abbrev pub disabled : PersistenceConfig
disabled = record default { rdb_enabled = false; aof_enabled = false }

pub record PersistenceStats : Type 0 where
  pub rdb_last_save_time : Option ℕ
  pub rdb_last_save_status : Option Bytes
  pub rdb_file_size : Option ℕ
  pub aof_file_size : Option ℕ
  pub aof_rewrite_in_progress : Bool
  pub aof_total_commands : ℕ

abbrev pub no_stats : PersistenceStats
no_stats = record {
  rdb_last_save_time = none;
  rdb_last_save_status = none;
  rdb_file_size = none;
  aof_file_size = none;
  aof_rewrite_in_progress = false;
  aof_total_commands = 0;
}
