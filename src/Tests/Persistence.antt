-- ===== src/Tests/Persistence.antt =====
-- The theorems on persistence at concrete stores and files.
use fire_redis.Prelude.{
  ◌≡◌, ◌+◌, refl, none, some, [], ◌∷◌, ◌++◌, Bytes, codes, beq, arith, take, Bool-cases, inl, inr,
  subst, All, length, map,
}
use fire_redis.Dict
use fire_redis.Decimal.{to_string}
use fire_redis.Utf8.{is_utf8}
use fire_redis.Metrics.{new}
use fire_redis.Resp.{Value, bulk_string, array, values_of, encode, count}
use fire_redis.Store
use fire_redis.Store.{StoredValue, string, list, Store, Instant, with_metrics}
use fire_redis.Keeps.Valid.{IsValid, IsGood}
use fire_redis.Resp.Wire.{normal, IsWire}
use fire_redis.Persistence.Entries.{After}
use fire_redis.Persistence.Aof.{
  replay, encode_all, rewrite_aof, rewrite_commands, value_to_commands, done,
}
use fire_redis.Persistence.Aof.Replay.{run_log, replay-encode_all, Finishes, replay-Finishes}
use fire_redis.Persistence.Aof.Valid.{replay-IsValid}
use fire_redis.Persistence.Aof.Recovery as A
use fire_redis.Persistence.Aof.Recovery.{replay-rewrite_aof, CanSave}
use fire_redis.Persistence.Rdb.{save, write_value}
use fire_redis.Persistence.Rdb.Reader.{got, load, loaded, read_value}
use fire_redis.Persistence.Rdb.RoundTrip.{read_value-write_value}
use fire_redis.Persistence.Rdb.Entries.{CanStore, Back}
use fire_redis.Persistence.Rdb.Recovery.{load-save}
use fire_redis.Persistence.Rdb.Termination.{Ends, load-Ends}
use fire_redis.Persistence.Manager as M
use fire_redis.Persistence.Manager.{
  Disk, PersistenceManager, SaveTimes, load_on_startup, shutdown, from_aof, from_rdb, content_of,
}
use fire_redis.Tests.{bits, no_info, key, empty, three, empty-IsValid}

abbrev set_command : Value
set_command = array (
    values_of (
      bulk_string (some (codes "SET"))
      ∷ bulk_string (some key)
      ∷ bulk_string (some (codes "v"))
      ∷ []))

-- A key with a deadline.
abbrev pub stored : Store
stored = record {
  entries = (key, string (codes "v")) ∷ [];
  expirations = (key, 9000000) ∷ [];
  metrics = new;
}

pub stored-IsValid : IsValid bits stored
unfolding Dict.get
stored-IsValid = record {
  distinct = (refl, tt);
  deadlines = (refl, tt);
  attached = λ k e. elim (Bool-cases (beq key k)) [ inl same ↦ rw same refl | inr other ↦ cc ];
  good = λ k v e. elim (Bool-cases (beq key k)) [
    | inl same ↦ let u : string (codes "v") ≡ v = cc in subst (IsGood bits) u tt
    | inr other ↦ cc
  ];
}

set_command-IsWire : IsWire bits.most_values set_command
unfolding count
set_command-IsWire = (omega arith, omega arith, (omega arith, (omega arith, (omega arith, tt))))

read_value-write_value_example :
    read_value bits 1 3 (write_value bits (list three) ++ codes "x")
    ≡ got (list three) (3 + length (write_value bits (list three))) (codes "x")
read_value-write_value_example =
    read_value-write_value bits (list three) refl
      (omega arith, (omega arith, (omega arith, (omega arith, tt))), refl) 3 (codes "x")

load-Ends_example : Ends bits (load bits 5 7 (codes "REDIS0011*") empty).1
load-Ends_example = load-Ends bits 5 7 (codes "REDIS0011*") empty

replay-Finishes_example :
    Finishes bits no_info (λ n. n) (replay bits no_info (λ n. n) (codes "*1\r\n$4\r\nPI") empty)
replay-Finishes_example = replay-Finishes bits no_info (λ n. n) (codes "*1\r\n$4\r\nPI") empty

replay-IsValid_example : IsValid bits (replay bits no_info (λ n. n) (encode set_command []) empty).0
replay-IsValid_example =
    replay-IsValid bits no_info (λ n. n) (encode set_command []) empty empty-IsValid

-- The second SET is cut behind five bytes.
replay-encode_all_example :
    replay bits no_info
      (λ n. n)
      (encode_all (set_command ∷ []) ++ take 5 (encode set_command []))
      empty
    ≡ run_log bits no_info (λ n. n) 0 (map normal (set_command ∷ [])) empty
unfolding encode to_string count
replay-encode_all_example =
    replay-encode_all bits no_info (λ n. n) (set_command ∷ []) set_command 5 empty
      (set_command-IsWire, tt) set_command-IsWire (omega arith)

abbrev logged : Disk
logged = record { rdb = none; aof = some (encode_all (set_command ∷ [])) }

pub stored-CanStore : All (λ e. CanStore bits e.0 e.1) (Store.snapshot 10 stored).1.0
unfolding Store.snapshot is_utf8
stored-CanStore = ((refl, omega arith, omega arith), tt)

-- The deadline is ten milliseconds after the save, and a millisecond before it on the wall clock at the load.
load-save_example :
    (u : Store) × (load bits 1005 50 (save bits 1000 10 stored).1 (with_metrics new) ≡ (u, loaded))
    × ((j : Bytes)
        → After
            (Back bits 1000 10 1005 50 (Store.snapshot 10 stored).1.1)
            j
            (Dict.get (Store.snapshot 10 stored).1.0 j)
            (with_metrics new)
            u)
unfolding Store.snapshot
load-save_example =
    load-save bits 1000 10 1005 50 stored new stored-IsValid (omega arith) (omega arith)
      (omega arith) stored-CanStore

abbrev pub times : SaveTimes
times = record { wall = 1000; now = 10; unix_time = 1; finish = 12; elapsed_ms = 0 }

stored-CanSave :
    All (λ e. CanSave bits 10 (Store.keys 10 stored).0 e.0 e.1) (Store.keys 10 stored).0.entries
unfolding Store.keys is_utf8 Store.ttl_ms_for_persistence Dict.get beq
stored-CanSave = ((refl, tt, omega arith), tt)

stored-AreWire :
    All
      (IsWire bits.most_values)
      (rewrite_commands bits 10 (Store.keys 10 stored).1 (Store.keys 10 stored).0)
unfolding Store.keys rewrite_commands Store.get_for_restore count Dict.get beq value_to_commands
    Store.ttl_ms_for_persistence to_string
stored-AreWire = (
  (omega arith, omega arith, (omega arith, (omega arith, (omega arith, tt)))),
  ((omega arith, omega arith, (omega arith, (omega arith, (omega arith, tt)))), tt),
)

replay-rewrite_aof_example :
    (u : Store) × (replay bits no_info
        (λ n. 50)
        (rewrite_aof bits 10 [] stored).1.0
        (with_metrics new)
      ≡ (u, done (rewrite_aof bits 10 [] stored).1.1))
    × ((j : Bytes)
        → After
            (A.Back 10 50 (Store.keys 10 stored).0)
            j
            (Dict.get (Store.keys 10 stored).0.entries j)
            (with_metrics new)
            u)
replay-rewrite_aof_example =
    replay-rewrite_aof bits no_info 10 50 stored new stored-IsValid stored-CanSave stored-AreWire
