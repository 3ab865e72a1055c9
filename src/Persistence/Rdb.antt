-- ===== src/Persistence/Rdb.antt =====
-- src/persistence/rdb.rs: the snapshot file, written by `RdbSerializer` and read by `RdbDeserializer`.
--
-- The writer appends to a file: a function returns the bytes that it writes. A position in the
-- reader's buffer is the pair of `pos` and the bytes from there on, `buf[pos..]`. `wall` is what
-- `current_time_ms()` reads.
pub mod Reader
pub mod RoundTrip
pub mod Records
pub mod Entries
pub mod Recovery
pub mod Termination
use fire_redis.Prelude.{
  ℕ, zero, suc, ◌+◌, ◌-◌, ◌*◌, ◌/◌, ◌%◌, ◌^◌, Bool, true, false, Option, none, some, List, [], ◌∷◌,
  ◌++◌, Bytes, codes, beq, ltb, leb, ◌==◌, length, take, drop, if◌then◌else◌,
}
use fire_redis.Dict
use fire_redis.Dict.{Dict, HashSet}
use fire_redis.Decimal.{to_string}
use fire_redis.Utf8.{from_utf8_lossy}
use fire_redis.Platform.{Platform, Score}
use fire_redis.Store
use fire_redis.Store.{
  StoredValue, string, list, set, hash, sorted_set, Store, Instant, Tree, as_millis, restore,
  set_with_ttl,
}
use fire_redis.Store.SortedSets.{tree_insert}

abbrev pub op_eof : ℕ
op_eof = 0xFF

abbrev pub op_select_db : ℕ
op_select_db = 0xFE

abbrev pub op_expire_time : ℕ
op_expire_time = 0xFD

abbrev pub op_expire_time_ms : ℕ
op_expire_time_ms = 0xFC

abbrev pub op_resize_db : ℕ
op_resize_db = 0xFB

abbrev pub op_aux : ℕ
op_aux = 0xFA

-- u64::to_be_bytes, by the number of bytes left.
unfoldable pub to_be_bytes : ℕ → ℕ → Bytes
to_be_bytes zero n = []
to_be_bytes (suc k) n = n / 256 ^ k % 256 ∷ to_be_bytes k n

-- u64::to_le_bytes
unfoldable pub to_le_bytes : ℕ → ℕ → Bytes
to_le_bytes zero n = []
to_le_bytes (suc k) n = n % 256 ∷ to_le_bytes k (n / 256)

-- The bytes of a number from the most significant on, behind those read so far.
unfoldable pub from_be_bytes : Bytes → ℕ → ℕ
from_be_bytes [] acc = acc
from_be_bytes (b ∷ bs) acc = from_be_bytes bs (acc * 256 + b)

unfoldable pub from_le_bytes : Bytes → ℕ
from_le_bytes [] = 0
from_le_bytes (b ∷ bs) = b + 256 * from_le_bytes bs

-- `(1 << 14) | len` is a sum, as `len` is below 1 << 14; of its eight bytes the last two are written.
unfoldable pub write_length : ℕ → Bytes
unfolding to_be_bytes
write_length len =
    if ltb len 64
    then len ∷ []
    else if ltb len 16384
    then to_be_bytes 2 (16384 + len)
    else 0x80 ∷ to_be_bytes 8 len

-- `write_string` and `write_bytes` write the same bytes.
unfoldable pub write_bytes : Bytes → Bytes
write_bytes b = write_length (length b) ++ b

unfoldable pub write_double : Platform → Score → Bytes
write_double fl x = write_bytes (fl.to_string x)

unfoldable pub write_aux : Bytes → Bytes → Bytes
write_aux key v = op_aux ∷ write_bytes key ++ write_bytes v

abbrev pub value_type : StoredValue → ℕ
value_type (string _) = 0
value_type (list _) = 1
value_type (set _) = 2
value_type (sorted_set _ _) = 3
value_type (hash _) = 4

-- The loops of `write_value`.
unfoldable pub write_items : List Bytes → Bytes
write_items [] = []
write_items (x ∷ xs) = write_bytes x ++ write_items xs

unfoldable pub write_fields : Dict Bytes → Bytes
write_fields [] = []
write_fields ((f, v) ∷ map) = write_bytes f ++ (write_bytes v ++ write_fields map)

unfoldable pub write_scores : Platform → Dict Score → Bytes
write_scores fl [] = []
write_scores fl ((m, x) ∷ scores) = write_double fl x ++ (write_bytes m ++ write_scores fl scores)

unfoldable pub write_value : Platform → StoredValue → Bytes
unfolding write_items write_fields write_scores
write_value fl (string b) = write_bytes b
write_value fl (list xs) = write_length (length xs) ++ write_items xs
write_value fl (set ms) = write_length (length ms) ++ write_items (Dict.keys ms)
write_value fl (hash map) = write_length (length map) ++ write_fields map
write_value fl (sorted_set scores tree) = write_length (length scores) ++ write_scores fl scores

-- The type, the key and the value.
abbrev pub write_entry : Platform → Bytes → StoredValue → Bytes
write_entry fl key v = value_type v ∷ write_bytes key ++ write_value fl v

-- The deadline on the wall clock: the milliseconds left, from now.
abbrev pub expire_at_ms : ℕ → Instant → Instant → ℕ
expire_at_ms wall now t = (wall + as_millis (t - now) % 2 ^ 64) % 2 ^ 64

-- One round of the loop over the entries; an expired key is skipped.
abbrev pub save_entry : Platform → ℕ → Instant → Bytes → StoredValue → Option Instant → Bytes
save_entry fl wall now key v none = write_entry fl key v
save_entry fl wall now key v (some t) =
    if leb t now
    then []
    else op_expire_time_ms ∷ to_le_bytes 8 (expire_at_ms wall now t) ++ write_entry fl key v

unfoldable pub save_entries : Platform → ℕ → Instant → Dict StoredValue → Dict Instant → Bytes
save_entries fl wall now [] expirations = []
save_entries fl wall now ((key, v) ∷ entries) expirations =
    save_entry fl wall now key v (Dict.get expirations key)
    ++ save_entries fl wall now entries expirations

-- The header, up to the database selector.
unfoldable pub header : ℕ → Bytes
header wall =
    codes "REDIS"
    ++ (codes "0011"
        ++ (write_aux (codes "redis-ver") (codes "7.0.0")
            ++ (write_aux (codes "redis-bits") (codes "64")
                ++ (write_aux (codes "ctime") (to_string (wall / 1000))
                    ++ (op_select_db ∷ write_length 0)))))

abbrev pub resize_db : Dict StoredValue → Dict Instant → Bytes
resize_db entries expirations =
    op_resize_db ∷ write_length (length entries) ++ write_length (length expirations)

abbrev pub trailer : Bytes
trailer = op_eof ∷ 0 ∷ 0 ∷ 0 ∷ 0 ∷ 0 ∷ 0 ∷ 0 ∷ 0 ∷ []

-- `save_to_file`: the file that takes the place of the old one.
unfoldable pub save : Platform → ℕ → Instant → Store → Store × Bytes
unfolding header save_entries
save fl wall now s =
    let (s', (entries, expirations)) = Store.snapshot now s in
    (
      s',
      header wall
          ++ (resize_db entries expirations
              ++ (save_entries fl wall now entries expirations ++ trailer)),
    )
