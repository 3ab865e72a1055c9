-- ===== src/Persistence/Rdb/Reader.antt =====
-- `RdbDeserializer` of src/persistence/rdb.rs.
use fire_redis.Prelude.{
  Bool, true, false, ℕ, zero, suc, ◌+◌, ◌-◌, ◌*◌, ◌/◌, ◌%◌, ◌^◌, ◌||◌, not, Option, none, some,
  List, [], ◌∷◌, Bytes, codes, beq, ltb, leb, ◌==◌, length, take, drop, if◌then◌else◌,
}
use fire_redis.Dict
use fire_redis.Dict.{Dict, HashSet}
use fire_redis.Utf8.{from_utf8_lossy}
use fire_redis.Platform.{Platform, Score}
use fire_redis.Store.{
  StoredValue, string, list, set, hash, sorted_set, Store, Instant, Tree, restore, set_with_ttl,
}
use fire_redis.Store.SortedSets.{tree_insert}
use fire_redis.Persistence.Rdb.{
  op_eof, op_select_db, op_expire_time, op_expire_time_ms, op_resize_db, op_aux, from_be_bytes,
  from_le_bytes,
}

-- The messages of `PersistenceError::InvalidFormat`.
pub data RdbError : Type 0 where
  invalid_magic truncated_expire_time unexpected_end truncated_length invalid_length : RdbError
  truncated_string invalid_score : RdbError
  unknown_type : ℕ → RdbError

-- What was read, the position behind it and the bytes from there on.
pub data Read (A : Type 0) : Type 0 where
  got : A → ℕ → Bytes → Read A
  invalid : RdbError → Read A
  panicked : Read A

abbrev pub then_read : {A B : Type 0} → Read A → (A → ℕ → Bytes → Read B) → Read B
then_read (got a pos buf) f = f a pos buf
then_read (invalid e) f = invalid e
then_read panicked f = panicked

-- The two bits of the encoding, and the six of the number.
unfoldable pub read_length : ℕ → Bytes → Read ℕ
read_length pos [] = invalid unexpected_end
read_length pos (first ∷ []) =
    if first / 64 % 4 == 0
    then got (first % 64) (pos + 1) []
    else if ltb (first / 64 % 4) 3
    then invalid truncated_length
    else invalid invalid_length
read_length pos (first ∷ b ∷ rest) =
    if first / 64 % 4 == 0
    then got (first % 64) (pos + 1) (b ∷ rest)
    else if first / 64 % 4 == 1
    then got (first % 64 * 256 + b) (pos + 2) rest
    else if first / 64 % 4 == 2
    then if ltb (length (b ∷ rest)) 8
      then invalid truncated_length
      else got (from_be_bytes (take 8 (b ∷ rest)) 0) (pos + 9) (drop 8 (b ∷ rest))
    else invalid invalid_length

-- `pos + len` wraps around past 2^64, and the slice then ends before it starts. A buffer is shorter
-- than 2^64 bytes, so a string that is all there does not come so far.
abbrev pub slice_string : ℕ → ℕ → Bytes → Read Bytes
slice_string len pos buf =
    if leb len (length buf)
    then got (take len buf) (pos + len) (drop len buf)
    else if leb (2 ^ 64) (pos + len)
    then panicked
    else invalid truncated_string

unfoldable pub read_string_bytes : ℕ → Bytes → Read Bytes
read_string_bytes pos buf = then_read (read_length pos buf) slice_string

-- The loops of `read_value`, by the number of rounds left.
unfoldable pub read_items : ℕ → ℕ → Bytes → Read (List Bytes)
read_items zero pos buf = got [] pos buf
read_items (suc n) pos buf =
    then_read (read_string_bytes pos buf)
      λ x pos' buf'. then_read (read_items n pos' buf') λ xs pos'' buf''. got (x ∷ xs) pos'' buf''

unfoldable pub read_members : ℕ → HashSet → ℕ → Bytes → Read HashSet
read_members zero members pos buf = got members pos buf
read_members (suc n) members pos buf =
    then_read (read_string_bytes pos buf)
      λ m pos' buf'. read_members n (Dict.insert members m tt) pos' buf'

unfoldable pub read_fields : ℕ → Dict Bytes → ℕ → Bytes → Read (Dict Bytes)
read_fields zero map pos buf = got map pos buf
read_fields (suc n) map pos buf = then_read (read_string_bytes pos buf) λ f pos' buf'.
    then_read (read_string_bytes pos' buf')
      λ v pos'' buf''. read_fields n (Dict.insert map (from_utf8_lossy f) v) pos'' buf''

abbrev pub scored_or : {A : Type 0} → Option Score → (Score → Read A) → Read A
scored_or none f = invalid invalid_score
scored_or (some x) f = f x

-- The member is put into the tree whether or not it had a score before.
unfoldable pub read_scores : Platform → ℕ → Dict Score → Tree → ℕ → Bytes → Read (Dict Score × Tree)
unfolding tree_insert
read_scores fl zero scores tree pos buf = got (scores, tree) pos buf
read_scores fl (suc n) scores tree pos buf = then_read (read_string_bytes pos buf) λ text pos' buf'.
    scored_or (fl.parse (from_utf8_lossy text)) λ x.
      then_read (read_string_bytes pos' buf') λ m pos'' buf''.
        read_scores fl n (Dict.insert scores m x) (tree_insert fl x m tree) pos'' buf''

-- A capacity overflow is a panic.
abbrev pub if_room : {A : Type 0} → Bool → Read A → Read A
if_room true r = r
if_room false r = panicked

unfoldable pub read_value : Platform → ℕ → ℕ → Bytes → Read StoredValue
unfolding read_length read_string_bytes read_items read_members read_fields read_scores
read_value fl type pos buf =
    if type == 0
    then then_read (read_string_bytes pos buf) (λ b. got (string b))
    else if type == 1
    then then_read (read_length pos buf) (λ n pos' buf'.
      if_room (fl.has_room 1 n) (then_read (read_items n pos' buf') (λ xs. got (list xs))))
    else if type == 2
    then then_read (read_length pos buf) (λ n pos' buf'.
      if_room (fl.has_room 2 n) (then_read (read_members n [] pos' buf') (λ ms. got (set ms))))
    else if type == 4
    then then_read (read_length pos buf) (λ n pos' buf'.
      if_room (fl.has_room 4 n) (then_read (read_fields n [] pos' buf') (λ map. got (hash map))))
    else if type == 3
    then then_read (read_length pos buf) (λ n pos' buf'.
      if_room (fl.has_room 3 n)
        (then_read (read_scores fl n [] [] pos' buf') (λ r. got (sorted_set r.0 r.1))))
    else invalid (unknown_type type)

-- The key and the value of an entry of this type.
unfoldable pub read_entry : Platform → ℕ → ℕ → Bytes → Read (Bytes × StoredValue)
unfolding read_value
read_entry fl type pos buf =
    then_read (read_string_bytes pos buf)
      λ key pos' buf'. then_read (read_value fl type pos' buf') λ v. got (from_utf8_lossy key, v)

-- `buf[pos]` panics at the end of the buffer.
unfoldable pub read_typed_entry : Platform → ℕ → Bytes → Read (Bytes × StoredValue)
unfolding read_entry
read_typed_entry fl pos [] = panicked
read_typed_entry fl pos (type ∷ buf) = read_entry fl type (pos + 1) buf

-- What one round of the loop of `load_from_file` does to the store.
pub data Action : Type 0 where
  stop : Action
  skip : Action
  put : Bytes → StoredValue → Action
  put_until : ℕ → Bytes → StoredValue → Action

unfoldable pub read_record : Platform → ℕ → ℕ → Bytes → Read Action
unfolding read_length read_string_bytes read_typed_entry read_entry
read_record fl opcode pos buf =
    if opcode == op_eof
    then got stop pos buf
    else if opcode == op_select_db
    then then_read (read_length pos buf) (λ _. got skip)
    else if opcode == op_resize_db
    then then_read (read_length pos buf)
        (λ _ pos' buf'. then_read (read_length pos' buf') (λ _. got skip))
    else if opcode == op_aux
    then then_read (read_string_bytes pos buf)
        (λ _ pos' buf'. then_read (read_string_bytes pos' buf') (λ _. got skip))
    else if opcode == op_expire_time_ms
    then if ltb (length buf) 8
      then invalid truncated_expire_time
      else then_read (read_typed_entry fl (pos + 8) (drop 8 buf))
          (λ e. got (put_until (from_le_bytes (take 8 buf)) e.0 e.1))
    else if opcode == op_expire_time
    then if ltb (length buf) 4
      then invalid truncated_expire_time
      else then_read (read_typed_entry fl (pos + 4) (drop 4 buf))
          (λ e. got (put_until (from_le_bytes (take 4 buf) * 1000) e.0 e.1))
    else then_read (read_entry fl opcode pos buf) (λ e. got (put e.0 e.1))

unfoldable pub apply : ℕ → Instant → Action → Store → Store
apply wall now stop s = s
apply wall now skip s = s
apply wall now (put key v) s = restore key v s
apply wall now (put_until expire_ms key v) s =
    if ltb wall expire_ms then set_with_ttl now key v (expire_ms - wall) s else s

-- `exhausted` has no counterpart in the program.
pub data Loaded : Type 0 where
  loaded : Loaded
  refused : RdbError → Loaded
  crashed : Loaded
  exhausted : Loaded

abbrev pub on_record :
    ℕ → Instant → Read Action → (ℕ → Bytes → Store → Store × Loaded) → Store → Store × Loaded
on_record wall now (got stop pos buf) next s = (s, loaded)
on_record wall now (got a pos buf) next s = next pos buf (apply wall now a s)
on_record wall now (invalid e) next s = (s, refused e)
on_record wall now panicked next s = (s, crashed)

unfoldable pub load_loop : ℕ → Platform → ℕ → Instant → ℕ → Bytes → Store → Store × Loaded
unfolding read_record apply
load_loop zero fl wall now pos buf s = (s, exhausted)
load_loop (suc f) fl wall now pos [] s = (s, loaded)
load_loop (suc f) fl wall now pos (opcode ∷ buf) s =
    on_record wall now (read_record fl opcode (pos + 1) buf)
      (λ pos' buf' t. load_loop f fl wall now pos' buf' t) s

-- `load_from_file` on the bytes of a file that is there.
unfoldable pub load : Platform → ℕ → Instant → Bytes → Store → Store × Loaded
unfolding load_loop
load fl wall now buf s =
    if ltb (length buf) 9 || not (beq (take 5 buf) (codes "REDIS"))
    then (s, refused invalid_magic)
    else load_loop (suc (length buf)) fl wall now 9 (drop 9 buf) s
