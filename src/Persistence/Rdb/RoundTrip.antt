-- ===== src/Persistence/Rdb/RoundTrip.antt =====
-- `read_length`, `read_string_bytes` and `read_value` on what the writer of src/persistence/rdb.rs writes.
use fire_redis.Prelude.{
  ℕ, ◌+◌, ◌≤◌, ◌<◌, ◌≡◌, refl, ap, ◌∙◌, Bool, true, false, List, [], ◌∷◌, ◌++◌, Bytes, ltb, leb,
  All, length, if◌then◌else◌, arith, max_u64, append_assoc, length-append, take-append_self,
  drop-append_self, Bool-cases, inl, inr,
}
use fire_redis.Dict
use fire_redis.Dict.{Dict, HashSet}
use fire_redis.Dict.Rebuild.{insert_all, insert_all-nil}
use fire_redis.Utf8.{from_utf8_lossy-valid}
use fire_redis.Platform.{Platform, Score}
use fire_redis.Store.{StoredValue, string, list, set, hash, sorted_set, Tree}
use fire_redis.Store.SortedSets.{tree_insert}
use fire_redis.Keeps.Valid.{IsGood}
use fire_redis.Persistence.Rdb.{
  to_be_bytes, from_be_bytes, write_length, write_bytes, write_double, write_items, write_fields,
  write_scores, write_value, value_type,
}
use fire_redis.Persistence.Rdb.Reader.{
  Read, got, then_read, read_length, slice_string, read_string_bytes, read_items, read_members,
  read_fields, read_scores, read_value, Read,
}
use fire_redis.Persistence.Aof.Parses.{HasText, Prints}

-- A 64-bit number's eight bytes, most significant first, read back.
be_eight : (n : ℕ) → n ≤ max_u64 → from_be_bytes (to_be_bytes 8 n) 0 ≡ n
unfolding from_be_bytes to_be_bytes
be_eight n h = omega arith

-- What the reader makes of what was written, followed by anything.
abbrev pub Reads : {A : Type 0} → (ℕ → Bytes → Read A) → Bytes → A → Type 0
Reads read w a = (pos : ℕ) (rest : Bytes) → read pos (w ++ rest) ≡ got a (pos + length w) rest

read_short : (n pos : ℕ) (rest : Bytes) → n < 64 → read_length pos (n ∷ rest) ≡ got n (pos + 1) rest
unfolding read_length
read_short n pos [] h = ground arith
read_short n pos (b ∷ rest) h = ground arith

read_middle :
    (n pos : ℕ) (rest : Bytes)
    → n < 16384
    → read_length pos (to_be_bytes 2 (16384 + n) ++ rest) ≡ got n (pos + 2) rest
unfolding read_length to_be_bytes
read_middle n pos rest h = ground arith

pub passed {ℓ} : {A : Type ℓ} (x y : A) (c : Bool) → c ≡ false → (if c then x else y) ≡ y
passed x y c h = rw h refl

read_long :
    (n pos : ℕ) (rest : Bytes)
    → n ≤ max_u64
    → read_length pos (0x80 ∷ to_be_bytes 8 n ++ rest) ≡ got n (pos + 9) rest
unfolding read_length to_be_bytes
read_long n pos rest h =
    passed _ _ (ltb (length (to_be_bytes 8 n ++ rest)) 8) (ground arith)
    ∙ ap (λ m. got m (pos + 9) rest) (be_eight n h)

-- A number below 2^64 reads back, in each of the three encodings, wherever it stands.
pub read_length-write_length : (n : ℕ) → n ≤ max_u64 → Reads read_length (write_length n) n
unfolding write_length
read_length-write_length n h pos rest = elim (Bool-cases (ltb n 64)) [
  | inl short ↦ rw short (read_short n pos rest (ground arith))
  | inr other ↦ elim (Bool-cases (ltb n 16384)) [
    | inl middle ↦ rw other (rw middle (read_middle n pos rest (ground arith)))
    | inr long ↦ rw other (rw long (read_long n pos rest h))
  ]
]

-- The second read starts where the first ended.
pub then-Reads :
    {A B : Type 0} (r : ℕ → Bytes → Read A) (f : A → ℕ → Bytes → Read B) (w x : Bytes) (a : A)
    (b : B)
    → Reads r w a
    → Reads (f a) x b
    → Reads (λ pos buf. then_read (r pos buf) f) (w ++ x) b
then-Reads r f w x a b h k pos rest = rw (append_assoc w x rest) (
    rw (h pos (x ++ rest))
      (k (pos + length w) rest ∙ ap (λ n. got b n rest) (omega (arith, length-append w x))))

Reads-nothing : {A : Type 0} (a : A) → Reads (got a) [] a
Reads-nothing a pos rest = ap (λ n. got a n rest) (omega arith)

slice_all : (b : Bytes) → Reads (slice_string (length b)) b b
slice_all b pos rest =
    let all_there : leb (length b) (length (b ++ rest)) ≡ true =
      ground (arith, length-append b rest) in
    rw all_there (rw take-append_self (rw drop-append_self refl))

-- A byte string that is shorter than 2^64 reads back.
pub read_string_bytes-write_bytes :
    (b : Bytes) → length b ≤ max_u64 → Reads read_string_bytes (write_bytes b) b
unfolding read_string_bytes write_bytes
read_string_bytes-write_bytes b h =
    then-Reads read_length slice_string (write_length (length b)) b (length b) b
      (read_length-write_length (length b) h) (slice_all b)

module _ {A B : Type 0} (g : A → B) where
  -- What is read is passed on under a constructor.
  pub then_wraps :
      (r : ℕ → Bytes → Read A) (w : Bytes) (a : A)
      → Reads r w a
      → Reads (λ pos buf. then_read (r pos buf) (λ x. got (g x))) w (g a)
  then_wraps r w a h pos rest = rw (h pos rest) refl

-- Byte strings whose lengths fit 64 bits, as many as fit 64 bits.
abbrev pub Fits : Bytes → Type 0
Fits b = length b ≤ max_u64

Reads-items : (xs : List Bytes) → All Fits xs → Reads (read_items (length xs)) (write_items xs) xs
unfolding read_items write_items
Reads-items [] h = Reads-nothing []
Reads-items (x ∷ xs) (h, k) =
    then-Reads read_string_bytes _ (write_bytes x) (write_items xs) x (x ∷ xs)
      (read_string_bytes-write_bytes x h)
      (then_wraps (λ ys. x ∷ ys) (read_items (length xs)) (write_items xs) xs (Reads-items xs k))

Reads-members :
    (d acc : HashSet)
    → All (λ e. Fits e.0) d
    → Reads (read_members (length d) acc) (write_items (Dict.keys d)) (insert_all d acc)
unfolding read_members write_items insert_all
Reads-members [] acc h = Reads-nothing acc
Reads-members ((m, u) ∷ d) acc (h, k) =
    then-Reads read_string_bytes _ (write_bytes m) (write_items (Dict.keys d)) m
      (insert_all d (Dict.insert acc m tt)) (read_string_bytes-write_bytes m h)
      (Reads-members d (Dict.insert acc m tt) k)

Reads-fields :
    (d acc : Dict Bytes)
    → All (λ e. Fits e.0 × Fits e.1) d
    → HasText d
    → Reads (read_fields (length d) acc) (write_fields d) (insert_all d acc)
unfolding read_fields write_fields insert_all
Reads-fields [] acc h t = Reads-nothing acc
Reads-fields ((f, v) ∷ d) acc ((h, h'), k) (t, t') =
    then-Reads read_string_bytes _ (write_bytes f) (write_bytes v ++ write_fields d) f
      (insert_all d (Dict.insert acc f v)) (read_string_bytes-write_bytes f h)
      (then-Reads read_string_bytes _ (write_bytes v) (write_fields d) v
        (insert_all d (Dict.insert acc f v)) (read_string_bytes-write_bytes v h')
        (rw (from_utf8_lossy-valid f t) (Reads-fields d (Dict.insert acc f v) k t')))

module _ (fl : Platform) where
  unfoldable pub index_all : Dict Score → Tree → Tree
  unfolding tree_insert
  index_all [] tree = tree
  index_all ((m, x) ∷ d) tree = index_all d (tree_insert fl x m tree)

  Reads-scores :
      (d acc : Dict Score) (tree : Tree)
      → All (λ e. Fits e.0 × Fits (fl.to_string e.1)) d
      → All (λ e. Prints fl e.1) d
      → Reads
          (read_scores fl (length d) acc tree)
          (write_scores fl d)
          (insert_all d acc, index_all d tree)
  unfolding read_scores write_scores write_double insert_all index_all
  Reads-scores [] acc tree h p = Reads-nothing (acc, tree)
  Reads-scores ((m, x) ∷ d) acc tree ((h, h'), k) (p, p') =
      then-Reads read_string_bytes _ (write_bytes (fl.to_string x))
        (write_bytes m ++ write_scores fl d) (fl.to_string x) _
        (read_string_bytes-write_bytes (fl.to_string x) h')
        (rw p (
          then-Reads read_string_bytes _ (write_bytes m) (write_scores fl d) m _
            (read_string_bytes-write_bytes m h)
            (Reads-scores d (Dict.insert acc m x) (tree_insert fl x m tree) k p')))

  -- The reader can reserve so many elements.
  abbrev HasRoom : ℕ → ℕ → Type 0
  HasRoom type n = fl.has_room type n ≡ true

  -- A value that the format can hold: every length fits 64 bits, the reader can reserve room for the
  -- elements, the fields of a hash are Rust
  -- strings, and the scores of a sorted set read back as they print.
  abbrev pub IsStorable : StoredValue → Type 0
  IsStorable (string b) = Fits b
  IsStorable (list xs) = (length xs ≤ max_u64) × All Fits xs × HasRoom 1 (length xs)
  IsStorable (set ms) = (length ms ≤ max_u64) × All (λ e. Fits e.0) ms × HasRoom 2 (length ms)
  IsStorable (hash map) =
      (length map ≤ max_u64)
      × All (λ e. Fits e.0 × Fits e.1) map
      × HasText map
      × HasRoom 4 (length map)
  IsStorable (sorted_set scores tree) =
      (length scores ≤ max_u64)
      × All (λ e. Fits e.0 × Fits (fl.to_string e.1)) scores
      × All (λ e. Prints fl e.1) scores
      × HasRoom 3 (length scores)

  -- The same value, with the index of a sorted set built again from its scores.
  abbrev pub reread : StoredValue → StoredValue
  reread (sorted_set scores tree) = sorted_set scores (index_all scores [])
  reread v = v

  -- A stored value that the format can hold, and for whose elements the reader can reserve room, reads
  -- back, behind its type, from what is written of it, wherever it stands; the index of a sorted set is
  -- built again.
  pub read_value-write_value :
      (v : StoredValue)
      → IsGood fl v
      → IsStorable v
      → Reads (read_value fl (value_type v)) (write_value fl v) (reread v)
  unfolding read_value write_value
  read_value-write_value (string b) g h =
      then_wraps string read_string_bytes (write_bytes b) b (read_string_bytes-write_bytes b h)
  read_value-write_value (list xs) g (n, h, room) =
      then-Reads read_length _ (write_length (length xs)) (write_items xs) (length xs) (list xs)
        (read_length-write_length (length xs) n)
        (rw room (then_wraps list (read_items (length xs)) (write_items xs) xs (Reads-items xs h)))
  read_value-write_value (set ms) g (n, h, room) =
      then-Reads read_length _ (write_length (length ms)) (write_items (Dict.keys ms)) (length ms)
        (set ms) (read_length-write_length (length ms) n)
        (rw room (
          then_wraps set (read_members (length ms) []) (write_items (Dict.keys ms)) ms
            (rw (insert_all-nil ms g.0) at (Reads-members ms [] h))))
  read_value-write_value (hash map) g (n, h, t, room) =
      then-Reads read_length _ (write_length (length map)) (write_fields map) (length map)
        (hash map) (read_length-write_length (length map) n)
        (rw room (
          then_wraps hash (read_fields (length map) []) (write_fields map) map
            (rw (insert_all-nil map g.0) at (Reads-fields map [] h t))))
  read_value-write_value (sorted_set scores tree) g (n, h, p, room) =
      then-Reads read_length _ (write_length (length scores)) (write_scores fl scores)
        (length scores) (sorted_set scores (index_all scores []))
        (read_length-write_length (length scores) n)
        (rw room (
          then_wraps (λ r. sorted_set r.0 r.1) (read_scores fl (length scores) [] [])
            (write_scores fl scores) (scores, index_all scores [])
            (rw (insert_all-nil scores g.0.0) at (Reads-scores scores [] [] h p))))
