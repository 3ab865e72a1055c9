-- ===== src/Persistence/Rdb/Termination.antt =====
-- The loop of `load_from_file` (src/persistence/rdb.rs) ends.
use fire_redis.Prelude.{
  ℕ, zero, suc, ◌+◌, ◌*◌, ◌/◌, ◌%◌, ◌≤◌, ◌<◌, Bool, true, false, none, some, Option, [], ◌∷◌, Bytes,
  ltb, ◌==◌, beq, codes, not, ◌||◌, length, take, drop, if◌then◌else◌, arith, length-drop,
  Bool-cases, inl, inr,
}
use fire_redis.Dict
use fire_redis.Dict.{Dict, HashSet}
use fire_redis.Utf8.{from_utf8_lossy}
use fire_redis.Platform.{Platform, Score}
use fire_redis.Store.{StoredValue, list, set, hash, sorted_set, Store, Instant, Tree}
use fire_redis.Persistence.Rdb.{from_be_bytes}
use fire_redis.Persistence.Rdb.Reader.{
  RdbError, truncated_expire_time, truncated_length, invalid_length, Read, got, invalid, panicked,
  then_read, read_length, slice_string, read_string_bytes, read_items, read_members, read_fields,
  scored_or, read_scores, if_room, read_value, read_entry, read_typed_entry, read_record, Action,
  stop, skip, put, put_until, Loaded, exhausted, on_record, load_loop, load,
}

-- What is left is not longer than what was there.
Shrinks : {A : Type 0} → ℕ → Read A → Type 0
Shrinks n (got a pos rest) = length rest ≤ n
Shrinks n (invalid e) = Unit
Shrinks n panicked = Unit

Shrinks-got :
    {A : Type 0} (n : ℕ) (a : A) (pos : ℕ) (rest : Bytes)
    → length rest ≤ n
    → Shrinks n (got a pos rest)
unfolding Shrinks
Shrinks-got n a pos rest h = h

Shrinks-invalid : (A : Type 0) (n : ℕ) (e : RdbError) → Shrinks {A = A} n (invalid e)
unfolding Shrinks
Shrinks-invalid A n e = tt

Shrinks-panicked : (A : Type 0) (n : ℕ) → Shrinks {A = A} n panicked
unfolding Shrinks
Shrinks-panicked A n = tt

Shrinks-if :
    {A : Type 0} (n : ℕ) (c : Bool) (x y : Read A)
    → Shrinks n x
    → Shrinks n y
    → Shrinks n (if c then x else y)
Shrinks-if n true x y h k = h
Shrinks-if n false x y h k = k

Shrinks-then :
    {A B : Type 0} (n : ℕ) (r : Read A) (f : A → ℕ → Bytes → Read B)
    → Shrinks n r
    → ((a : A) (pos : ℕ) (rest : Bytes) → length rest ≤ n → Shrinks n (f a pos rest))
    → Shrinks n (then_read r f)
unfolding Shrinks
Shrinks-then n (got a pos rest) f h k = k a pos rest h
Shrinks-then n (invalid e) f h k = tt
Shrinks-then n panicked f h k = tt

length-Shrinks : (n pos : ℕ) (buf : Bytes) → length buf ≤ n → Shrinks n (read_length pos buf)
unfolding read_length
length-Shrinks n pos [] h = Shrinks-invalid _ n _
length-Shrinks n pos (first ∷ []) h =
    Shrinks-if n _ _ _ (Shrinks-got n _ _ [] (omega arith))
      (Shrinks-if n _ _ _ (Shrinks-invalid _ n _) (Shrinks-invalid _ n _))
length-Shrinks n pos (first ∷ b ∷ rest) h =
    let kind : ℕ = first / 64 % 4 in
    Shrinks-if n (kind == 0) _ _ (Shrinks-got n (first % 64) (pos + 1) (b ∷ rest) (omega arith)) (
      Shrinks-if n (kind == 1) _ _
        (Shrinks-got n (first % 64 * 256 + b) (pos + 2) rest (omega arith))
        (Shrinks-if n (kind == 2) _ _
          (Shrinks-if n (ltb (length (b ∷ rest)) 8) _ _ (Shrinks-invalid _ n truncated_length) (
            Shrinks-got n (from_be_bytes (take 8 (b ∷ rest)) 0) (pos + 9) (drop 8 (b ∷ rest))
              (omega (arith, length-drop 8 (b ∷ rest)))))
          (Shrinks-invalid _ n invalid_length)))

string-Shrinks : (n pos : ℕ) (buf : Bytes) → length buf ≤ n → Shrinks n (read_string_bytes pos buf)
unfolding read_string_bytes
string-Shrinks n pos buf h =
    Shrinks-then n (read_length pos buf) slice_string (length-Shrinks n pos buf h) (λ len p rest k.
      Shrinks-if n _ _ _ (Shrinks-got n _ _ (drop len rest) (omega (arith, length-drop len rest)))
        (Shrinks-if n _ _ _ (Shrinks-panicked _ n) (Shrinks-invalid _ n _)))

items-Shrinks : (n k pos : ℕ) (buf : Bytes) → length buf ≤ n → Shrinks n (read_items k pos buf)
unfolding read_items
items-Shrinks n zero pos buf h = Shrinks-got n _ pos buf h
items-Shrinks n (suc k) pos buf h =
    Shrinks-then n (read_string_bytes pos buf) _ (string-Shrinks n pos buf h) (λ x p rest b.
      Shrinks-then n (read_items k p rest) _ (items-Shrinks n k p rest b)
        (λ xs q r c. Shrinks-got n _ q r c))

members-Shrinks :
    (n k : ℕ) (acc : HashSet) (pos : ℕ) (buf : Bytes)
    → length buf ≤ n
    → Shrinks n (read_members k acc pos buf)
unfolding read_members
members-Shrinks n zero acc pos buf h = Shrinks-got n _ pos buf h
members-Shrinks n (suc k) acc pos buf h =
    Shrinks-then n (read_string_bytes pos buf) _ (string-Shrinks n pos buf h)
      (λ m p rest b. members-Shrinks n k (Dict.insert acc m tt) p rest b)

fields-Shrinks :
    (n k : ℕ) (acc : Dict Bytes) (pos : ℕ) (buf : Bytes)
    → length buf ≤ n
    → Shrinks n (read_fields k acc pos buf)
unfolding read_fields
fields-Shrinks n zero acc pos buf h = Shrinks-got n _ pos buf h
fields-Shrinks n (suc k) acc pos buf h =
    Shrinks-then n (read_string_bytes pos buf) _ (string-Shrinks n pos buf h) (λ f p rest b.
      Shrinks-then n (read_string_bytes p rest) _ (string-Shrinks n p rest b)
        (λ v q r c. fields-Shrinks n k (Dict.insert acc (from_utf8_lossy f) v) q r c))

Shrinks-scored :
    {A : Type 0} (n : ℕ) (o : Option Score) (f : Score → Read A)
    → ((x : Score) → Shrinks n (f x))
    → Shrinks n (scored_or o f)
Shrinks-scored n none f h = Shrinks-invalid _ n _
Shrinks-scored n (some x) f h = h x

Shrinks-room :
    {A : Type 0} (n : ℕ) (room : Bool) (r : Read A) → Shrinks n r → Shrinks n (if_room room r)
Shrinks-room n true r h = h
Shrinks-room n false r h = Shrinks-panicked _ n

module _ (fl : Platform) where
  scores-Shrinks :
      (n k : ℕ) (acc : Dict Score) (tree : Tree) (pos : ℕ) (buf : Bytes)
      → length buf ≤ n
      → Shrinks n (read_scores fl k acc tree pos buf)
  unfolding read_scores
  scores-Shrinks n zero acc tree pos buf h = Shrinks-got n _ pos buf h
  scores-Shrinks n (suc k) acc tree pos buf h =
      Shrinks-then n (read_string_bytes pos buf) _ (string-Shrinks n pos buf h) (λ t p rest b.
        Shrinks-scored n (fl.parse (from_utf8_lossy t)) _ (λ x.
          Shrinks-then n (read_string_bytes p rest) _ (string-Shrinks n p rest b)
            (λ m q r c. scores-Shrinks n k _ _ q r c)))

  -- A number of rounds, and the value that they make.
  Shrinks-counted :
      {A B : Type 0} (type n pos : ℕ) (buf : Bytes) (r : ℕ → ℕ → Bytes → Read A) (g : A → B)
      → length buf ≤ n
      → ((k p : ℕ) (rest : Bytes) → length rest ≤ n → Shrinks n (r k p rest))
      → Shrinks n (
          then_read
            (read_length pos buf)
            (λ k p rest. if_room (fl.has_room type k) (then_read (r k p rest) (λ a. got (g a)))))
  Shrinks-counted type n pos buf r g h k =
      Shrinks-then n (read_length pos buf) _ (length-Shrinks n pos buf h) (λ m p rest b.
        Shrinks-room n (fl.has_room type m) _
          (Shrinks-then n (r m p rest) _ (k m p rest b) (λ a q t c. Shrinks-got n _ q t c)))

  value-Shrinks :
      (n type pos : ℕ) (buf : Bytes) → length buf ≤ n → Shrinks n (read_value fl type pos buf)
  unfolding read_value
  value-Shrinks n type pos buf h =
      Shrinks-if n _ _ _
        (Shrinks-then n (read_string_bytes pos buf) _ (string-Shrinks n pos buf h)
          (λ b p r c. Shrinks-got n _ p r c))
        (Shrinks-if n _ _ _ (Shrinks-counted 1 n pos buf read_items list h (items-Shrinks n)) (
          Shrinks-if n _ _ _
            (Shrinks-counted 2 n pos buf (λ k. read_members k []) set h
              (λ k. members-Shrinks n k []))
            (Shrinks-if n _ _ _
              (Shrinks-counted 4 n pos buf (λ k. read_fields k []) hash h
                (λ k. fields-Shrinks n k []))
              (Shrinks-if n _ _ _
                (Shrinks-counted 3 n pos buf (λ k. read_scores fl k [] []) (λ r. sorted_set r.0 r.1)
                  h (λ k. scores-Shrinks n k [] []))
                (Shrinks-invalid _ n _)))))

  entry-Shrinks :
      (n type pos : ℕ) (buf : Bytes) → length buf ≤ n → Shrinks n (read_entry fl type pos buf)
  unfolding read_entry
  entry-Shrinks n type pos buf h =
      Shrinks-then n (read_string_bytes pos buf) _ (string-Shrinks n pos buf h) (λ k p r c.
        Shrinks-then n (read_value fl type p r) _ (value-Shrinks n type p r c)
          (λ v q t d. Shrinks-got n _ q t d))

  typed-Shrinks :
      (n pos : ℕ) (buf : Bytes) → length buf ≤ n → Shrinks n (read_typed_entry fl pos buf)
  unfolding read_typed_entry
  typed-Shrinks n pos [] h = Shrinks-panicked _ n
  typed-Shrinks n pos (t ∷ buf) h = entry-Shrinks n t (pos + 1) buf (omega arith)

  -- A record with a deadline of so many bytes.
  deadline-Shrinks :
      (n k pos : ℕ) (buf : Bytes) (g : Bytes × StoredValue → Action)
      → length buf ≤ n
      → Shrinks n (
          if ltb (length buf) k
          then invalid truncated_expire_time
          else then_read (read_typed_entry fl (pos + k) (drop k buf)) (λ e. got (g e)))
  deadline-Shrinks n k pos buf g h = Shrinks-if n _ _ _ (Shrinks-invalid _ n _) (
      Shrinks-then n (read_typed_entry fl (pos + k) (drop k buf)) _
        (typed-Shrinks n (pos + k) (drop k buf) (omega (arith, length-drop k buf)))
        (λ e p t c. Shrinks-got n _ p t c))

  -- Two fields that are passed over.
  Shrinks-twice :
      {A : Type 0} (n pos : ℕ) (buf : Bytes) (r : ℕ → Bytes → Read A)
      → length buf ≤ n
      → ((p : ℕ) (t : Bytes) → length t ≤ n → Shrinks n (r p t))
      → Shrinks n (then_read (r pos buf) (λ _ p t. then_read (r p t) (λ _. got skip)))
  Shrinks-twice n pos buf r h k =
      Shrinks-then n (r pos buf) _ (k pos buf h)
        (λ a p t c. Shrinks-then n (r p t) _ (k p t c) (λ b q u d. Shrinks-got n _ q u d))

  record-Shrinks :
      (n opcode pos : ℕ) (buf : Bytes) → length buf ≤ n → Shrinks n (read_record fl opcode pos buf)
  unfolding read_record
  record-Shrinks n opcode pos buf h = Shrinks-if n _ _ _ (Shrinks-got n _ pos buf h) (
      Shrinks-if n _ _ _
        (Shrinks-then n (read_length pos buf) _ (length-Shrinks n pos buf h)
          (λ a p t c. Shrinks-got n _ p t c))
        (Shrinks-if n _ _ _ (Shrinks-twice n pos buf read_length h (length-Shrinks n)) (
          Shrinks-if n _ _ _ (Shrinks-twice n pos buf read_string_bytes h (string-Shrinks n)) (
            Shrinks-if n _ _ _ (deadline-Shrinks n 8 pos buf _ h) (
              Shrinks-if n _ _ _ (deadline-Shrinks n 4 pos buf _ h) (
                Shrinks-then n (read_entry fl opcode pos buf) _ (entry-Shrinks n opcode pos buf h)
                  (λ e p t c. Shrinks-got n _ p t c)))))))

  -- The run kept within its fuel.
  abbrev pub Ends : Loaded → Type 0
  Ends exhausted = ⊥
  Ends _ = Unit

  module _ (wall : ℕ) (now : Instant) where
    record-Ends :
        (n : ℕ) (r : Read Action) (next : ℕ → Bytes → Store → Store × Loaded) (s : Store)
        → Shrinks n r
        → ((pos : ℕ) (rest : Bytes) (t : Store) → length rest ≤ n → Ends (next pos rest t).1)
        → Ends (on_record wall now r next s).1
    unfolding Shrinks
    record-Ends n (got stop pos rest) next s h k = tt
    record-Ends n (got skip pos rest) next s h k = k pos rest _ h
    record-Ends n (got (put key v) pos rest) next s h k = k pos rest _ h
    record-Ends n (got (put_until ms key v) pos rest) next s h k = k pos rest _ h
    record-Ends n (invalid e) next s h k = tt
    record-Ends n panicked next s h k = tt

    loop-Ends :
        (f pos : ℕ) (buf : Bytes) (s : Store)
        → length buf < f
        → Ends (load_loop f fl wall now pos buf s).1
    unfolding load_loop
    loop-Ends zero pos buf s h = absurd (omega arith)
    loop-Ends (suc f) pos [] s h = tt
    loop-Ends (suc f) pos (opcode ∷ buf) s h =
        record-Ends (length buf) (read_record fl opcode (pos + 1) buf) _ s
          (record-Shrinks (length buf) opcode (pos + 1) buf (omega arith))
          (λ p rest t b. loop-Ends f p rest t (omega arith))

    -- Loading any bytes whatever ends within one round for each byte: the file is loaded, refused
    -- with an error, or brings the reader down.
    pub load-Ends : (buf : Bytes) (s : Store) → Ends (load fl wall now buf s).1
    unfolding load
    load-Ends buf s =
        elim (Bool-cases (ltb (length buf) 9 || not (beq (take 5 buf) (codes "REDIS")))) [
          | inl bad ↦ rw bad tt
          | inr fine ↦
              rw fine
                (loop-Ends (suc (length buf)) 9 (drop 9 buf) s (omega (arith, length-drop 9 buf)))
        ]
