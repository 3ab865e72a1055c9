-- ===== src/Store/Strings/Reads.antt =====
-- What GET sees after the writes of src/store/string.rs.
use fire_redis.Prelude.{
  ℕ, ◌+◌, ◌≡◌, ◌∙◌, sym, refl, Bool, true, false, Option, none, some, [], ◌++◌, Bytes, beq_iff, ltb,
  if◌then◌else◌, arith, length, ℤ, ◌+ℤ◌, in_i64,
}
use fire_redis.Dict
use fire_redis.Dict.Laws.{get-insert, get-remove}
use fire_redis.Decimal.{i64_to_string, parse_i64}
use fire_redis.Utf8.{is_utf8}
use fire_redis.Store.{
  StoredValue, string, list, set, hash, sorted_set, Store, is_due, Instant, check_expiration,
  set_expiration, from_millis, or_insert, write,
}
use fire_redis.Store.Expiry.{visible, checked}
use fire_redis.Store.Strings
use fire_redis.Store.Strings.{
  get, append, string_of, adjust_counter, adjust_entry, add_to, store_counter, append_entry,
  Counted, counted, refused, CounterError, integer_overflow, not_integer, not_utf8,
}

-- Whether a key set with this expiry is still there at the time `t`.
abbrev pub lives : Instant → Instant → Option ℕ → Bool
lives now t none = true
lives now t (some ms) = ltb t (now + from_millis ms)

-- SET replaces whatever was at the key, and its deadline: GET then reads the new value, until the
-- expiry of that SET has passed if it has one and for ever if it has none.
pub get-set :
    (now t : Instant) (key v : Bytes) (px : Option ℕ) (s : Store)
    → (get t key (Strings.set now key v px s)).1 ≡ (if lives now t px then some v else none)
unfolding get Strings.set check_expiration set_expiration
get-set now t key v none s = ground (
  arith,
  get-insert s.entries key key (string v),
  get-remove s.expirations key key,
  beq_iff key key,
)
get-set now t key v (some ms) s = ground (
  arith,
  get-insert s.entries key key (string v),
  get-remove s.entries key key,
  get-insert s.expirations key key (now + from_millis ms),
  beq_iff key key,
)

-- What APPEND finds: a missing key reads as the empty string.
abbrev text : Option Bytes → Bytes
text none = []
text (some b) = b

abbrev HoldsText : Option StoredValue → Type 0
HoldsText none = Unit
HoldsText (some (string b)) = Unit
HoldsText (some v) = ⊥

get-write :
    (now : Instant) (key b : Bytes) (s : Store)
    → is_due now (Dict.get s.expirations key) ≡ false
    → (get now key (write key (string b) s)).1 ≡ some b
unfolding get check_expiration
get-write now key b s h = ground (arith, get-insert s.entries key key (string b), beq_iff key key)

append_found :
    (now : Instant) (key v : Bytes) (t : Store) (o : Option StoredValue)
    → Dict.get t.entries key ≡ o
    → is_due now (Dict.get t.expirations key) ≡ false
    → HoldsText o
    → let (u, entry) = or_insert key (string []) t in
      ((get now key (append_entry key v entry u).0).1 ≡ some (text (string_of o) ++ v))
      × ((append_entry key v entry u).1 ≡ length (text (string_of o) ++ v))
unfolding append_entry or_insert
append_found now key v t none e d h = rw e (get-write now key v (write key (string []) t) d, refl)
append_found now key v t (some (string b)) e d h = rw e (get-write now key (b ++ v) t d, refl)
append_found now key v t (some (list xs)) e d h = absurd h
append_found now key v t (some (set xs)) e d h = absurd h
append_found now key v t (some (hash xs)) e d h = absurd h
append_found now key v t (some (sorted_set xs tree)) e d h = absurd h

-- APPEND to a key that holds a string or nothing: GET at the same instant reads the old text with
-- the new one behind it, and the answer is the length of the whole.
pub get-append :
    (now : Instant) (key v : Bytes) (s : Store)
    → HoldsText (visible now key s)
    → ((get now key (append now key v s).0).1 ≡ some (text (string_of (visible now key s)) ++ v))
      × ((append now key v s).1 ≡ length (text (string_of (visible now key s)) ++ v))
unfolding get append check_expiration visible append_entry or_insert
get-append now key v s h =
    let t : Store = (check_expiration now key s).0 in
    rw (sym (checked now key s).1) (
      append_found now key v t (Dict.get t.entries key) refl (checked now key s).0
        (rw (checked now key s).1 h))

-- A counter that holds the number `n`: while `n + delta` is an `i64`, the answer is `n + delta` and
-- GET then reads its decimal digits, which parse back to it.
pub get-adjust_counter :
    (now : Instant) (key b : Bytes) (n delta : ℤ) (s : Store)
    → visible now key s ≡ some (string b)
    → is_utf8 b ≡ true
    → parse_i64 b ≡ some n
    → in_i64 (n +ℤ delta) ≡ true
    → ((adjust_counter now key delta s).1 ≡ counted (n +ℤ delta))
      × ((get now key (adjust_counter now key delta s).0).1 ≡ some (i64_to_string (n +ℤ delta)))
unfolding get adjust_counter adjust_entry add_to store_counter check_expiration visible or_insert
get-adjust_counter now key b n delta s h u p r =
    let t : Store = (check_expiration now key s).0 in
    let e : Dict.get t.entries key ≡ some (string b) = (checked now key s).1 ∙ h in
    rw e (
      rw u (
        rw p (rw r (refl, get-write now key (i64_to_string (n +ℤ delta)) t (checked now key s).0))))

-- A counter whose new number would not be an `i64` is refused, and keeps its text.
pub get-adjust_counter_overflow :
    (now : Instant) (key b : Bytes) (n delta : ℤ) (s : Store)
    → visible now key s ≡ some (string b)
    → is_utf8 b ≡ true
    → parse_i64 b ≡ some n
    → in_i64 (n +ℤ delta) ≡ false
    → ((adjust_counter now key delta s).1 ≡ refused integer_overflow)
      × ((get now key (adjust_counter now key delta s).0).1 ≡ some b)
unfolding get adjust_counter adjust_entry add_to store_counter check_expiration visible or_insert
get-adjust_counter_overflow now key b n delta s h u p r =
    let t : Store = (check_expiration now key s).0 in
    let e : Dict.get t.entries key ≡ some (string b) = (checked now key s).1 ∙ h in
    rw e (rw u (rw p (rw r (refl, ground (arith, e, (checked now key s).0)))))
