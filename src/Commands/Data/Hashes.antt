-- ===== src/Commands/Data/Hashes.antt =====
-- The handlers of src/commands/data.rs on hashes.
use fire_redis.Prelude.{ℕ, ◌+◌, List, [], ◌∷◌, map, Bytes, codes, if◌then◌else◌}
use fire_redis.Dict.{Dict}
use fire_redis.Resp.{Value, array, values_of}
use fire_redis.Store.{Instant, Store}
use fire_redis.Store.Hashes
use fire_redis.Commands.Data.Replies.{
  Handled, answer, bulk_or_null, bulk, bulk_array, int_bool, integer_of, typed, sort_by,
}

-- The loop over the fields; the count is of those that were new.
unfoldable pub set_fields : Instant → Bytes → List (Bytes × Bytes) → Store → Store × ℕ
set_fields now key [] s = (s, 0)
set_fields now key ((field, v) ∷ fields) s =
    let (s', is_new) = Hashes.h_set now key field v s in
    let (s'', n) = set_fields now key fields s' in (s'', (if is_new then 1 else 0) + n)

unfoldable pub handle_h_set : Instant → Bytes → List (Bytes × Bytes) → Store → Handled
unfolding typed set_fields
handle_h_set now key fields =
    typed (codes "hash") now key λ s. answer integer_of (set_fields now key fields s)

unfoldable pub handle_h_get : Instant → Bytes → Bytes → Store → Handled
unfolding typed bulk_or_null
handle_h_get now key field =
    typed (codes "hash") now key λ s. answer bulk_or_null (Hashes.h_get now key field s)

unfoldable pub handle_h_del : Instant → Bytes → List Bytes → Store → Handled
unfolding typed
handle_h_del now key fields =
    typed (codes "hash") now key λ s. answer integer_of (Hashes.h_del now key fields s)

unfoldable pub handle_h_len : Instant → Bytes → Store → Handled
unfolding typed
handle_h_len now key = typed (codes "hash") now key λ s. answer integer_of (Hashes.h_len now key s)

unfoldable pub handle_h_exists : Instant → Bytes → Bytes → Store → Handled
unfolding typed int_bool
handle_h_exists now key field =
    typed (codes "hash") now key λ s. answer int_bool (Hashes.h_exists now key field s)

unfoldable pub handle_h_keys : Instant → Bytes → Store → Handled
unfolding typed bulk_array
handle_h_keys now key =
    typed (codes "hash") now key λ s. answer bulk_array (Hashes.h_keys now key s)

unfoldable pub handle_h_vals : Instant → Bytes → Store → Handled
unfolding typed bulk_array
handle_h_vals now key =
    typed (codes "hash") now key λ s. answer bulk_array (Hashes.h_vals now key s)

unfoldable pub field_values : List (Bytes × Bytes) → List Value
field_values [] = []
field_values ((field, v) ∷ pairs) = bulk field ∷ bulk v ∷ field_values pairs

abbrev pub pairs_reply : Dict Bytes → Value
pairs_reply map = array (values_of (field_values (sort_by (λ e. e.0) map)))

unfoldable pub handle_h_get_all : Instant → Bytes → Store → Handled
unfolding typed field_values sort_by
handle_h_get_all now key =
    typed (codes "hash") now key λ s. answer pairs_reply (Hashes.h_get_all now key s)
