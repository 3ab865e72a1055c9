-- ===== src/Tests.antt =====
-- The theorems at concrete stores, values and commands.
pub mod Persistence
pub mod Running
pub mod System
pub mod Binaries
use fire_redis.Prelude.{
  true, pos, negsuc, ◌≡◌, ◌+◌, refl, none, some, List, [], ◌∷◌, ◌++◌, Bytes, codes, beq, returns,
  panics, arith, ◌&&◌, ltb, to_ascii_uppercase, length, ◌+ℤ◌, if◌then◌else◌,
}
use fire_redis.Dict
use fire_redis.Decimal.{parse_i64, i64_to_string}
use fire_redis.Utf8.{is_utf8}
use fire_redis.Platform.{Platform}
use fire_redis.Metrics.{Metrics, new}
use fire_redis.Resp
use fire_redis.Resp.{
  Value, simple_string, integer, bulk_string, null, array, values_of, encode, decode, frame,
  parse_value, parse_line, find_crlf, parse_integer, parse_bulk_string, parse_simple_string,
}
use fire_redis.Resp.Wire.{normal}
use fire_redis.Resp.RoundTrip.{decode-encode}
use fire_redis.Resp.Bounds.{Advances, decode-Advances}
use fire_redis.Resp.Stable.{Stands, decode-Stands}
use fire_redis.Store
use fire_redis.Store.{
  StoredValue, string, list, sorted_set, Store, Instant, from_millis, evict_expired, exists, expire,
}
use fire_redis.Store.Strings
use fire_redis.Store.Strings.{counted, refused, integer_overflow}
use fire_redis.Store.Strings.Reads.{
  get-set, get-append, get-adjust_counter, get-adjust_counter_overflow,
}
use fire_redis.Store.Lists.{list_range, l_push, l_pop, r_push, r_pop}
use fire_redis.Store.Lists.Range.{list_range_between, list_range_before}
use fire_redis.Store.Lists.Ends.{l_pop-l_push, r_pop-r_push}
use fire_redis.Store.SortedSets.{z_range, z_score, z_add, z_card}
use fire_redis.Store.SortedSets.Whole.{rank_of}
use fire_redis.Keeps.Scores.{z_range-z_score}
use fire_redis.Store.SortedSets.Reads.{z_score-z_add}
use fire_redis.Store.Hashes.{h_get, h_set}
use fire_redis.Store.SortedSets.Order.{IsAscending}
use fire_redis.Store.Expiry.{visible, get-evict_expired, get-check_expiration}
use fire_redis.Commands.Types.{always, nx, xx}
use fire_redis.Commands.Types as C
use fire_redis.Commands.Execute.{execute}
use fire_redis.Persistence.Aof.{should_log_to_aof}
use fire_redis.Keeps.Unlogged.{execute-unlogged}
use fire_redis.Commands.Data.SortedSets.{handle_z_add}
use fire_redis.Commands.Data.Strings.{handle_set}
use fire_redis.Commands.Data.Strings.Conditions.{IsRefused, handle_set-Decides}
use fire_redis.Keeps.Valid.{IsValid, execute-IsValid, z_range-IsAscending}
use fire_redis.Keeps.Requests.{serve, serve-IsValid}
use fire_redis.Keeps.Frame.{SameAt, execute-SameAt}

-- A float model for the tests: scores compare by their bits.
abbrev bits : Platform
bits = record {
  rank = λ x. x;
  parse = λ b. none;
  to_string = λ x. codes "0";
  of_i64 = λ i. 0;
  most_values = 1000;
  has_room = λ type n. ltb n 1000;
}

abbrev no_info : Metrics → Bytes
no_info m = []

abbrev key : Bytes
key = codes "k"

abbrev empty : Store
empty = record { entries = []; expirations = []; metrics = new }

abbrev three : List Bytes
three = codes "a" ∷ codes "b" ∷ codes "c" ∷ []

abbrev lists : Store
lists = record { entries = (key, list three) ∷ []; expirations = []; metrics = new }

abbrev counter : Store
counter = record { entries = (key, string (codes "41")) ∷ []; expirations = []; metrics = new }

abbrev full_counter : Store
full_counter = record {
  entries = (key, string (codes "9223372036854775807")) ∷ [];
  expirations = [];
  metrics = new;
}

abbrev dated : Store
dated = record {
  entries = (key, string (codes "v")) ∷ (codes "j", string (codes "w")) ∷ [];
  expirations = (key, 5) ∷ (codes "j", 50) ∷ [];
  metrics = new;
}

-- *2, a bulk string and an integer, and a null.
abbrev reply : Value
reply =
    array (values_of (bulk_string (some (codes "hi")) ∷ integer (negsuc 6) ∷ bulk_string none ∷ []))

decode-encode_example :
    decode 1000 (encode reply [] ++ codes "+OK\r\n") ≡ (frame (normal reply), codes "+OK\r\n")
unfolding Resp.count
decode-encode_example =
    decode-encode 1000 reply (codes "+OK\r\n")
      (omega arith, omega arith, (omega arith, (omega arith, (tt, tt))))

decode-Stands_example :
    Stands
      (codes "\r\n")
      (decode 1000 (codes ":7\r\n+O"))
      (decode 1000 (codes ":7\r\n+O" ++ codes "\r\n"))
decode-Stands_example = decode-Stands 1000 (codes ":7\r\n+O") (codes "\r\n")

decode-Advances_example : Advances (codes "*1\r\n$4\r\nPI") (decode 1000 (codes "*1\r\n$4\r\nPI"))
decode-Advances_example = decode-Advances 1000 (codes "*1\r\n$4\r\nPI")

empty-IsValid : IsValid bits empty
unfolding Dict.get
empty-IsValid = record { distinct = tt; deadlines = tt; attached = λ k e. e; good = λ k v e. cc }

execute-IsValid_example :
    IsValid bits
      (execute bits no_info 7 (C.z_add key ((2, codes "b") ∷ (1, codes "a") ∷ [])) empty).0
execute-IsValid_example =
    execute-IsValid bits no_info 7 (C.z_add key ((2, codes "b") ∷ (1, codes "a") ∷ [])) empty tt
      empty-IsValid

-- Two requests: an SADD, and a GET of the same key.
abbrev requests : List (Instant × List Value)
requests =
    (
      1,
      bulk_string (some (codes "sadd"))
          ∷ bulk_string (some key)
          ∷ bulk_string (some (codes "m"))
          ∷ [],
    )
    ∷ (2, bulk_string (some (codes "GET")) ∷ bulk_string (some key) ∷ [])
    ∷ []

serve-IsValid_example : IsValid bits (serve bits no_info requests empty)
serve-IsValid_example = serve-IsValid bits no_info requests empty empty-IsValid

execute-SameAt_example :
    SameAt (codes "j") dated (execute bits no_info 7 (C.l_push key three) dated).0
unfolding beq
execute-SameAt_example =
    execute-SameAt bits no_info 7 (C.l_push key three) dated (codes "j") tt (λ w. w) (refl, tt)

-- Two members, and the later one has the lower score.
abbrev scores : Store
scores = (execute bits no_info 7 (C.z_add key ((2, codes "b") ∷ (1, codes "a") ∷ [])) empty).0

scores-IsValid : IsValid bits scores
scores-IsValid =
    execute-IsValid bits no_info 7 (C.z_add key ((2, codes "b") ∷ (1, codes "a") ∷ [])) empty tt
      empty-IsValid

z_range-IsAscending_example : IsAscending bits (z_range 8 key (pos 0) (negsuc 0) scores).1
z_range-IsAscending_example =
    z_range-IsAscending bits 8 key (pos 0) (negsuc 0) scores scores-IsValid

z_range-z_score_example :
    (length (z_range 8 key (pos 0) (negsuc 0) scores).1 ≡ (z_card 8 key scores).1)
    × (rank_of bits (Dict.get (z_range 8 key (pos 0) (negsuc 0) scores).1 (codes "b"))
        ≡ rank_of bits (z_score 8 key (codes "b") scores).1)
unfolding z_card Dict.get execute handle_z_add Store.type_of z_add Dict.insert beq Dict.remove
z_range-z_score_example = z_range-z_score bits 8 key (codes "b") scores scores-IsValid (omega arith)

get-evict_expired_example : Dict.get (evict_expired 7 dated).0.entries key ≡ visible 7 key dated
unfolding Dict.get beq
get-evict_expired_example = get-evict_expired 7 dated key (refl, (refl, tt))

get-check_expiration_example :
    (Dict.get (Store.check_expiration 7 key dated).0.entries key ≡ visible 7 key dated)
    × ((Store.check_expiration 7 key dated).1 ≡ Store.is_due 7 (Dict.get dated.expirations key))
get-check_expiration_example = get-check_expiration 7 dated key

execute-unlogged_example :
    visible 60 (codes "j") (execute bits no_info 7 (C.keys (codes "*")) dated).0
    ≡ visible 60 (codes "j") dated
unfolding Dict.get beq should_log_to_aof to_ascii_uppercase
execute-unlogged_example =
    execute-unlogged bits no_info 7 60 (C.keys (codes "*")) dated (codes "j") refl
      (refl, (refl, tt)) (omega arith)

get-adjust_counter_example :
    ((Strings.adjust_counter 7 key (pos 1) counter).1 ≡ counted (pos 41 +ℤ pos 1))
    × ((Strings.get 7 key (Strings.adjust_counter 7 key (pos 1) counter).0).1
        ≡ some (i64_to_string (pos 41 +ℤ pos 1)))
unfolding visible Dict.get beq is_utf8 parse_i64 ◌+ℤ◌
get-adjust_counter_example =
    get-adjust_counter 7 key (codes "41") (pos 41) (pos 1) counter refl refl refl refl

get-adjust_counter_overflow_example :
    ((Strings.adjust_counter 7 key (pos 1) full_counter).1 ≡ refused integer_overflow)
    × ((Strings.get 7 key (Strings.adjust_counter 7 key (pos 1) full_counter).0).1
        ≡ some (codes "9223372036854775807"))
unfolding visible Dict.get beq is_utf8 parse_i64 ◌+ℤ◌
get-adjust_counter_overflow_example =
    get-adjust_counter_overflow 7 key (codes "9223372036854775807") (pos 9223372036854775807)
      (pos 1) full_counter refl refl refl refl

l_pop-l_push_example :
    ((l_push 7 key (codes "z") lists).1 ≡ 4)
    × ((l_pop 7 key (l_push 7 key (codes "z") lists).0).1 ≡ some (codes "z"))
    × (visible 7 key (l_pop 7 key (l_push 7 key (codes "z") lists).0).0 ≡ some (list three))
unfolding visible Dict.get beq
l_pop-l_push_example = l_pop-l_push 7 key (codes "z") three lists refl refl

list_range_between_example :
    list_range three (pos 1) (negsuc 0) ≡ returns (codes "b" ∷ codes "c" ∷ [])
list_range_between_example =
    list_range_between three (pos 1) (negsuc 0) 1 2 refl (omega arith) (omega arith) (omega arith)
      (omega arith)

list_range_before_example : list_range three (pos 0) (negsuc 4) ≡ panics
list_range_before_example = list_range_before three 0 4 (omega arith) (omega arith) (omega arith)

handle_set-Decides_example : IsRefused 7 dated (handle_set 7 key (codes "v") none xx dated)
unfolding visible Dict.get beq
handle_set-Decides_example = handle_set-Decides 7 9 key (codes "v") none dated xx

z_score-z_add_example :
    ((z_score 7 key (codes "m") (z_add bits 7 key 3 (codes "m") empty).0).1 ≡ some 3)
    × ((z_add bits 7 key 3 (codes "m") empty).1 ≡ true)
unfolding visible Dict.get beq
z_score-z_add_example = z_score-z_add bits 7 key (codes "m") (codes "m") 3 empty tt
