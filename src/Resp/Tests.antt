-- ===== src/Resp/Tests.antt =====
-- Tests of the codec, from the source's unit tests.
use fire_redis.Prelude.{◌≡◌, refl, some, [], codes, pos}
use fire_redis.Resp.{
  count, array, cons, nil, simple_string, integer, bulk_string, decode, encode, frame, need_more,
  panicked, parse_value, parse_bulk_string, parse_line, find_crlf,
}
use fire_redis.Decimal.{i64_to_string, parse_i64}
use fire_redis.Utf8.{is_utf8}
use fire_redis.Prelude.{beq}

encode_array :
    encode (array (cons (simple_string (codes "foo")) (cons (integer (pos 42)) nil))) []
    ≡ codes "*2\r\n+foo\r\n:42\r\n"
unfolding encode i64_to_string count
encode_array = refl

decode_fragment : decode 1000 (codes "*1\r\n$4\r\nPI") ≡ (need_more, codes "*1\r\n$4\r\nPI")
unfolding decode parse_value parse_line find_crlf parse_i64 is_utf8 parse_bulk_string
decode_fragment = refl

decode_whole :
    decode 1000 (codes "*1\r\n$4\r\nPING\r\n+OK\r\n")
    ≡ (frame (array (cons (bulk_string (some (codes "PING"))) nil)), codes "+OK\r\n")
unfolding decode parse_value parse_line find_crlf parse_i64 is_utf8 parse_bulk_string beq
decode_whole = refl

decode_overflow : decode 1000 (codes "*2000\r\n+OK\r\n") ≡ (panicked, codes "*2000\r\n+OK\r\n")
unfolding decode parse_value parse_line find_crlf parse_i64 is_utf8 parse_bulk_string beq
decode_overflow = refl
