-- ===== src/Binaries/Cli/Session.antt =====
-- The requests of the command line client (src/bin/cli.rs) and the server (src/server.rs).
use fire_redis.Prelude.{
  ℕ, ◌≤◌, ◌≡◌, refl, ap, ◌∙◌, List, [], ◌∷◌, ◌++◌, map, All, Bytes, arith, length, max_i64,
}
use fire_redis.Platform.{Platform}
use fire_redis.Metrics.{Metrics}
use fire_redis.Resp.{array, values_of, encode, decode, frame, count}
use fire_redis.Resp.Wire.{AreWire}
use fire_redis.Resp.RoundTrip.{decode-encode}
use fire_redis.Store.{Instant}
use fire_redis.Commands.Data.Replies.{bulk}
use fire_redis.Persistence.Aof.Parses.{list_of-values_of, normal-bulks}
use fire_redis.Server.{Server, received, serve, send_response, serve_command}
use fire_redis.Binaries.Cli.{parse_args_to_resp}

count-bulks : (args : List Bytes) → count (values_of (map bulk args)) ≡ length args
unfolding count
count-bulks [] = refl
count-bulks (a ∷ args) = omega (arith, count-bulks args)

bulks-AreWire :
    (most : ℕ) (args : List Bytes)
    → All (λ a. length a ≤ max_i64) args
    → AreWire most (values_of (map bulk args))
bulks-AreWire most [] h = tt
bulks-AreWire most (a ∷ args) (h, k) = (h, bulks-AreWire most args k)

-- A command of at least one word that the client sends, with lengths below 2^63 and no more
-- words than the decoder can reserve room for, is decoded by the server in front of any further bytes, and is run there with exactly the words that were typed.
pub serve-parse_args_to_resp :
    (fl : Platform) (info : Metrics → Bytes) (now : Instant) (us : ℕ) (word : Bytes)
    (words : List Bytes) (rest : Bytes) (server : Server)
    → length (word ∷ words) ≤ max_i64
    → length (word ∷ words) ≤ fl.most_values
    → All (λ a. length a ≤ max_i64) (word ∷ words)
    → let request = parse_args_to_resp (word ∷ words) in
      (decode fl.most_values (encode request [] ++ rest) ≡ (frame request, rest))
      × (serve fl info (record { item = received request; now = now; elapsed_us = us }) server
          ≡ send_response (serve_command fl info now us (map bulk (word ∷ words)) server))
unfolding parse_args_to_resp serve
serve-parse_args_to_resp fl info now us word words rest server n fits h = (
  decode-encode fl.most_values (parse_args_to_resp (word ∷ words)) rest (
    omega (arith, count-bulks (word ∷ words)),
    omega (arith, count-bulks (word ∷ words)),
    bulks-AreWire fl.most_values (word ∷ words) h,
  )
      ∙ ap (λ vs. (frame (array vs), rest)) (normal-bulks (word ∷ words)),
  ap (λ vs. send_response (serve_command fl info now us (bulk word ∷ vs) server))
      (list_of-values_of (map bulk words)),
)
