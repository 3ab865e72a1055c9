-- ===== src/Http/Framing.antt =====
-- A client reads the responses of the HTTP endpoint (src/http.rs).
use fire_redis.Prelude.{
  ℕ, zero, suc, ◌+◌, ◌≡◌, ◌∙◌, refl, Bool, Bool-cases, inl, inr, true, false, Option, none, some,
  List, [], ◌∷◌, ◌++◌, Bytes, codes, crlf, ◌==◌, is_empty, length, take, drop, if◌then◌else◌, beq,
  All, arith, take-append_self, drop-append_self, append_assoc, ap,
}
use fire_redis.Decimal.{to_string, parse_nat}
use fire_redis.Decimal.RoundTrip.{to_string-IsPlain, parse_nat-to_string}
use fire_redis.Metrics.{Metrics}
use fire_redis.Resp.{find_crlf}
use fire_redis.Resp.Wire.{NotCr, find_crlf-text, plain-NotCr}
use fire_redis.Http.{
  root_body, health_body, metrics_body, path_or_empty, handle_root, handle_health, handle_metrics,
  not_found, with_status, ok_response, content_len, response_headers, starts_with, respond, route,
  parse_path,
}

-- A line in front of others.
abbrev in_front : Bytes → Option (List Bytes × Bytes) → Option (List Bytes × Bytes)
in_front line none = none
in_front line (some (lines, rest)) = some (line ∷ lines, rest)

-- The lines up to the empty one, at most as many as the client admits, and what follows it.
unfoldable read_lines : ℕ → Bytes → Option (List Bytes × Bytes)
unfolding find_crlf
read_lines zero s = none
read_lines (suc limit) s = elim (find_crlf s) [
  | none ↦ none
  | some zero ↦ some ([], drop 2 s)
  | some (suc n) ↦ in_front (take (suc n) s) (read_lines limit (drop 2 (drop (suc n) s)))
]

-- The value of the first header of this name.
unfoldable pub header : Bytes → List Bytes → Option Bytes
unfolding starts_with
header name [] = none
header name (line ∷ lines) =
    let later = header name lines in
    if starts_with line (name ++ codes ": ") then some (drop (length name + 2) line) else later

abbrev pub number_of : Option Bytes → Option ℕ
unfolding parse_nat
number_of none = none
number_of (some s) = parse_nat s

-- The status line and the body, where the body is as long as its header says.
unfoldable pub sized : Bytes → Option ℕ → Bytes → Option (Bytes × Bytes)
sized status none rest = none
sized status (some n) rest = if n == length rest then some (status, rest) else none

abbrev pub status_and_body : Option (List Bytes × Bytes) → Option (Bytes × Bytes)
unfolding sized
status_and_body none = none
status_and_body (some ([], rest)) = none
status_and_body (some (status ∷ headers, rest)) =
    sized status (number_of (header (codes "Content-Length") headers)) rest

-- A client that admits 100 lines reads a whole response and nothing behind it.
unfoldable pub read_response : Bytes → Option (Bytes × Bytes)
unfolding read_lines
read_response s = status_and_body (read_lines 100 s)

unfoldable no_cr : Bytes → Bool
no_cr [] = true
no_cr (c ∷ s) = let later = no_cr s in if c == 13 then false else later

NotCr-append : (s t : Bytes) → no_cr s ≡ true → All NotCr t → All NotCr (s ++ t)
unfolding no_cr
NotCr-append [] t e h = h
NotCr-append (c ∷ s) t e h = ground (arith, NotCr-append s t)

no_cr-NotCr : (s : Bytes) → no_cr s ≡ true → All NotCr s
unfolding no_cr
no_cr-NotCr [] e = tt
no_cr-NotCr (c ∷ s) e = ground (arith, no_cr-NotCr s)

read_lines-line :
    (limit : ℕ) (line rest : Bytes)
    → All NotCr line
    → is_empty line ≡ false
    → read_lines (suc limit) (line ++ 13 ∷ 10 ∷ rest) ≡ in_front line (read_lines limit rest)
unfolding read_lines
read_lines-line limit [] rest h e = cc
read_lines-line limit (c ∷ line) rest h e = rw (
  find_crlf-text (c ∷ line) rest h,
  take-append_self line (13 ∷ 10 ∷ rest),
  drop-append_self line (13 ∷ 10 ∷ rest),
)

-- What stands behind the length in a response.
abbrev behind_length : Bytes → Bytes → Bytes
behind_length content_type body =
    codes "Content-Type: "
    ++ (content_type ++ 13 ∷ 10 ∷ (codes "Connection: close\r\n\r\n" ++ body))

read_lines-behind_length :
    (content_type body : Bytes)
    → All NotCr content_type
    → read_lines 98 (behind_length content_type body)
      ≡ some ((codes "Content-Type: " ++ content_type) ∷ codes "Connection: close" ∷ [], body)
unfolding read_lines no_cr
read_lines-behind_length content_type body h =
    read_lines-line 97 (codes "Content-Type: " ++ content_type)
      (codes "Connection: close\r\n\r\n" ++ body)
      (NotCr-append (codes "Content-Type: ") content_type refl h) refl
    ∙ ap (in_front (codes "Content-Type: " ++ content_type)) (
        read_lines-line 96 (codes "Connection: close") (13 ∷ 10 ∷ body)
          (NotCr-append (codes "Connection: close") [] refl tt) refl)

with_status-lines :
    (status content_type body : Bytes)
    → All NotCr status
    → is_empty status ≡ false
    → All NotCr content_type
    → read_lines 100 (with_status (status ++ crlf) content_type body)
      ≡ some (
        status
            ∷ (codes "Content-Length: " ++ to_string (length body))
            ∷ (codes "Content-Type: " ++ content_type)
            ∷ codes "Connection: close"
            ∷ [],
        body,
      )
unfolding content_len response_headers no_cr
with_status-lines status content_type body h e ht =
    let n : Bytes = to_string (length body) in
    let lines : Bytes =
      status
      ++ 13 ∷ 10 ∷ (codes "Content-Length: " ++ (n ++ 13 ∷ 10 ∷ behind_length content_type body)) in
    let shape : with_status (status ++ crlf) content_type body ≡ lines = simp append_assoc in
    ap (read_lines 100) shape
    ∙ read_lines-line 99 status
        (codes "Content-Length: " ++ (n ++ 13 ∷ 10 ∷ behind_length content_type body)) h e
    ∙ ap (in_front status) (
        read_lines-line 98 (codes "Content-Length: " ++ n) (behind_length content_type body)
          (NotCr-append (codes "Content-Length: ") n refl
            (plain-NotCr n (to_string-IsPlain (length body))))
          refl
        ∙ ap (in_front (codes "Content-Length: " ++ n))
            (read_lines-behind_length content_type body ht))

abbrev ok_line : Bytes
ok_line = codes "HTTP/1.1 200 OK"

abbrev not_found_line : Bytes
not_found_line = codes "HTTP/1.1 404 Not Found"

sized-length : (status body : Bytes) → sized status (some (length body)) body ≡ some (status, body)
unfolding sized
sized-length status body = ground arith

module _ (content_type body : Bytes) (h : All NotCr content_type) where
  with_status-read_response :
      (status : Bytes)
      → All NotCr status
      → is_empty status ≡ false
      → read_response (with_status (status ++ crlf) content_type body) ≡ some (status, body)
  unfolding read_response header starts_with number_of beq status_and_body
  with_status-read_response status hs e =
      ap status_and_body (with_status-lines status content_type body hs e h)
      ∙ rw (parse_nat-to_string (length body)) (sized-length status body)

  ok_response-read_response : read_response (ok_response content_type body) ≡ some (ok_line, body)
  unfolding ok_response no_cr
  ok_response-read_response =
      with_status-read_response ok_line (NotCr-append ok_line [] refl tt) refl

-- The status and the body for a path.
abbrev pub answer : ℕ → Metrics → Bytes → Bytes × Bytes
answer uptime_seconds m path =
    if beq path (codes "/")
    then (ok_line, root_body)
    else if beq path (codes "/health")
    then (ok_line, health_body uptime_seconds m)
    else if beq path (codes "/metrics")
    then (ok_line, metrics_body uptime_seconds m)
    else (not_found_line, codes "Not Found")

root-read_response : read_response handle_root ≡ some (ok_line, root_body)
unfolding handle_root no_cr
root-read_response =
    ok_response-read_response (codes "text/html") root_body (no_cr-NotCr (codes "text/html") refl)

not_found-read_response :
    read_response (not_found (codes "Not Found")) ≡ some (not_found_line, codes "Not Found")
unfolding not_found no_cr
not_found-read_response =
    with_status-read_response (codes "text/plain") (codes "Not Found")
      (no_cr-NotCr (codes "text/plain") refl) not_found_line (no_cr-NotCr not_found_line refl) refl

module _ (uptime_seconds : ℕ) (m : Metrics) where
  health-read_response :
      read_response (handle_health uptime_seconds m) ≡ some (ok_line, health_body uptime_seconds m)
  unfolding handle_health no_cr
  health-read_response =
      let type : Bytes = codes "application/json" in
      ok_response-read_response type (health_body uptime_seconds m) (no_cr-NotCr type refl)

  metrics-read_response :
      read_response (handle_metrics uptime_seconds m)
      ≡ some (ok_line, metrics_body uptime_seconds m)
  unfolding handle_metrics no_cr
  metrics-read_response =
      let type : Bytes = codes "text/plain; version=0.0.4" in
      ok_response-read_response type (metrics_body uptime_seconds m) (no_cr-NotCr type refl)

  route-read_response :
      (path : Bytes)
      → read_response (route uptime_seconds m path) ≡ some (answer uptime_seconds m path)
  unfolding route
  route-read_response path = elim (Bool-cases (beq path (codes "/"))) [
    | inl e ↦ rw e root-read_response
    | inr no_root ↦ elim (Bool-cases (beq path (codes "/health"))) [
      | inl e ↦ rw (no_root, e) health-read_response
      | inr no_health ↦ elim (Bool-cases (beq path (codes "/metrics"))) [
        | inl e ↦ rw (no_root, no_health, e) metrics-read_response
        | inr no_metrics ↦ rw (no_root, no_health, no_metrics) not_found-read_response
      ]
    ]
  ]

-- A request of at least one byte has a response, in which a client finds exactly the page of the path
-- behind the status 200 if the path is one of the three that the endpoint serves, and else Not Found
-- behind the status 404, each as long as the response's header says.
pub respond-read_response :
    (uptime_seconds : ℕ) (m : Metrics) (received : Bytes)
    → is_empty received ≡ false
    → (response : Bytes) × (respond uptime_seconds m received ≡ some response)
      × (read_response response
          ≡ some (answer uptime_seconds m (path_or_empty (parse_path (take 4096 received)))))
unfolding respond
respond-read_response uptime_seconds m received h =
    let path : Bytes = path_or_empty (parse_path (take 4096 received)) in
    (route uptime_seconds m path, ground arith, route-read_response uptime_seconds m path)
