-- ===== src/Binaries/Cli.antt =====
-- src/bin/cli.rs: the command line client. What is printed is the text of standard output; the log of
-- `tracing` is left out. `debug` is how the `bytes` crate formats bytes with `{:?}`.
pub mod Session
use fire_redis.Prelude.{
  ℕ, ◌+◌, Bool, true, false, Option, none, some, List, [], ◌∷◌, ◌++◌, map, Bytes, codes, beq,
  is_empty, if◌then◌else◌, length, to_ascii_uppercase,
}
use fire_redis.Decimal.{to_string, i64_to_string}
use fire_redis.Utf8.{is_utf8}
use fire_redis.Resp.{
  Value, Values, nil, cons, simple_string, error, integer, bulk_string, array, null_array, null,
  values_of,
}
use fire_redis.Binaries.Text.{trim, split_whitespace}

unfoldable pub parse_args_to_resp : List Bytes → Value
parse_args_to_resp args = array (values_of (map (λ s. bulk_string (some s)) args))

-- println!
abbrev pub line : Bytes → Bytes
line s = s ++ codes "\n"

abbrev quoted : Bytes → Bytes
quoted s = line (codes "\"" ++ (s ++ codes "\""))

module _ (debug : Bytes → Bytes) where
  abbrev pub print_bytes : Bytes → Bytes
  print_bytes b = if is_utf8 b then quoted b else line (debug b)

  abbrev pub print_bytes_inline : Bytes → Bytes
  print_bytes_inline b =
      if is_utf8 b then quoted b else line (codes "[binary " ++ (to_string (length b) ++ codes "]"))

  -- The arm for bytes, and what `print_response` prints of any other value.
  abbrev pub print_response_inline : Value → Bytes → Bytes
  print_response_inline (bulk_string (some b)) shown = print_bytes_inline b
  print_response_inline _ shown = shown

  unfoldable mutual
    pub print_response : Value → Bytes
    print_response (simple_string s) = quoted s
    print_response (integer i) = line (codes "(integer) " ++ i64_to_string i)
    print_response (bulk_string none) = line (codes "(nil)")
    print_response (bulk_string (some b)) = print_bytes b
    print_response null = line (codes "(nil)")
    print_response (error e) = line (codes "(error) " ++ e)
    print_response (array nil) = line (codes "(empty array)")
    print_response (array (cons v vs)) = print_items 0 (cons v vs)
    print_response null_array = line (codes "(nil)")

    pub print_items : ℕ → Values → Bytes
    print_items i nil = []
    print_items i (cons v vs) =
        (to_string (i + 1) ++ codes ") ")
        ++ (print_response_inline v (print_response v) ++ print_items (i + 1) vs)

  -- What comes of sending a request: the response, an error of the codec, the end of the stream, or the
  -- request could not be sent.
  pub data Exchange : Type 0 where
    answered : Value → Exchange
    failed disconnected unsent : Exchange

  -- A line that was typed, and what comes of it if it is sent.
  pub record Round : Type 0 where
    pub typed : Bytes
    pub exchange : Exchange

  -- Whether the loop goes on, the request that it sends, and what it prints.
  abbrev pub Turn : Type 0
  Turn = Bool × List Value × Bytes

  abbrev pub receive : Value → Exchange → Turn
  receive request (answered v) = (true, request ∷ [], print_response v)
  receive request failed = (true, request ∷ [], [])
  receive request disconnected = (false, request ∷ [], [])
  receive request unsent = (true, [], [])

  abbrev pub is_quit : List Bytes → Bool
  is_quit [] = false
  is_quit (word ∷ words) = beq (to_ascii_uppercase word) (codes "QUIT")

  -- One round of the loop.
  unfoldable pub take_line : Round → Turn
  unfolding print_response parse_args_to_resp trim
  take_line r =
      let text = trim r.typed in
      let parts = split_whitespace text in
      if is_empty text
      then (true, [], [])
      else if is_empty parts
      then (true, [], [])
      else if is_quit parts
      then (false, [], line (codes "Goodbye!"))
      else receive (parse_args_to_resp parts) r.exchange

  abbrev next_line : Turn → List Value × Bytes → List Value × Bytes
  next_line (true, sent, out) (more, text) = (sent ++ more, out ++ text)
  next_line (false, sent, out) rest = (sent, out)

  -- The loop of `run_interactive`: the requests that it sends and what it prints.
  unfoldable pub interact : List Round → List Value × Bytes
  unfolding take_line
  interact [] = ([], [])
  interact (r ∷ rounds) = let rest = interact rounds in next_line (take_line r) rest

  unfoldable pub run_interactive : List Round → List Value × Bytes
  unfolding interact
  run_interactive rounds =
      let (sent, out) = interact rounds in
      (
        sent,
        line (codes "redis-cli connected. Type 'QUIT' to exit.") ++ (line (codes "Ready:") ++ out),
      )

  -- `main` with a command: one request, and its response if one comes.
  unfoldable pub run_command : List Bytes → Option Value → Value × Bytes
  unfolding print_response parse_args_to_resp
  run_command cmd none = (parse_args_to_resp cmd, [])
  run_command cmd (some v) = (parse_args_to_resp cmd, print_response v)
