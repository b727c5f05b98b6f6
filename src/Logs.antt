-- ===== src/Logs.antt =====
-- `parseLogs` and `splitLogLine` of internal/cluster/cluster.go, and `containerLogs` of
-- internal/cluster/shared_cluster.go. Text is the list of its bytes. An instant is a number, and
-- `time.Parse(time.RFC3339Nano, …)` is a parameter.
pub mod Text
pub mod Lines
pub mod Kept
use kubernetes_monitor.Prelude.{
  ℕ, ◌*◌, ◌/◌, Bool, true, false, Option, none, some, String, List, [], ◌∷◌, ◌++◌, Result, ok,
  failed, ◌==◌, nat_eq, if◌then◌else◌, ◌>>=◌,
}
use kubernetes_monitor.Buffer.{CircularBuffer, new_circular_buffer, write, bytes}

pub record LogLine : Type 0 where
  pub timestamp : ℕ
  pub message : List ℕ

abbrev pub max_log_size_bytes : ℕ
max_log_size_bytes = 10 * 1024 * 1024

abbrev pub newline : ℕ
newline = 10

abbrev pub space : ℕ
space = 32

-- `bytes.Split(p, "\n")`
abbrev pub prefix_first : ℕ → List (List ℕ) → List (List ℕ)
prefix_first b [] = (b ∷ []) ∷ []
prefix_first b (line ∷ lines) = (b ∷ line) ∷ lines

unfoldable pub split : List ℕ → List (List ℕ)
split [] = [] ∷ []
split (b ∷ p) = let rest = split p in if b == newline then [] ∷ rest else prefix_first b rest

-- `strings.SplitN(line, " ", 2)`, where that has two parts.
unfoldable pub split_n : List ℕ → Option (List ℕ × List ℕ)
split_n [] = none
split_n (b ∷ p) =
    let rest = split_n p >>= λ parts. some (b ∷ parts.0, parts.1) in
    if b == space then some ([], p) else rest

-- What the log's stream yields: pieces, and then its end or an error.
pub record Stream : Type 0 where
  pub pieces : List (List ℕ)
  pub error : Option String

-- The loop that reads the stream into the ring.
unfoldable pub read_pieces : CircularBuffer → List (List ℕ) → CircularBuffer
read_pieces cb [] = cb
read_pieces cb (piece ∷ pieces) = read_pieces (write cb piece) pieces

module _ (parse_time : List ℕ → Result String ℕ) where
  unfoldable pub split_log_line : List ℕ → Result String LogLine
  split_log_line line = elim (split_n line) [
    | none ↦ failed "malformed log line"
    | some (stamp, message) ↦ elim (parse_time stamp) [
      | failed e ↦ failed e
      | ok ts ↦ ok (record { timestamp = ts; message = message })
    ]
  ]

  -- One round of the last loop, in front of the rest of it: `first` is `i == 0`.
  unfoldable pub keep_line :
      Bool → Result String LogLine → List LogLine × Option String → List LogLine × Option String
  keep_line first (ok line) (lines, err) = (line ∷ lines, err)
  keep_line true (failed e) rest = rest
  keep_line false (failed e) rest = ([], some e)

  unfoldable pub parse_lines : Bool → List (List ℕ) → List LogLine × Option String
  unfolding split_log_line keep_line
  parse_lines first [] = ([], none)
  parse_lines first ([] ∷ lines) = parse_lines false lines
  parse_lines first ((b ∷ line) ∷ lines) =
      keep_line first (split_log_line (b ∷ line)) (parse_lines false lines)

  unfoldable pub parse_bytes : List ℕ → List LogLine × Option String
  unfolding split parse_lines
  parse_bytes final_bytes = parse_lines true (split final_bytes)

  -- The lines, and the error beside them.
  unfoldable pub parse_logs : ℕ → Stream → List LogLine × Option String
  unfolding read_pieces parse_bytes
  parse_logs max_size stream = elim stream.error [
    | some e ↦ ([], some e)
    | none ↦ parse_bytes (bytes (read_pieces (new_circular_buffer max_size) stream.pieces))
  ]

-- `PodLogOptions`, as far as the program sets them.
pub record PodLogOptions : Type 0 where
  pub container : String
  pub previous : Bool
  pub tail_lines : ℕ
  pub timestamps : Bool

-- `GetLogs(pod, options).Stream(ctx)` in a namespace is the first argument.
unfoldable pub container_logs :
    (String → String → PodLogOptions → Result String Stream)
    → (List ℕ → Result String ℕ)
    → String
    → String
    → String
    → Bool
    → List LogLine × Option String
unfolding parse_logs
container_logs get_logs parse_time namespace pod container previous =
    let options : PodLogOptions = record {
      container = container;
      previous = previous;
      tail_lines = max_log_size_bytes / 32;
      timestamps = true;
    } in
    elim (get_logs namespace pod options) [
      | failed e ↦ ([], some e)
      | ok stream ↦ parse_logs parse_time max_log_size_bytes stream
    ]
