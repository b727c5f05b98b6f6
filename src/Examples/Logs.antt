-- ===== src/Examples/Logs.antt =====
-- Runs of the theorems on logs: two printed lines, read in pieces, whole and through a small ring.
use kubernetes_monitor.Prelude.{
  ◌≡◌, refl, ℕ, String, Bool, true, false, Option, none, some, List, [], ◌∷◌, map, All, Result, ok,
  failed, ◌==◌, string_eq, if◌then◌else◌, arith,
}
use kubernetes_monitor.Logs.{Stream, PodLogOptions, parse_logs, container_logs}
use kubernetes_monitor.Logs.Text.{Entry, line_of, IsEntry}
use kubernetes_monitor.Logs.Kept.{Ends, parse_logs-Ends, parse_logs-print}
use kubernetes_monitor.Communication.{retry}
use kubernetes_monitor.Protos.Messages as Messages
use kubernetes_monitor.Protos.{cluster_id_from_proto}
use kubernetes_monitor.Communication.Subscriber.{Break}
use kubernetes_monitor.Handlers.Subscribers.{Arrival, received, broke, Served, serve}
use kubernetes_monitor.Handlers.Served.{Serves, serve-Serves}
use kubernetes_monitor.Handlers.{
  FetchContainerLogsRequest, Response, Sending, after_sending, process_request,
}
use kubernetes_monitor.Handlers.Answered.{sent_line, process_request-print}

-- A stamp is the number of its first character.
abbrev parse_stamp : List ℕ → Result String ℕ
parse_stamp [] = failed "no stamp"
parse_stamp (c ∷ s) = ok c

abbrev entries : List Entry
entries =
    record { stamp = 49 ∷ []; timestamp = 49; message = b'h' ∷ b'i' ∷ [] }
    ∷ record { stamp = 50 ∷ []; timestamp = 50; message = b'y' ∷ b'o' ∷ [] }
    ∷ []

abbrev stream : Stream
stream = record {
  pieces = (49 ∷ 32 ∷ b'h' ∷ []) ∷ (b'i' ∷ 10 ∷ 50 ∷ 32 ∷ []) ∷ (b'y' ∷ b'o' ∷ 10 ∷ []) ∷ [];
  error = none;
}

entries-All : All (IsEntry parse_stamp) entries
entries-All = (
  record {
    parses = refl;
    stamp_spaces = (λ p. omega (arith, p), tt);
    stamp_lines = (λ p. omega (arith, p), tt);
    message_lines = (λ p. omega (arith, p), (λ p. omega (arith, p), tt));
  },
  (
    record {
      parses = refl;
      stamp_spaces = (λ p. omega (arith, p), tt);
      stamp_lines = (λ p. omega (arith, p), tt);
      message_lines = (λ p. omega (arith, p), (λ p. omega (arith, p), tt));
    },
    tt,
  ),
)

parse_logs-print_example : parse_logs parse_stamp 16 stream ≡ (map line_of entries, none)
parse_logs-print_example =
    parse_logs-print parse_stamp 16 stream entries (omega arith) refl refl entries-All (omega arith)

parse_logs-Ends_example : Ends parse_stamp 8 entries (parse_logs parse_stamp 8 stream)
parse_logs-Ends_example =
    parse_logs-Ends parse_stamp 8 stream entries (omega arith) refl refl entries-All

abbrev request : FetchContainerLogsRequest
request = record {
  session_id = some "session";
  cluster_id = some (record { value = "machine" });
  namespace = "shop";
  pod_name = "web-1";
  container_name = "web";
  show_previous_container = false;
}

abbrev is_forbidden : String → Bool
is_forbidden e = e == "forbidden"

abbrev machines : String → Option String
machines id = if id == "machine" then none else some "no such machine"

abbrev pod_logs : String → String → PodLogOptions → Result String Stream
pod_logs namespace pod options = if pod == "web-1" then ok stream else failed "no such pod"

abbrev send : Response Messages.LogLine → Sending
send response = record {
  error = none;
  cancelled = false;
  classify = λ e. retry;
  wrapped = λ e. none;
  restart = true;
}

abbrev response : Response Messages.LogLine
response = record { session_id = "session"; items = map sent_line entries; error = none }

process_request-print_example :
    process_request is_forbidden machines (container_logs pod_logs parse_stamp) send request
    ≡ some (some response, after_sending (send response))
unfolding cluster_id_from_proto
process_request-print_example =
    process_request-print parse_stamp is_forbidden machines pod_logs send request "session" stream
      entries refl refl refl refl refl entries-All (omega arith)

-- A stream that breaks once between two requests, the second of which finds it broken again.
abbrev break_once : Break String
break_once = record {
  err = "unavailable";
  cancelled = false;
  cancelled_before_wait = false;
  cancelled_in_wait = false;
  classify = λ e. retry;
  wrapped = λ e. none;
  connect = none;
}

abbrev arrivals : List (Arrival FetchContainerLogsRequest)
arrivals = received request none ∷ broke break_once ∷ received request (some break_once) ∷ []

abbrev fresh : Served Messages.LogLine
fresh = record {
  subscriber = record { retry_count = 0; continues = true; reported = [] };
  responses = [];
}

serve-Serves_example :
    (h' : Served Messages.LogLine) × (serve
        (process_request is_forbidden machines (container_logs pod_logs parse_stamp))
        arrivals
        fresh
      ≡ some h')
    × Serves is_forbidden machines (container_logs pod_logs parse_stamp) arrivals fresh h'
serve-Serves_example =
    serve-Serves is_forbidden machines (container_logs pod_logs parse_stamp) arrivals fresh
      (("session", refl), (tt, (("session", refl), tt)))
