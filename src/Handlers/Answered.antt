-- ===== src/Handlers/Answered.antt =====
-- The answer of internal/logs/handler.go to a request for a pod's log, from the stream to the message.
use kubernetes_monitor.Prelude.{
  ◌≡◌, refl, ap, ℕ, ◌≤◌, String, Bool, true, Option, none, some, List, [], ◌∷◌, map, Result, ok,
  All, length, arith,
}
use kubernetes_monitor.Logs.{Stream, PodLogOptions, max_log_size_bytes, container_logs}
use kubernetes_monitor.Logs.Text.{Entry, line_of, print, IsEntry}
use kubernetes_monitor.Logs.Lines.{concat}
use kubernetes_monitor.Logs.Kept.{parse_logs-print}
use kubernetes_monitor.Protos.Messages as Messages
use kubernetes_monitor.Protos.{cluster_id_from_proto, to_log_line, to_log_lines}
use kubernetes_monitor.Handlers.{
  FetchContainerLogsRequest, Response, Sending, after_sending, response_to, answered, fetched_lines,
  process_request,
}

-- The message for a printed line.
abbrev pub sent_line : Entry → Messages.LogLine
sent_line e = record { message = e.message; timestamp = e.timestamp }

sent_lines : (es : List Entry) → to_log_lines (map line_of es) ≡ map sent_line es
unfolding to_log_lines to_log_line
sent_lines [] = refl
sent_lines (e ∷ es) = ap (λ l. sent_line e ∷ l) (sent_lines es)

-- The options with which a pod's log is asked for.
abbrev pub log_options : FetchContainerLogsRequest → PodLogOptions
log_options request = record {
  container = request.container_name;
  previous = request.show_previous_container;
  tail_lines = 327680;
  timestamps = true;
}

module _ (parse_time : List ℕ → Result String ℕ) (is_forbidden : String → Bool)
    (get_cluster : String → Option String)
    (get_logs : String → String → PodLogOptions → Result String Stream)
    (send : Response Messages.LogLine → Sending) where
  container_logs-print :
      (request : FetchContainerLogsRequest) (stream : Stream) (es : List Entry)
      → get_logs request.namespace request.pod_name (log_options request) ≡ ok stream
      → stream.error ≡ none
      → concat stream.pieces ≡ print es
      → All (IsEntry parse_time) es
      → length (print es) ≤ max_log_size_bytes
      → container_logs get_logs parse_time request.namespace request.pod_name request.container_name
          request.show_previous_container
        ≡ (map line_of es, none)
  unfolding container_logs
  container_logs-print request stream es streams ends printed h fits =
      rw (streams, container_logs)
        (parse_logs-print parse_time max_log_size_bytes stream es (omega arith) ends printed h fits)

  -- A request with a session, for a pod of a machine that the monitor knows, whose log is a stream of
  -- printed lines of at most 10 MiB that ends without an error, is answered with exactly these lines, in
  -- order, under its session and without an error; and the subscriber goes on as the sending says.
  pub process_request-print :
      (request : FetchContainerLogsRequest) (session : String) (stream : Stream) (es : List Entry)
      → request.session_id ≡ some session
      → get_cluster (cluster_id_from_proto request.cluster_id) ≡ none
      → get_logs request.namespace request.pod_name (log_options request) ≡ ok stream
      → stream.error ≡ none
      → concat stream.pieces ≡ print es
      → All (IsEntry parse_time) es
      → length (print es) ≤ max_log_size_bytes
      → let response : Response Messages.LogLine = record {
        session_id = session;
        items = map sent_line es;
        error = none;
      } in
        process_request is_forbidden get_cluster (container_logs get_logs parse_time) send request
        ≡ some (some response, after_sending (send response))
  unfolding process_request answered response_to fetched_lines
  process_request-print request session stream es named known streams ends printed h fits =
      rw
        (
          named,
          known,
          container_logs-print request stream es streams ends printed h fits,
          sent_lines es,
        )
        refl
