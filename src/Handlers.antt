-- ===== src/Handlers.antt =====
-- The answers of internal/logs/handler.go and internal/events/handler.go to requests of Octopus. A request
-- without a session id is a panic, `none`. The registry's answer, the pod's log and the list of events
-- are what the call meets, and so is what a response's sending comes to.
pub mod Subscribers
pub mod Served
pub mod Answered
use kubernetes_monitor.Prelude.{
  ℕ, String, Bool, true, false, Option, none, some, List, [], ◌∷◌, Result, ok, failed,
  if◌then◌else◌,
}
use kubernetes_monitor.Communication.{Action, Handled, handle_stream_send_err}
use kubernetes_monitor.Logs as Logs
use kubernetes_monitor.Events as Events
use kubernetes_monitor.Protos.Messages as Messages
use kubernetes_monitor.Protos.Messages.{ClusterId}
use kubernetes_monitor.Protos.{cluster_id_from_proto, to_log_lines, to_events}

pub data ErrorCode : Type 0 where
  unexpected permission_denied : ErrorCode

pub record Error : Type 0 where
  pub code : ErrorCode
  pub message : String

pub record Response (A : Type 0) : Type 0 where
  pub session_id : String
  pub items : List A
  pub error : Option Error

pub record FetchContainerLogsRequest : Type 0 where
  pub session_id : Option String
  pub cluster_id : Option ClusterId
  pub namespace : String
  pub pod_name : String
  pub container_name : String
  pub show_previous_container : Bool

pub record FetchEventsRequest : Type 0 where
  pub session_id : Option String
  pub cluster_id : Option ClusterId
  pub namespace : String
  pub name : String
  pub kind : String

-- What the sending of a response meets: its error, if it has one, whether the context is cancelled, what
-- the error is classified as and wrapped to, and whether the subscriber could be restarted.
pub record Sending : Type 0 where
  pub error : Option String
  pub cancelled : Bool
  pub classify : String → Action
  pub wrapped : String → Option String
  pub restart : Bool

-- Whether the subscriber goes on.
unfoldable pub after_sending : Sending → Bool
after_sending s = elim s.error [
  | none ↦ true
  | some e ↦ (handle_stream_send_err s.cancelled s.classify s.wrapped s.restart e).continues
]

module _ (is_forbidden : String → Bool) where
  unfoldable pub error_of : String → Error
  error_of e = record {
    code = if is_forbidden e then permission_denied else unexpected;
    message = e;
  }

  -- The response, what was fetched or the error instead.
  unfoldable pub response_to : {A : Type 0} → String → Result String (List A) → Response A
  unfolding error_of
  response_to session (ok items) = record { session_id = session; items = items; error = none }
  response_to session (failed e) = record {
    session_id = session;
    items = [];
    error = some (error_of e);
  }

  -- The response that is sent, if any, and whether the subscriber goes on.
  unfoldable pub answered :
      {A : Type 0}
      → (Response A → Sending)
      → String
      → Option String
      → Result String (List A)
      → Option (Response A) × Bool
  unfolding response_to after_sending
  answered send session (some unknown_cluster) fetched = (none, true)
  answered send session none fetched =
      let response = response_to session fetched in (some response, after_sending (send response))

  -- An error discards the lines beside it.
  unfoldable pub fetched_lines :
      List Logs.LogLine × Option String → Result String (List Messages.LogLine)
  fetched_lines (lines, some e) = failed e
  fetched_lines (lines, none) = ok (to_log_lines lines)

  unfoldable pub fetched_events :
      Result String (List Events.Event) → Result String (List Messages.Event)
  fetched_events (failed e) = failed e
  fetched_events (ok events) = ok (to_events events)

  -- `processRequest`
  unfoldable pub process_request :
      (String → Option String)
      → (String → String → String → Bool → List Logs.LogLine × Option String)
      → (Response Messages.LogLine → Sending)
      → FetchContainerLogsRequest
      → Option (Option (Response Messages.LogLine) × Bool)
  unfolding answered fetched_lines
  process_request get_cluster get_container_logs send request = elim request.session_id [
    | none ↦ none
    | some session ↦ some (
        answered send session (get_cluster (cluster_id_from_proto request.cluster_id)) (
          fetched_lines (
            get_container_logs request.namespace request.pod_name request.container_name
              request.show_previous_container)))
  ]

  -- One round of the events handler's `receive`, once a request is received.
  unfoldable pub process_event_request :
      (String → Option String)
      → (String → String → String → Result String (List Events.Event))
      → (Response Messages.Event → Sending)
      → FetchEventsRequest
      → Option (Option (Response Messages.Event) × Bool)
  unfolding answered fetched_events
  process_event_request get_cluster get_events send request = elim request.session_id [
    | none ↦ none
    | some session ↦ some (
        answered send session (get_cluster (cluster_id_from_proto request.cluster_id))
          (fetched_events (get_events request.namespace request.name request.kind)))
  ]
