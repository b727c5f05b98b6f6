-- ===== src/Handlers/Subscribers.antt =====
-- The supervisor loops of internal/logs/handler.go and internal/events/handler.go, over what their stream
-- meets: a request, with what the sending of its response meets, or an error of `Recv`. The restart and
-- the counter are those of internal/commands/command_handler.go, word for word.
use kubernetes_monitor.Prelude.{
  String, Bool, true, false, Option, none, some, List, [], ◌∷◌, ◌++◌, if◌then◌else◌, ◌>>=◌,
}
use kubernetes_monitor.Communication.{Action, handle_stream_send_err}
use kubernetes_monitor.Communication.Subscriber.{
  Break, Subscriber, message, broken, reports, restart_subscriber, receive,
}
use kubernetes_monitor.Handlers.{Sending, Response}

pub data Arrival (Request : Type 0) : Type 0 where
  received : Request → Option (Break String) → Arrival Request
  broke : Break String → Arrival Request

-- The handler, and the responses that went out.
pub record Served (A : Type 0) : Type 0 where
  pub subscriber : Subscriber String
  pub responses : List (Response A)

-- What a sending meets, once the counter is as it is.
unfoldable pub sending_of : Subscriber String → Option (Break String) → Sending
unfolding restart_subscriber
sending_of s none = record {
  error = none;
  cancelled = false;
  classify = λ e. Action.other;
  wrapped = λ e. none;
  restart = false;
}
sending_of s (some b) = record {
  error = some b.err;
  cancelled = b.cancelled;
  classify = b.classify;
  wrapped = b.wrapped;
  restart = (restart_subscriber b s).continues;
}

-- What `HandleStreamSendErr` leaves of the handler.
unfoldable pub send_failed : Break String → Subscriber String → Subscriber String
unfolding restart_subscriber
send_failed b s =
    let restarted = restart_subscriber b s in
    let handled =
      handle_stream_send_err b.cancelled b.classify b.wrapped restarted.continues b.err in
    if handled.restarted
    then restarted
    else record s { reported = reports s.reported handled.reported }

module _ {A Request : Type 0}
    (process : (Response A → Sending) → Request → Option (Option (Response A) × Bool)) where
  -- After a request: the response is out if its sending had no error.
  unfoldable pub after_request :
      Option (Response A) × Bool
      → Option (Break String)
      → Subscriber String
      → List (Response A)
      → Served A
  unfolding send_failed
  after_request (none, go) sending s responses = record {
    subscriber = record s { continues = go };
    responses = responses;
  }
  after_request (some response, go) none s responses = record {
    subscriber = record s { continues = go };
    responses = responses ++ response ∷ [];
  }
  after_request (some response, go) (some b) s responses = record {
    subscriber = record (send_failed b s) { continues = go };
    responses = responses;
  }

  -- One round of `receive`.
  unfoldable pub serve_one : Arrival Request → Served A → Option (Served A)
  unfolding receive sending_of after_request
  serve_one (broke b) h = some (record h { subscriber = receive (broken b) h.subscriber })
  serve_one (received request sending) h = do
    let s = receive message h.subscriber
    outcome ← process (λ response. sending_of s sending) request
    some (after_request outcome sending s h.responses)

  -- `StartSubscriber`. `none` is a panic.
  unfoldable pub serve : List (Arrival Request) → Served A → Option (Served A)
  unfolding serve_one
  serve [] h = some h
  serve (arrival ∷ arrivals) h = do
    h' ← serve_one arrival h
    elim h'.subscriber.continues [ true ↦ serve arrivals h' | false ↦ some h' ]
