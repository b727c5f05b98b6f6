-- ===== src/Handlers/Served.antt =====
-- What the log subscriber (internal/logs/handler.go) sends in all, over what its stream meets.
use kubernetes_monitor.Prelude.{
  ◌≡◌, refl, sym, ◌∙◌, ap, String, Bool, true, Option, none, some, List, [], ◌∷◌, ◌++◌, All, Result,
  inl, inr, Bool-cases, ◌>>=◌,
}
use mathlib.Core.List.{append-nil, append_assoc}
use kubernetes_monitor.Communication.Subscriber.{Break, Subscriber, message, receive}
use kubernetes_monitor.Logs as Logs
use kubernetes_monitor.Protos.Messages as Messages
use kubernetes_monitor.Protos.{cluster_id_from_proto}
use kubernetes_monitor.Handlers.{
  FetchContainerLogsRequest, Response, Sending, response_to, answered, fetched_lines,
  process_request,
}
use kubernetes_monitor.Handlers.Subscribers.{
  Arrival, received, broke, Served, sending_of, after_request, serve_one, serve,
}

-- A request with a session.
abbrev pub HasSession : Arrival FetchContainerLogsRequest → Type 0
HasSession (received request sending) = (session : String) × (request.session_id ≡ some session)
HasSession (broke b) = Unit {0}

abbrev pub listed : {A : Type 0} → Option A → List A
listed none = []
listed (some a) = a ∷ []

module _ (is_forbidden : String → Bool) (get_cluster : String → Option String)
    (get_container_logs : String → String → String → Bool → List Logs.LogLine × Option String) where
  -- The answer to a request, if its machine is known.
  abbrev pub answer_to : String → FetchContainerLogsRequest → List (Response Messages.LogLine)
  answer_to session request = elim (get_cluster (cluster_id_from_proto request.cluster_id)) [
    | some unknown_cluster ↦ []
    | none ↦
        response_to is_forbidden session (
          fetched_lines is_forbidden (
            get_container_logs request.namespace request.pod_name request.container_name
              request.show_previous_container))
        ∷ []
  ]

  abbrev answer : FetchContainerLogsRequest → List (Response Messages.LogLine)
  answer request = elim request.session_id [ none ↦ [] | some session ↦ answer_to session request ]

  -- The answers whose sending met no error.
  abbrev sent_answer :
      FetchContainerLogsRequest → Option (Break String) → List (Response Messages.LogLine)
  sent_answer request none = answer request
  sent_answer request (some b) = []

  abbrev pub answers : List (Arrival FetchContainerLogsRequest) → List (Response Messages.LogLine)
  answers [] = []
  answers (broke b ∷ arrivals) = answers arrivals
  answers (received request sending ∷ arrivals) = sent_answer request sending ++ answers arrivals

  listed-answered :
      (send : Response Messages.LogLine → Sending) (session : String) (unknown : Option String)
      (fetched : Result String (List Messages.LogLine))
      → listed (answered is_forbidden send session unknown fetched).0
        ≡ elim unknown [ some e ↦ [] | none ↦ response_to is_forbidden session fetched ∷ [] ]
  unfolding answered
  listed-answered send session (some e) fetched = refl
  listed-answered send session none fetched = refl

  process_request-answer :
      (send : Response Messages.LogLine → Sending) (request : FetchContainerLogsRequest)
      (session : String)
      → request.session_id ≡ some session
      → (outcome : Option (Response Messages.LogLine) × Bool) × (process_request is_forbidden
            get_cluster get_container_logs send request
          ≡ some outcome)
        × (listed outcome.0 ≡ answer request)
  unfolding process_request
  process_request-answer send request session p =
      let unknown = get_cluster (cluster_id_from_proto request.cluster_id) in
      let fetched = fetched_lines is_forbidden (
        get_container_logs request.namespace request.pod_name request.container_name
          request.show_previous_container) in
      (
        answered is_forbidden send session unknown fetched,
        rw (p, process_request) refl,
        rw p (listed-answered send session unknown fetched),
      )

  sent-listed :
      (request : FetchContainerLogsRequest) (sending : Option (Break String))
      (outcome : Option (Response Messages.LogLine) × Bool)
      → listed outcome.0 ≡ answer request
      → (elim sending [ none ↦ listed outcome.0 | some b ↦ [] ]) ≡ sent_answer request sending ++ []
  sent-listed request none outcome h = h ∙ sym (append-nil (answer request))
  sent-listed request (some b) outcome h = refl

  responses-after_request :
      (outcome : Option (Response Messages.LogLine) × Bool) (sending : Option (Break String))
      (s : Subscriber String) (responses : List (Response Messages.LogLine))
      → (after_request
          (process_request is_forbidden get_cluster get_container_logs)
          outcome
          sending
          s
          responses).responses
        ≡ responses ++ elim sending [ none ↦ listed outcome.0 | some b ↦ [] ]
  unfolding after_request
  responses-after_request (none, go) none s responses = sym (append-nil responses)
  responses-after_request (none, go) (some b) s responses = sym (append-nil responses)
  responses-after_request (some r, go) none s responses = refl
  responses-after_request (some r, go) (some b) s responses = sym (append-nil responses)

  -- A round that returns adds the answers of what arrived.
  serve_one-answers :
      (arrival : Arrival FetchContainerLogsRequest) (h : Served Messages.LogLine)
      → HasSession arrival
      → (h' : Served Messages.LogLine) × (serve_one
            (process_request is_forbidden get_cluster get_container_logs)
            arrival
            h
          ≡ some h')
        × (h'.responses ≡ h.responses ++ answers (arrival ∷ []))
  unfolding serve_one
  serve_one-answers (broke b) h p = (_, refl, sym (append-nil h.responses))
  serve_one-answers (received request sending) h (session, p) =
      let s = receive message h.subscriber in
      let (outcome, e, a) =
        process_request-answer (λ response. sending_of s sending) request session p in
      (
        after_request (process_request is_forbidden get_cluster get_container_logs) outcome sending
            s h.responses,
        rw (e, serve_one) refl,
        responses-after_request outcome sending s h.responses
            ∙ ap (λ l. h.responses ++ l) (sent-listed request sending outcome a),
      )

  answers-cons :
      (arrival : Arrival FetchContainerLogsRequest)
      (arrivals : List (Arrival FetchContainerLogsRequest))
      → answers (arrival ∷ []) ++ answers arrivals ≡ answers (arrival ∷ arrivals)
  answers-cons (broke b) arrivals = refl
  answers-cons (received request sending) arrivals =
      ap (λ l. l ++ answers arrivals) (append-nil (sent_answer request sending))

  -- What the subscriber has dealt with when it ends or the stream does.
  pub record Serves (arrivals : List (Arrival FetchContainerLogsRequest))
      (h h' : Served Messages.LogLine) : Type 0 where
    pub dealt_with : List (Arrival FetchContainerLogsRequest)
    pub left : List (Arrival FetchContainerLogsRequest)
    pub in_order : arrivals ≡ dealt_with ++ left
    pub responses : h'.responses ≡ h.responses ++ answers dealt_with
    pub goes_on : h'.subscriber.continues ≡ true → left ≡ []

  -- If each request has a session, then the subscriber does not panic, whatever its stream meets. It
  -- deals with a beginning of what arrives, all of it if it still goes on; and it sends, in order, the
  -- answer to each request in it from a machine that the monitor knows, but those whose sending meets
  -- an error: the log, or the error that was met instead.
  pub serve-Serves :
      (arrivals : List (Arrival FetchContainerLogsRequest)) (h : Served Messages.LogLine)
      → All HasSession arrivals
      → (h' : Served Messages.LogLine) × (serve
            (process_request is_forbidden get_cluster get_container_logs)
            arrivals
            h
          ≡ some h')
        × Serves arrivals h h'
  unfolding serve
  serve-Serves [] h p = (
    h,
    refl,
    record {
      dealt_with = [];
      left = [];
      in_order = refl;
      responses = sym (append-nil h.responses);
      goes_on = λ c. refl;
    },
  )
  serve-Serves (arrival ∷ arrivals) h p =
      let (h₁, e, a) = serve_one-answers arrival h p.0 in
      let (h', es, rest) = serve-Serves arrivals h₁ p.1 in
      elim (Bool-cases h₁.subscriber.continues) [
        | inl on ↦ (
          h',
          rw (e, serve, ◌>>=◌, on) es,
          record {
            dealt_with = arrival ∷ rest.dealt_with;
            left = rest.left;
            in_order = ap (λ l. arrival ∷ l) rest.in_order;
            responses =
                rest.responses
                ∙ ap (λ l. l ++ answers rest.dealt_with) a
                ∙ append_assoc h.responses (answers (arrival ∷ [])) (answers rest.dealt_with)
                ∙ ap (λ l. h.responses ++ l) (answers-cons arrival rest.dealt_with);
            goes_on = rest.goes_on;
          },
        )
        | inr off ↦ (
          h₁,
          rw (e, serve, ◌>>=◌, off) refl,
          record {
            dealt_with = arrival ∷ [];
            left = arrivals;
            in_order = refl;
            responses = a;
            goes_on = λ c. absurd (cc);
          },
        )
      ]
