-- ===== src/Communication/Subscriber.antt =====
-- internal/commands/command_handler.go: the supervisor loop of a subscriber. What happens to its stream
-- is a list of inputs.
use kubernetes_monitor.Prelude.{
  ◌≡◌, refl, ap, sym, ◌∙◌, ℕ, suc, Bool, true, false, not, Option, none, some, List, [], ◌∷◌, ◌++◌,
  if◌then◌else◌, arith, ltb, Bool-cases, inl, inr,
}
use kubernetes_monitor.Communication.{Action, calculate_backoff, wait_for, handle_stream_recv_err}

-- An error of `Recv`, and what the handling meets: whether the context is cancelled when it begins,
-- when the wait begins, and before the wait's timer fires, what the error is classified as and wrapped
-- to, and with what error the connection fails, if it does.
pub record Break (E : Type 0) : Type 0 where
  pub err : E
  pub cancelled : Bool
  pub cancelled_before_wait : Bool
  pub cancelled_in_wait : Bool
  pub classify : E → Action
  pub wrapped : E → Option E
  pub connect : Option E

pub data Input (E : Type 0) : Type 0 where
  message : Input E
  broken : Break E → Input E

-- The handler's own state, whether the loop goes on, and the errors sent on its channel.
pub record Subscriber (E : Type 0) : Type 0 where
  pub retry_count : ℕ
  pub continues : Bool
  pub reported : List E

abbrev pub reports : {E : Type 0} → List E → Option E → List E
reports errors none = errors
reports errors (some err) = errors ++ err ∷ []

module _ {E : Type 0} where
  unfoldable pub restart_subscriber : Break E → Subscriber E → Subscriber E
  restart_subscriber b s =
      let retry_count = suc s.retry_count in
      if not (wait_for (calculate_backoff retry_count) b.cancelled_before_wait b.cancelled_in_wait)
      then record s { retry_count = retry_count; continues = false }
      else elim b.connect [
        | some err ↦ record {
          retry_count = retry_count;
          continues = false;
          reported = s.reported ++ err ∷ [];
        }
        | none ↦ record s { retry_count = retry_count; continues = true }
      ]

  -- One round of `receive`, where the restart is called only if the handling calls it.
  unfoldable pub receive : Input E → Subscriber E → Subscriber E
  unfolding restart_subscriber handle_stream_recv_err
  receive message s = if ltb 0 s.retry_count then record s { retry_count = 0 } else s
  receive (broken b) s =
      let restarted = restart_subscriber b s in
      let handled =
        handle_stream_recv_err b.cancelled b.classify b.wrapped restarted.continues b.err in
      if handled.restarted then restarted else record s {
        continues = handled.continues;
        reported = reports s.reported handled.reported;
      }

  unfoldable pub start_subscriber : List (Input E) → Subscriber E → Subscriber E
  unfolding receive
  start_subscriber [] s = s
  start_subscriber (input ∷ inputs) s =
      let s' = receive input s in if s'.continues then start_subscriber inputs s' else s'

  -- The breaks since the last message.
  abbrev pub breaks_since : ℕ → List (Input E) → ℕ
  breaks_since n [] = n
  breaks_since n (message ∷ inputs) = breaks_since 0 inputs
  breaks_since n (broken b ∷ inputs) = breaks_since (suc n) inputs

  receive_counts :
      (input : Input E) (s : Subscriber E)
      → (receive input s).continues ≡ true
      → s.continues ≡ true
      → (receive input s).retry_count ≡ breaks_since s.retry_count (input ∷ [])
  unfolding receive restart_subscriber handle_stream_recv_err
  receive_counts message s h c = ground arith
  receive_counts (broken b) s h c = ground arith

  breaks_since_cons :
      (n : ℕ) (input : Input E) (inputs : List (Input E))
      → breaks_since (breaks_since n (input ∷ [])) inputs ≡ breaks_since n (input ∷ inputs)
  breaks_since_cons n message inputs = refl
  breaks_since_cons n (broken b) inputs = refl

  start_subscriber_on :
      (input : Input E) (inputs : List (Input E)) (s : Subscriber E)
      → (receive input s).continues ≡ true
      → start_subscriber (input ∷ inputs) s ≡ start_subscriber inputs (receive input s)
  unfolding start_subscriber
  start_subscriber_on input inputs s h = rw (h)

  start_subscriber_off :
      (input : Input E) (inputs : List (Input E)) (s : Subscriber E)
      → (receive input s).continues ≡ false
      → start_subscriber (input ∷ inputs) s ≡ receive input s
  unfolding start_subscriber
  start_subscriber_off input inputs s h = rw (h)

  -- While the loop goes on, the counter that sets the wait is the number of breaks since the last
  -- message.
  pub retry_count-start_subscriber :
      (inputs : List (Input E)) (s : Subscriber E)
      → s.continues ≡ true
      → (start_subscriber inputs s).continues ≡ true
      → (start_subscriber inputs s).retry_count ≡ breaks_since s.retry_count inputs
  unfolding start_subscriber
  retry_count-start_subscriber [] s c h = refl
  retry_count-start_subscriber (input ∷ inputs) s c h =
      elim (Bool-cases (receive input s).continues) [
        | inl p ↦
            let on = start_subscriber_on input inputs s p in
            ap (λ r. r.retry_count) on
            ∙ retry_count-start_subscriber inputs (receive input s) p
                (sym (ap (λ r. r.continues) on) ∙ h)
            ∙ ap (λ n. breaks_since n inputs) (receive_counts input s p c)
            ∙ breaks_since_cons s.retry_count input inputs
        | inr p ↦
            absurd (ground (arith, ap (λ r. r.continues) (start_subscriber_off input inputs s p)))
      ]
