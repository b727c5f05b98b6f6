-- ===== src/Communication.antt =====
-- internal/communication/grpc_utilities.go: how long a subscriber waits before it retries, and what
-- it does on an error of its stream. A duration is a number of seconds.
pub mod Backoff
pub mod Subscriber
use kubernetes_monitor.Prelude.{
  ℕ, zero, suc, ◌-◌, ◌*◌, ◌^◌, Bool, true, false, Option, none, some, String, if◌then◌else◌, ltb,
}

abbrev pub base_backoff_seconds : ℕ
base_backoff_seconds = 2

abbrev pub max_backoff_minutes : ℕ
max_backoff_minutes = 3

-- `float64` holds every power of two up to 2 ^ 1023 exactly, and infinity beyond, so the comparison is
-- that of the numbers. A count below zero is as zero.
unfoldable pub calculate_backoff : ℕ → ℕ
calculate_backoff zero = 0
calculate_backoff (suc n) =
    let backoff_seconds = base_backoff_seconds * 2 ^ n in
    let max_backoff_seconds = max_backoff_minutes * 60 in
    if ltb max_backoff_seconds backoff_seconds then max_backoff_seconds else backoff_seconds

-- What the wait comes to: `cancelled` is whether the context is, and `ends_first` whether it ends
-- before the timer fires.
unfoldable pub wait_for : ℕ → Bool → Bool → Bool
wait_for zero cancelled ends_first = if cancelled then false else true
wait_for (suc d) cancelled ends_first = if ends_first then false else true

-- `grpcerror.Action`: `Retry`, `Stop`, or any other.
pub data Action : Type 0 where
  retry stop other : Action

-- Whether to go on, and the error that is reported on the channel. `restart` is what the restart
-- function returns, `wrapped` the error with the caller's line where the runtime knows it.
pub record Handled (E : Type 0) : Type 0 where
  pub continues : Bool
  pub restarted : Bool
  pub reported : Option E

unfoldable pub handle_stream_recv_err :
    {E : Type 0} → Bool → (E → Action) → (E → Option E) → Bool → E → Handled E
handle_stream_recv_err cancelled classify wrapped restart recv_err =
    if cancelled
    then record { continues = false; restarted = false; reported = none }
    else elim (classify recv_err) [
      | retry ↦ record { continues = restart; restarted = true; reported = none }
      | stop ↦ record { continues = false; restarted = false; reported = none }
      | other ↦ elim (wrapped recv_err) [
        | some err ↦ record { continues = false; restarted = false; reported = some err }
        | none ↦ record { continues = false; restarted = false; reported = some recv_err }
      ]
    ]

unfoldable pub handle_stream_send_err :
    {E : Type 0} → Bool → (E → Action) → (E → Option E) → Bool → E → Handled E
handle_stream_send_err cancelled classify wrapped restart send_err =
    if cancelled
    then record { continues = false; restarted = false; reported = none }
    else elim (classify send_err) [
      | retry ↦ record { continues = restart; restarted = true; reported = none }
      | stop ↦ record { continues = false; restarted = false; reported = none }
      | other ↦ elim (wrapped send_err) [
        | some err ↦ record { continues = false; restarted = false; reported = some err }
        | none ↦ record { continues = false; restarted = false; reported = some send_err }
      ]
    ]
