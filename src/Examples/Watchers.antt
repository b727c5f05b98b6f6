-- ===== src/Examples/Watchers.antt =====
-- Runs of the theorems on the watcher, the sender's queue and the configuration.
use mathlib.Core.List.{Perm}
use kubernetes_monitor.Prelude.{
  ◌≡◌, refl, ℕ, String, true, false, none, some, List, [], ◌∷◌, map, arith,
}
use kubernetes_monitor.Communication.{retry, other}
use kubernetes_monitor.Communication.Subscriber.{
  Subscriber, Input, message, broken, start_subscriber,
}
use kubernetes_monitor.Watcher.{Connects, Signal, up, down, fatal, start, forward_errors}
use kubernetes_monitor.Watcher.Runs.{IsSupervised, start-IsSupervised}
use kubernetes_monitor.Watcher.Forwarded.{forward_errors-start_subscriber}
use kubernetes_monitor.Sender.{SendQueue, produce, take, finish, Run, step, new_send_queue}
use kubernetes_monitor.Sender as Sender
use kubernetes_monitor.Sender.Delivered.{Continues, Run-drains}
use kubernetes_monitor.Configuration.{pos, negsuc, Config, get_config}
use kubernetes_monitor.Configuration.Normal.{IsNormal, get_config-IsNormal}

abbrev connected : Connects String
connected = record { commands = none; logs = none; events = none }

-- The server goes away and comes back, and the next time the logs handler cannot connect.
abbrev signals : List (Signal String)
signals =
    up
    ∷ down
        (record { stops_in_time = true; recovers = true; delivered = true; connects = connected })
    ∷ up
    ∷ down (record {
      stops_in_time = false;
      recovers = true;
      delivered = true;
      connects = record connected { logs = some "refused" };
    })
    ∷ fatal "too late" true
    ∷ []

start-IsSupervised_example : IsSupervised (start "gave up" connected true signals)
start-IsSupervised_example = start-IsSupervised "gave up" connected true signals

abbrev subscriber : Subscriber String
subscriber = record { retry_count = 0; continues = true; reported = [] }

abbrev met : List (Input String)
met =
    message
    ∷ broken (record {
      err = "reset";
      cancelled = false;
      cancelled_before_wait = false;
      cancelled_in_wait = false;
      classify = λ e. retry;
      wrapped = λ e. none;
      connect = none;
    })
    ∷ broken (record {
      err = "denied";
      cancelled = false;
      cancelled_before_wait = false;
      cancelled_in_wait = false;
      classify = λ e. other;
      wrapped = λ e. none;
      connect = none;
    })
    ∷ []

forward_errors-start_subscriber_example :
    (forward_errors (map some (start_subscriber met subscriber).reported)
      ≡ (start_subscriber met subscriber).reported)
    × ((start_subscriber met subscriber).continues ≡ true
        → (start_subscriber met subscriber).reported ≡ [])
forward_errors-start_subscriber_example = forward_errors-start_subscriber met subscriber refl refl

-- Two items are put in, and a worker has the first.
abbrev one_taken : SendQueue ℕ
one_taken = record { update_queue = 2 ∷ []; in_flight = 1 ∷ []; taken = 1 ∷ []; ended = [] }

abbrev one_waits : SendQueue ℕ
one_waits = record { update_queue = 1 ∷ []; in_flight = []; taken = []; ended = [] }

abbrev two_wait : SendQueue ℕ
two_wait = record { update_queue = 1 ∷ 2 ∷ []; in_flight = []; taken = []; ended = [] }

one_waits-Run : Run {A = ℕ} 10 (1 ∷ []) one_waits
one_waits-Run = step Sender.start (produce 1 (omega arith) refl refl)

one_taken-Run : Run {A = ℕ} 10 (1 ∷ 2 ∷ []) one_taken
one_taken-Run =
    step {q = two_wait} (step {q = one_waits} one_waits-Run (produce 2 (omega arith) refl refl))
      (take 1 (2 ∷ []) refl (omega arith) refl refl)

Run-drains_example :
    (r : SendQueue ℕ) × Continues 10 (1 ∷ 2 ∷ []) one_taken r
    × (r.taken ≡ 1 ∷ 2 ∷ [])
    × Perm (1 ∷ 2 ∷ []) r.ended
Run-drains_example = Run-drains 10 (1 ∷ 2 ∷ []) one_taken (omega arith) one_taken-Run

abbrev bound : Config
bound = record {
  persistent = record {
    server_grpc_url = [];
    pin_grpc_certificate = false;
    resource_monitor_period = pos 0;
    max_grpc_send_message_size_bytes = negsuc 4;
    max_grpc_receive_message_size_bytes = pos 1024;
    disable_grpc_compression = false;
    health_check_interval = pos 0;
    health_check_give_up_after = pos 0;
  };
  secret = record {
    installation_id = b'i' ∷ [];
    server_thumbprint = [];
    authentication_token = b't' ∷ [];
  };
  transient = record { use_kubeconfig = false; kubeconfig_path = []; target_namespaces = [] };
}

-- "a, ,"
get_config-IsNormal_example : IsNormal bound (get_config (b'a' ∷ b',' ∷ b' ' ∷ b',' ∷ []) [] bound)
get_config-IsNormal_example = get_config-IsNormal (b'a' ∷ b',' ∷ b' ' ∷ b',' ∷ []) [] bound
