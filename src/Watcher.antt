-- ===== src/Watcher.antt =====
-- internal/watcher/watcher.go: the start of the subscribers, and their supervisor, over a list of the
-- signals of the health check (package connection of octopus-grpc). A run is one start of the
-- subscribers under its own context. What a connection, a wait or a recovery comes to is part of the
-- signal. The errors that one report combines are a list.
pub mod Runs
pub mod Forwarded
use kubernetes_monitor.Prelude.{
  ℕ, suc, ◌+◌, Bool, true, false, Option, none, some, List, [], ◌∷◌, ◌++◌, if◌then◌else◌, not,
}

-- `cancelled` is whether the context is, `subscribers` the goroutines that were started, and `stopped`
-- whether all of them were seen to end.
pub record Run : Type 0 where
  pub cancelled : Bool
  pub subscribers : ℕ
  pub stopped : Bool

-- What the three handlers' `Connect` return.
pub record Connects (E : Type 0) : Type 0 where
  pub commands : Option E
  pub logs : Option E
  pub events : Option E

-- A handler that connects is run; one that does not gives its error.
unfoldable pub subscribe : {E : Type 0} → Option E → ℕ × List E → ℕ × List E
subscribe none (subscribers, errors) = (suc subscribers, errors)
subscribe (some err) (subscribers, errors) = (subscribers, errors ++ err ∷ [])

-- `startSubscribers`: the resource monitor loop, and the three handlers in order.
unfoldable pub start_subscribers : {E : Type 0} → Connects E → ℕ × List E
unfolding subscribe
start_subscribers c = subscribe c.events (subscribe c.logs (subscribe c.commands (1, [])))

-- Whether the server answers again, whether the old subscribers ended within the timeout, whether the
-- report reaches the watcher's channel before the parent context ends, and the connections.
pub record Recovery (E : Type 0) : Type 0 where
  pub stops_in_time : Bool
  pub recovers : Bool
  pub delivered : Bool
  pub connects : Connects E

-- What the supervisor's `select` yields. `did_not_recover` is the supervisor's own error.
pub data Signal (E : Type 0) : Type 0 where
  done : Signal E
  fatal : E → Bool → Signal E
  up : Signal E
  down : Recovery E → Signal E

-- The runs, the newest first. `reported` holds the reports that the supervisor itself sends; those that
-- `forwardErrors` sends on the same channel, while the supervisor goes on, are those of
-- `forward_errors`.
pub record Supervisor (E : Type 0) : Type 0 where
  pub runs : List Run
  pub ended : Bool
  pub reported : List (List E)

unfoldable pub cancel_newest : List Run → List Run
cancel_newest [] = []
cancel_newest (r ∷ runs) = record r { cancelled = true } ∷ runs

-- `waitForSubscribers`
unfoldable pub wait_for_subscribers : Bool → List Run → List Run
wait_for_subscribers in_time [] = []
wait_for_subscribers in_time (r ∷ runs) = record r { stopped = in_time } ∷ runs

module _ {E : Type 0} where
  unfoldable pub report : Bool → List E → List (List E) → List (List E)
  report delivered errors reported = if delivered then reported ++ errors ∷ [] else reported

  -- After a start: it goes on, unless a connection failed.
  unfoldable pub started : Bool → ℕ × List E → List Run → List (List E) → Supervisor E
  unfolding report
  started delivered (subscribers, []) runs reported = record {
    runs = record { cancelled = false; subscribers = subscribers; stopped = false } ∷ runs;
    ended = false;
    reported = reported;
  }
  started delivered (subscribers, err ∷ errors) runs reported = record {
    runs = record { cancelled = true; subscribers = subscribers; stopped = false } ∷ runs;
    ended = true;
    reported = report delivered (err ∷ errors) reported;
  }

  module _ (did_not_recover : E) where
    -- One round of `superviseSubscribers`.
    unfoldable pub supervise_one : Signal E → Supervisor E → Supervisor E
    unfolding cancel_newest wait_for_subscribers report started start_subscribers
    supervise_one done s = record s { runs = cancel_newest s.runs; ended = true }
    supervise_one (fatal err delivered) s = record s {
      runs = cancel_newest s.runs;
      ended = true;
      reported = report delivered (err ∷ []) s.reported;
    }
    supervise_one up s = s
    supervise_one (down r) s =
        let runs = wait_for_subscribers r.stops_in_time (cancel_newest s.runs) in
        if not r.recovers
        then record {
          runs = runs;
          ended = true;
          reported = report r.delivered (did_not_recover ∷ []) s.reported;
        }
        else started r.delivered (start_subscribers r.connects) runs s.reported

    unfoldable pub supervise_subscribers : List (Signal E) → Supervisor E → Supervisor E
    unfolding supervise_one
    supervise_subscribers [] s = s
    supervise_subscribers (signal ∷ signals) s =
        let s' = supervise_one signal s in if s'.ended then s' else supervise_subscribers signals s'

    -- `Start`: a failure of the first start is returned, not reported. With the health check disabled
    -- only the end of the parent context has an effect.
    unfoldable pub unsupervised : List (Signal E) → Supervisor E → Supervisor E
    unfolding supervise_one
    unsupervised [] s = s
    unsupervised (done ∷ signals) s = supervise_one done s
    unsupervised (other ∷ signals) s = unsupervised signals s

    unfoldable pub start : Connects E → Bool → List (Signal E) → Supervisor E
    unfolding start_subscribers started supervise_subscribers unsupervised
    start connects checks_health signals =
        let s = started false (start_subscribers connects) [] [] in
        if s.ended
        then s
        else if checks_health
        then supervise_subscribers signals s
        else unsupervised signals s

-- `forwardErrors`: the goroutine ends at its first event, an error of the handler or the end of the run.
unfoldable pub forward_errors : {E : Type 0} → List (Option E) → List E
forward_errors [] = []
forward_errors (none ∷ events) = []
forward_errors (some err ∷ events) = err ∷ []
