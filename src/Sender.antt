-- ===== src/Sender.antt =====
-- internal/watcher/resource_updates.go: the queue of requests to Octopus, and the workers that send
-- them. Producers, workers and Octopus take turns in any order, so the queue is a step relation: a
-- producer waits while the queue is full, a worker takes the oldest item as soon as it is free, and a
-- request that a worker holds ends at any time, with an error, which is logged, or without. That the
-- channel holds at most its capacity, hands out its oldest item and blocks a producer while it is
-- full is Go's semantics of channels, and that a worker holds one item its loop: both are premises of
-- the steps. That a request ends is assumed of the gRPC client.
pub mod Delivered
use kubernetes_monitor.Prelude.{
  ℕ, suc, ◌<◌, ◌≡◌, String, Option, none, some, List, [], ◌∷◌, ◌++◌, Result, ◌>>=◌, length,
}
use kubernetes_monitor.Resources.{ApplicationInstanceChanges}
use kubernetes_monitor.Targets.{Outgoing, update, replace}
use kubernetes_monitor.Protos.Messages.{
  UpdateMonitoredResourcesRequest, ReplaceMonitoredResourcesRequest,
  DeleteChildMonitoredResourcesRequest,
}
use kubernetes_monitor.Protos.Updates.{
  to_update_monitored_resource_request, to_replace_monitored_resource_request,
}

pub data QueuedItem : Type 0 where
  basic_update : UpdateMonitoredResourcesRequest → QueuedItem
  basic_delete : DeleteChildMonitoredResourcesRequest → QueuedItem
  basic_replace : ReplaceMonitoredResourcesRequest → QueuedItem

-- The buffer of `updateQueue`.
abbrev pub queue_capacity : ℕ
queue_capacity = 100

-- What `Update` puts on the queue, in order.
unfoldable pub update_items :
    Option UpdateMonitoredResourcesRequest
    → Option DeleteChildMonitoredResourcesRequest
    → List QueuedItem
update_items none none = []
update_items none (some deletion) = basic_delete deletion ∷ []
update_items (some request) none = basic_update request ∷ []
update_items (some request) (some deletion) = basic_update request ∷ basic_delete deletion ∷ []

-- `Update` and `Replace`: the items for the queue, beside the conversion errors that are logged.
unfoldable pub outgoing_items :
    {M : Type 0} → (M → Result String String) → Outgoing M → Option (List QueuedItem × List String)
unfolding update_items
outgoing_items marshal (update changes) = do
  requests ← to_update_monitored_resource_request marshal changes
  some (update_items requests.0 requests.1.0, requests.1.1)
outgoing_items marshal (replace changes) = do
  request ← to_replace_monitored_resource_request marshal changes
  some (basic_replace request.0 ∷ [], request.1)

-- `taken` is what the workers have taken so far, in order, and `ended` what is sent or failed.
pub record SendQueue (A : Type 0) : Type 0 where
  pub update_queue : List A
  pub in_flight : List A
  pub taken : List A
  pub ended : List A

abbrev pub new_send_queue : {A : Type 0} → SendQueue A
new_send_queue = record { update_queue = []; in_flight = []; taken = []; ended = [] }

-- One step, with this many workers.
pub data Step {A : Type 0} (workers : ℕ) (produced : List A) (q : SendQueue A) (after : List A)
    (r : SendQueue A) : Type 0 where
  produce :
      (item : A)
      → length q.update_queue < queue_capacity
      → after ≡ produced ++ item ∷ []
      → r ≡ record q { update_queue = q.update_queue ++ item ∷ [] }
      → Step workers produced q after r
  take :
      (item : A) (rest : List A)
      → q.update_queue ≡ item ∷ rest
      → length q.in_flight < workers
      → after ≡ produced
      → r ≡ record q {
        update_queue = rest;
        in_flight = item ∷ q.in_flight;
        taken = q.taken ++ item ∷ [];
      }
      → Step workers produced q after r
  finish :
      (before : List A) (item : A) (later : List A)
      → q.in_flight ≡ before ++ item ∷ later
      → after ≡ produced
      → r ≡ record q { in_flight = before ++ later; ended = item ∷ q.ended }
      → Step workers produced q after r

-- The runs from an empty queue, by what the producers have put in.
pub data Run {A : Type 0} (workers : ℕ) : List A → SendQueue A → Type 0 where
  start : Run workers [] new_send_queue
  step :
      {produced after : List A} {q r : SendQueue A}
      → Run workers produced q
      → Step workers produced q after r
      → Run workers after r
