-- ===== src/Events.antt =====
-- `events` of internal/cluster/shared_cluster.go: a resource's Kubernetes events as they are sent to
-- Octopus. An instant is a number, and 0 is the zero time; the API admits no negative count.
use kubernetes_monitor.Prelude.{
  ℕ, String, List, [], ◌∷◌, Result, ok, failed, ◌==◌, nat_eq, ◌&&◌, string_eq, if◌then◌else◌,
}
use kubernetes_monitor.Resources.{GroupVersionKind}

-- `corev1.Event`, as far as it is read. `rest` is what only the manifest shows.
pub record KubernetesEvent (Rest : Type 0) : Type 0 where
  pub gvk : GroupVersionKind
  pub first_timestamp : ℕ
  pub last_timestamp : ℕ
  pub event_time : ℕ
  pub count : ℕ
  pub action : String
  pub reason : String
  pub message : String
  pub reporting_controller : String
  pub reporting_instance : String
  pub event_type : String
  pub rest : Rest

pub record Event : Type 0 where
  pub first_observed_time : ℕ
  pub last_observed_time : ℕ
  pub count : ℕ
  pub action : String
  pub reason : String
  pub note : String
  pub reporting_controller : String
  pub reporting_instance : String
  pub event_type : String
  pub manifest : String

module _ {Rest : Type 0} where
  unfoldable pub with_gvk : KubernetesEvent Rest → KubernetesEvent Rest
  with_gvk item =
      if item.gvk.group == "" && (item.gvk.version == "" && item.gvk.kind == "")
      then record item { gvk = record { group = ""; version = "v1"; kind = "Event" } }
      else item

  unfoldable pub first_time : KubernetesEvent Rest → ℕ
  first_time item = if item.first_timestamp == 0 then item.event_time else item.first_timestamp

  unfoldable pub last_time : KubernetesEvent Rest → ℕ
  last_time item = if item.last_timestamp == 0 then item.event_time else item.last_timestamp

  unfoldable pub to_cluster_event : KubernetesEvent Rest → String → Event
  unfolding first_time last_time
  to_cluster_event item raw_manifest = record {
    first_observed_time = first_time item;
    last_observed_time = last_time item;
    count = if item.count == 0 then 1 else item.count;
    action = item.action;
    reason = item.reason;
    note = item.message;
    reporting_controller = item.reporting_controller;
    reporting_instance = item.reporting_instance;
    event_type = item.event_type;
    manifest = raw_manifest;
  }

  -- `yaml.Marshal` of an item is a parameter.
  module _ (marshal : KubernetesEvent Rest → Result String String) where
    -- The loop over the items: one that cannot be marshalled is left out.
    unfoldable pub process_items : List (KubernetesEvent Rest) → List Event
    unfolding with_gvk to_cluster_event
    process_items [] = []
    process_items (item ∷ items) = elim (marshal (with_gvk item)) [
      | failed e ↦ process_items items
      | ok raw_manifest ↦ to_cluster_event (with_gvk item) raw_manifest ∷ process_items items
    ]

    -- `Events(namespace).List` with a selector of the object's kind and name is `list_events`.
    unfoldable pub events :
        (String → String → String → Result String (List (KubernetesEvent Rest)))
        → String
        → String
        → String
        → Result String (List Event)
    unfolding process_items
    events list_events namespace name kind = elim (list_events namespace kind name) [
      | failed e ↦ failed e
      | ok items ↦ ok (process_items items)
    ]
