-- ===== src/Reports/Mapped.antt =====
-- From the target to the sender: what internal/watcher/resource_updates.go and resource_monitor_loop.go make
-- of the reports that internal/cluster and internal/commands pass on.
use kubernetes_monitor.Prelude.{
  ◌≡◌, refl, sym, ap, String, Bool, Option, none, some, List, [], ◌∷◌, Result, All, string_eq,
  subst,
}
use mathlib.Core.List.{Memᴰ}
use kubernetes_monitor.Prelude.Maps.{Map}
use kubernetes_monitor.Resources.{Kubernetes, TypeMeta, CacheResource, ApplicationInstanceChanges}
use kubernetes_monitor.Snapshot.{SharedCluster}
use kubernetes_monitor.ClusterState.{Target}
use kubernetes_monitor.Targets.{
  Outgoing, update, replace, Effect, changes_of, run_change, application_instance_updates,
}
use kubernetes_monitor.Protos.Messages.{
  ServerToClientStream, UpdateMonitoredResourcesRequest, ReplaceMonitoredResourcesRequest,
  DeleteChildMonitoredResourcesRequest,
}
use kubernetes_monitor.Protos.Totals.{IsReportable}
use kubernetes_monitor.Protos.Sent.{
  Accounts, AccountsUpdate, Deletes, to_replace-Accounts, to_update-Accounts,
}
use kubernetes_monitor.Commands.{Monitor, Meets, handle}
use kubernetes_monitor.Sender.{
  QueuedItem, basic_update, basic_delete, basic_replace, update_items, outgoing_items,
}
use kubernetes_monitor.Reports.Replies.{SendsKnown, updates_of, swept-All}
use kubernetes_monitor.Reports.Commands.{handle-Known}
use kubernetes_monitor.Reports.Changes.{run_change-Known}

-- The reports of an operation.
abbrev pub sent_of : {M S : Type 0} → Effect M S → List (Outgoing M)
sent_of none = []
sent_of (some (s, (sent, err))) = sent

-- The requests of an update, in order.
abbrev pub items_of :
    Option UpdateMonitoredResourcesRequest
    → Option DeleteChildMonitoredResourcesRequest
    → List QueuedItem
items_of none none = []
items_of none (some deletion) = basic_delete deletion ∷ []
items_of (some request) none = basic_update request ∷ []
items_of (some request) (some deletion) = basic_update request ∷ basic_delete deletion ∷ []

update_items-items_of :
    (request : Option UpdateMonitoredResourcesRequest)
    (deletion : Option DeleteChildMonitoredResourcesRequest)
    → update_items request deletion ≡ items_of request deletion
unfolding update_items
update_items-items_of none none = refl
update_items-items_of none (some deletion) = refl
update_items-items_of (some request) none = refl
update_items-items_of (some request) (some deletion) = refl

-- What the queue gets for a report: for a replacement the request that accounts for it; for an update
-- the one to update, where there is one, and the one to delete, where there is one. The errors are
-- those of what could not be sent.
abbrev pub IsMapped : {M : Type 0} → (M → Result String String) → Outgoing M → Type 0
IsMapped marshal (replace changes) =
    (request : ReplaceMonitoredResourcesRequest) × (errors : List String) × (outgoing_items marshal
        (replace changes)
      ≡ some (basic_replace request ∷ [], errors))
    × Accounts marshal changes request errors
IsMapped marshal (update changes) =
    (request : Option UpdateMonitoredResourcesRequest) × (deletion : Option
      DeleteChildMonitoredResourcesRequest)
    × (errors : List String) × (outgoing_items marshal (update changes)
        ≡ some (items_of request deletion, errors))
    × AccountsUpdate marshal changes request errors
    × Deletes changes deletion

IsReportable-IsMapped :
    {M : Type 0} (marshal : M → Result String String) (o : Outgoing M)
    → IsReportable (changes_of o)
    → IsMapped marshal o
unfolding outgoing_items
IsReportable-IsMapped marshal (replace changes) h =
    let (request, errors, e, accounts) = to_replace-Accounts marshal changes h in
    (request, errors, rw e refl, accounts)
IsReportable-IsMapped marshal (update changes) h =
    let (request, deletion, errors, e, accounts, deletes) = to_update-Accounts marshal changes h in
    (
      request,
      deletion,
      errors,
      rw e (ap (λ items. some (items, errors)) (update_items-items_of request deletion)),
      accounts,
      deletes,
    )

member-All : {A : Type 0} (P : A → Type 0) (x : A) (xs : List A) → All P xs → Memᴰ x xs → P x
member-All P x [] h m = elim m [ ]
member-All P x (y ∷ xs) h (Memᴰ.head e) = subst P (sym e) h.0
member-All P x (y ∷ xs) h (Memᴰ.tail m) = member-All P x xs h.1 m

sent_of-All :
    {M S : Type 0} (effect : Effect M S)
    → SendsKnown effect
    → All (λ o. IsReportable (changes_of o)) (sent_of effect)
unfolding SendsKnown
sent_of-All none h = tt
sent_of-All (some (s, (sent, err))) h = h

module _ (k : Kubernetes) (default_api_resources : Map TypeMeta Bool)
    (unmarshal : String → Result String k.Manifest) (C S : Type 0) (stopped : Bool) where
  open k use {Manifest}

  -- A command, an event of the cluster cache or a sweep passes the report on.
  pub data IsPassedOn (o : Outgoing Manifest) : Type 0 where
    by_command :
        (meets : Meets Manifest C S) (message : ServerToClientStream) (m : Monitor Manifest C S)
        → Memᴰ o (sent_of (handle k default_api_resources unmarshal stopped meets message m))
        → IsPassedOn o
    by_change :
        (c : SharedCluster Manifest) (new_res old_res : Option (CacheResource Manifest))
        (t : Target Manifest C)
        → Memᴰ o (sent_of (run_change k default_api_resources stopped c new_res old_res t))
        → IsPassedOn o
    by_sweep :
        (refused : Option String) (c : SharedCluster Manifest) (t : Target Manifest C)
        (changes : ApplicationInstanceChanges Manifest)
        → Memᴰ changes
            (updates_of (application_instance_updates k default_api_resources stopped refused c t))
        → o ≡ replace changes
        → IsPassedOn o

  passed_on-IsReportable : (o : Outgoing Manifest) → IsPassedOn o → IsReportable (changes_of o)
  passed_on-IsReportable o (by_command meets message m i) =
      member-All (λ o. IsReportable (changes_of o)) o _
        (sent_of-All _ (handle-Known k default_api_resources unmarshal stopped meets message m)) i
  passed_on-IsReportable o (by_change c new_res old_res t i) =
      member-All (λ o. IsReportable (changes_of o)) o _
        (sent_of-All _ (run_change-Known k default_api_resources stopped c new_res old_res t)) i
  passed_on-IsReportable o (by_sweep refused c t changes i e) =
      subst (λ o. IsReportable (changes_of o)) (sym e)
        (member-All IsReportable changes _ (swept-All k default_api_resources stopped refused c t)
          i)

  -- Whatever report a command, an event of the cluster cache or a sweep passes on, in any state of the
  -- monitor and whatever the cluster answers, its mapping to requests does not panic. A replacement gives
  -- one request, which accounts for it: in order, each present or child resource that has its ids and a
  -- manifest that can be marshalled is in it with its fields, each other one adds one error, and each
  -- missing or unknown resource is in it with its fields. An update gives, in this order, one to update
  -- that accounts for it so, if it reports any resource, and one to delete that names each deleted key,
  -- if there is any.
  pub passed_on-IsMapped :
      (marshal : Manifest → Result String String) (o : Outgoing Manifest)
      → IsPassedOn o
      → IsMapped marshal o
  passed_on-IsMapped marshal o h = IsReportable-IsMapped marshal o (passed_on-IsReportable o h)
