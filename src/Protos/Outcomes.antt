-- ===== src/Protos/Outcomes.antt =====
-- The loops over present and child resources of internal/protos/request_mappers.go: the outcome for one
-- resource is its message or, if it cannot be sent, an error.
use kubernetes_monitor.Prelude.{
  ◌≡◌, refl, ◌≢◌, String, Option, some, List, [], ◌∷◌, Result, ok, failed, ◌==◌, string_eq, All,
  arith, Option-cases, Bool-cases, false, subst, inl, inr,
}
use kubernetes_monitor.Resources as Resources
use kubernetes_monitor.Resources.{ApplicationInstanceChanges, HealthStatus, HealthStatusCode}
use kubernetes_monitor.Protos.Messages.{
  PresentMonitoredResource, ChildMonitoredResource, SyncStatus,
}
use kubernetes_monitor.Protos.{to_cluster_id, to_uuid, to_desired_resource_id, to_sync_status}
use kubernetes_monitor.Protos.Requests.{
  present_message, collect, each, present_with, child_with, to_present_monitored_resource,
  to_present_monitored_resources, to_child_monitored_resource, to_child_monitored_resources,
}
use kubernetes_monitor.Protos.Codes.{IsRecognised, to_sync_status_total, read_sync-to_sync_status}
use kubernetes_monitor.Protos.Present.{IsSendable, sendable_parts, sent-IsSendable, IsSendable-sent}
use kubernetes_monitor.Protos.Totals.{SaysHealth-to_status, SaysDetails-to_details}
use kubernetes_monitor.Protos.Said.{
  SaysPresent, SaysChild, IsSendableChild, Sends, done, mapped, unmapped,
}

-- The outcome for one resource: its message, or an error if it cannot be sent.
abbrev Told : {A B : Type 0} → (A → Type 0) → (A → B → Type 0) → A → Result String B → Type 0
Told Can Says r (ok s) = Can r × Says r s
Told Can Says r (failed e) = ¬ Can r

collect-Sends :
    {A B : Type 0} (Can : A → Type 0) (Says : A → B → Type 0) (r : A) (outcome : Result String B)
    (rs : List A) (rest : List B × List String)
    → Told Can Says r outcome
    → Sends Can Says rs rest.0 rest.1
    → Sends Can Says (r ∷ rs) (collect outcome rest).0 (collect outcome rest).1
unfolding collect
collect-Sends Can Says r (ok s) rs rest told h = mapped told.0 told.1 h
collect-Sends Can Says r (failed e) rs rest told h = unmapped e told h

each-Sends :
    {A B : Type 0} (P Can : A → Type 0) (Says : A → B → Type 0) (f : A → Option (Result String B))
    → ((r : A) → P r → (outcome : Result String B) × (f r ≡ some outcome) × Told Can Says r outcome)
    → (rs : List A) → All P rs
    → (r : List B × List String) × (each f rs ≡ some r) × Sends Can Says rs r.0 r.1
unfolding each
each-Sends P Can Says f total [] h = (([], []), refl, done)
each-Sends P Can Says f total (a ∷ rs) h =
    let (outcome, e, told) = total a h.0 in
    let (r, es, sends) = each-Sends P Can Says f total rs h.1 in
    (collect outcome r, rw (e, es) refl, collect-Sends Can Says a outcome rs r told sends)

module _ {M : Type 0} (marshal : M → Result String String) where
  present_with_total :
      (r : Resources.PresentMonitoredResource M) (o : Result String String) (s : SyncStatus)
      → (outcome : Result String PresentMonitoredResource) × (present_with r o (some s)
          ≡ some outcome)
  unfolding present_with
  present_with_total r (ok text) s = (_, refl)
  present_with_total r (failed e) s = (_, refl)

  to_present_total :
      (r : Resources.PresentMonitoredResource M)
      → IsRecognised r.sync_status
      → (outcome : Result String PresentMonitoredResource) × (to_present_monitored_resource marshal
            r
          ≡ some outcome)
  unfolding to_present_monitored_resource
  to_present_total r known =
      let (sync_status, e) = to_sync_status_total r.sync_status known in
      elim (Bool-cases (r.resource_id == "")) [
        | inl empty ↦ rw empty (_, refl)
        | inr there ↦ elim (Option-cases r.manifest) [
          | inl n ↦ rw (there, n) (_, refl)
          | inr (m, s) ↦
              let (outcome, p) = present_with_total r (marshal m) sync_status in
              (outcome, ground (arith, e, p))
        ]
      ]

  present_message-Says :
      (r : Resources.PresentMonitoredResource M) (m : M) (text : String) (s : SyncStatus)
      → r.manifest ≡ some m
      → marshal m ≡ ok text
      → to_sync_status r.sync_status ≡ some s
      → SaysPresent marshal r (present_message r text s)
  unfolding present_message to_cluster_id to_desired_resource_id to_uuid
  present_message-Says r m text s has marshalled synced = record {
    says_uid = refl;
    says_id = refl;
    says_cluster = refl;
    says_details = SaysDetails-to_details r.group_version_kind r.name r.namespace;
    says_health = SaysHealth-to_status r.status;
    says_sync = (read_sync-to_sync_status r.sync_status s synced).0;
    says_manifest = (m, has, marshalled);
  }

  Told-present :
      (r : Resources.PresentMonitoredResource M) (outcome : Result String PresentMonitoredResource)
      → IsRecognised r.sync_status
      → to_present_monitored_resource marshal r ≡ some outcome
      → Told (IsSendable marshal) (SaysPresent marshal) r outcome
  Told-present r (ok s) known h =
      let (m, text, status, has, marshalled, synced, same) = sendable_parts marshal r s h in
      (
        sent-IsSendable marshal r s h,
        rw same (present_message-Says r m text status has marshalled synced),
      )
  Told-present r (failed e) known h = λ can. let (s, p) = IsSendable-sent marshal r known can in cc

  pub presents_total :
      (rs : List (Resources.PresentMonitoredResource M))
      → All (λ r. IsRecognised r.sync_status) rs
      → (sent : List PresentMonitoredResource × List String) × (to_present_monitored_resources
            marshal rs
          ≡ some sent)
        × Sends (IsSendable marshal) (SaysPresent marshal) rs sent.0 sent.1
  unfolding to_present_monitored_resources
  presents_total rs h =
      each-Sends (λ r. IsRecognised r.sync_status) (IsSendable marshal) (SaysPresent marshal)
        (to_present_monitored_resource marshal)
        (λ r known.
          let (outcome, e) = to_present_total r known in
          (outcome, e, Told-present r outcome known e))
        rs h

  Told-child_with :
      (r : Resources.ChildMonitoredResource M) (m : M) (o : Result String String)
      → r.resource_id ≢ ""
      → r.owner_id ≢ ""
      → r.root_owner_id ≢ ""
      → r.manifest ≡ some m
      → marshal m ≡ o
      → Told (IsSendableChild marshal) (SaysChild marshal) r (child_with r o)
  unfolding child_with to_cluster_id to_uuid
  Told-child_with r m (ok text) id owner root has marshalled = (
    record {
      has_id = id;
      has_owner = owner;
      has_root = root;
      text = text;
      marshalled = (m, has, marshalled);
    },
    record {
      says_uid = refl;
      says_owner = refl;
      says_root = refl;
      says_cluster = refl;
      says_details = SaysDetails-to_details r.group_version_kind r.name r.namespace;
      says_health = SaysHealth-to_status r.status;
      says_manifest = (m, has, marshalled);
    },
  )
  Told-child_with r m (failed e) id owner root has marshalled =
      λ can. let (n, has', marshalled') = can.marshalled in cc

  not_empty : (text : String) → (text == "") ≡ false → text ≢ ""
  not_empty text h e = ground (arith, string_eq.beq_iff text "")

  to_child_on :
      (r : Resources.ChildMonitoredResource M) (m : M)
      → (r.resource_id == "") ≡ false
      → (r.owner_id == "") ≡ false
      → (r.root_owner_id == "") ≡ false
      → r.manifest ≡ some m
      → child_with r (marshal m) ≡ to_child_monitored_resource marshal r
  unfolding to_child_monitored_resource
  to_child_on r m id owner root has = ground arith

  Told-child :
      (r : Resources.ChildMonitoredResource M)
      → Told (IsSendableChild marshal) (SaysChild marshal) r (to_child_monitored_resource marshal r)
  unfolding to_child_monitored_resource
  Told-child r = elim (Bool-cases (r.resource_id == "")) [
    | inl p ↦ rw p (λ can. can.has_id ((string_eq.beq_iff _ _).0 p))
    | inr id ↦ elim (Bool-cases (r.owner_id == "")) [
      | inl p ↦ rw (id, p) (λ can. can.has_owner ((string_eq.beq_iff _ _).0 p))
      | inr owner ↦ elim (Bool-cases (r.root_owner_id == "")) [
        | inl p ↦ rw (id, owner, p) (λ can. can.has_root ((string_eq.beq_iff _ _).0 p))
        | inr root ↦ elim (Option-cases r.manifest) [
          | inl p ↦ rw (id, owner, root, p) (λ can. let (m, has, marshalled) = can.marshalled in cc)
          | inr (m, has) ↦
              subst (Told (IsSendableChild marshal) (SaysChild marshal) r)
                (to_child_on r m id owner root has)
                (Told-child_with r m (marshal m) (not_empty r.resource_id id)
                  (not_empty r.owner_id owner) (not_empty r.root_owner_id root) has refl)
        ]
      ]
    ]
  ]

  All-unit : (rs : List (Resources.ChildMonitoredResource M)) → All (λ r. Unit {0}) rs
  All-unit [] = tt
  All-unit (r ∷ rs) = (tt, All-unit rs)

  pub children_total :
      (rs : List (Resources.ChildMonitoredResource M))
      → (sent : List ChildMonitoredResource × List String) × (to_child_monitored_resources marshal
            rs
          ≡ some sent)
        × Sends (IsSendableChild marshal) (SaysChild marshal) rs sent.0 sent.1
  unfolding to_child_monitored_resources
  children_total rs =
      each-Sends (λ r. Unit {0}) (IsSendableChild marshal) (SaysChild marshal)
        (λ r. some (to_child_monitored_resource marshal r)) (λ r u. (_, refl, Told-child r)) rs
        (All-unit rs)
