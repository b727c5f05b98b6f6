-- ===== src/Protos/Sent.antt =====
-- What the request mappers of internal/protos/request_mappers.go send of an application instance's changes.
use kubernetes_monitor.Prelude.{
  ◌≡◌, refl, ap, ◌∙◌, ◌≢◌, String, true, false, Option, none, some, List, [], ◌∷◌, ◌++◌, Result,
  string_eq, length, arith, ltb, Bool-cases, inl, inr,
}
use kubernetes_monitor.Resources.{ApplicationInstanceChanges, get_all_resource_count}
use kubernetes_monitor.Protos.Messages.{
  DeleteChildMonitoredResourcesRequest, UpdateMonitoredResourcesRequest,
  ReplaceMonitoredResourcesRequest,
}
use kubernetes_monitor.Protos.{to_cluster_id, to_application_instance_id}
use kubernetes_monitor.Protos.Updates.{
  update_message, replace_message, to_delete_request, filled_request, update_request,
  to_update_monitored_resource_request, to_replace_monitored_resource_request,
}
use kubernetes_monitor.Protos.Present.{IsSendable}
use kubernetes_monitor.Protos.Said.{
  SaysMissing, SaysUnknown, SaysPresent, SaysChild, SaysKey, IsSendableChild, SayAll, Sends, done,
  mapped, unmapped,
}
use kubernetes_monitor.Protos.Totals.{
  IsReportable, to_missing_total, to_unknown_total, SayAll-to_resource_keys,
}
use kubernetes_monitor.Protos.Outcomes.{presents_total, children_total}

-- The fields of an update, which are those of a replacement.
abbrev pub fields_of : UpdateMonitoredResourcesRequest → ReplaceMonitoredResourcesRequest
fields_of request = record {
  application_instance_id = request.application_instance_id;
  cluster_id = request.cluster_id;
  present_monitored_resources = request.present_monitored_resources;
  child_monitored_resources = request.child_monitored_resources;
  missing_monitored_resources = request.missing_monitored_resources;
  unknown_monitored_resources = request.unknown_monitored_resources;
}

-- A request to delete names the instance, the machine and each deleted key; there is none without keys.
pub data Deletes {M : Type 0} (update : ApplicationInstanceChanges M)
    : Option DeleteChildMonitoredResourcesRequest → Type 0 where
  no_keys : update.deleted_child_resource_keys ≡ [] → Deletes update none
  keys :
      (request : DeleteChildMonitoredResourcesRequest)
      → update.deleted_child_resource_keys ≢ []
      → request.application_instance_id.value ≡ update.application_instance_id
      → request.cluster_id.value ≡ update.cluster_id
      → SayAll SaysKey update.deleted_child_resource_keys request.resource_keys
      → Deletes update (some request)

empty_of_length : {A : Type 0} (xs : List A) → length xs ≡ 0 → xs ≡ []
empty_of_length [] h = refl
empty_of_length (x ∷ xs) h = absurd (omega (arith, h))

not_empty_of_length : {A : Type 0} (xs : List A) → ltb 0 (length xs) ≡ true → xs ≢ []
not_empty_of_length xs h e = ground (arith, ap length e, h)

to_delete_request-Deletes :
    {M : Type 0} (update : ApplicationInstanceChanges M) → Deletes update (to_delete_request update)
unfolding to_delete_request to_application_instance_id to_cluster_id
to_delete_request-Deletes update =
    let deleted = update.deleted_child_resource_keys in
    elim (Bool-cases (ltb 0 (length deleted))) [
      | inl p ↦
          rw (p, to_delete_request)
            (keys _ (not_empty_of_length deleted p) refl refl (SayAll-to_resource_keys deleted))
      | inr p ↦ rw (p, to_delete_request) (no_keys (empty_of_length deleted (ground (arith, p))))
    ]

-- No resource at all.
abbrev pub IsEmpty : {M : Type 0} → ApplicationInstanceChanges M → Type 0
IsEmpty update =
    (update.present_monitored_resources ≡ [])
    × (update.child_monitored_resources ≡ [])
    × (update.missing_monitored_resources ≡ [])
    × (update.unknown_monitored_resources ≡ [])

Sends-nothing :
    {A B : Type 0} {Can : A → Type 0} {Says : A → B → Type 0} {rs : List A} {ss : List B}
    {errors : List String}
    → Sends Can Says rs ss errors
    → rs ≡ []
    → errors ≡ []
Sends-nothing done e = refl
Sends-nothing (mapped can says h) e = absurd (cc)
Sends-nothing (unmapped error cannot h) e = absurd (cc)

module _ {M : Type 0} (marshal : M → Result String String) where
  -- What a replacement says of the changes that it stands for: the instance and the machine; in order,
  -- each present or child resource that can be sent has its message, with the fields of the resource,
  -- and each other one an error; and each missing or unknown resource has its message.
  pub record Accounts (update : ApplicationInstanceChanges M)
      (request : ReplaceMonitoredResourcesRequest) (errors : List String) : Type 0 where
    pub instance_id : request.application_instance_id.value ≡ update.application_instance_id
    pub cluster : request.cluster_id.value ≡ update.cluster_id
    pub present_errors : List String
    pub child_errors : List String
    pub all_errors : errors ≡ present_errors ++ child_errors
    pub present :
        Sends
          (IsSendable marshal)
          (SaysPresent marshal)
          update.present_monitored_resources
          request.present_monitored_resources
          present_errors
    pub child :
        Sends
          (IsSendableChild marshal)
          (SaysChild marshal)
          update.child_monitored_resources
          request.child_monitored_resources
          child_errors
    pub missing :
        SayAll SaysMissing update.missing_monitored_resources request.missing_monitored_resources
    pub unknown :
        SayAll SaysUnknown update.unknown_monitored_resources request.unknown_monitored_resources

  -- For changes whose sync statuses the monitor knows the mapping to a replacement does not panic. Its
  -- request names the instance and the machine. In order, each present or child resource that has its
  -- ids and a manifest that can be marshalled is sent with its fields, and each other one adds one error
  -- instead; and each missing or unknown resource is sent with its fields.
  pub to_replace-Accounts :
      (update : ApplicationInstanceChanges M)
      → IsReportable update
      → (request : ReplaceMonitoredResourcesRequest) × (errors : List String)
        × (to_replace_monitored_resource_request marshal update ≡ some (request, errors))
        × Accounts update request errors
  unfolding to_replace_monitored_resource_request replace_message to_application_instance_id
      to_cluster_id
  to_replace-Accounts update h =
      let (present, pe, ps) = presents_total marshal update.present_monitored_resources h.present in
      let (child, ce, cs) = children_total marshal update.child_monitored_resources in
      let (missing, me, ms) = to_missing_total update.missing_monitored_resources h.missing in
      let (unknown, ue, us) = to_unknown_total update.unknown_monitored_resources h.unknown in
      (
        replace_message update present.0 child.0 missing unknown,
        present.1 ++ child.1,
        rw (pe, ce, me, ue) refl,
        record {
          instance_id = refl;
          cluster = refl;
          present_errors = present.1;
          child_errors = child.1;
          all_errors = refl;
          present = ps;
          child = cs;
          missing = ms;
          unknown = us;
        },
      )

  -- An update accounts for the changes too; there is none, and no error, without a resource.
  pub data AccountsUpdate (update : ApplicationInstanceChanges M)
      : Option UpdateMonitoredResourcesRequest → List String → Type 0 where
    nothing : IsEmpty update → AccountsUpdate update none []
    something :
        {request : UpdateMonitoredResourcesRequest} {errors : List String}
        → ¬ IsEmpty update
        → Accounts update (fields_of request) errors
        → AccountsUpdate update (some request) errors

  counted :
      (update : ApplicationInstanceChanges M)
      → ltb 0 (get_all_resource_count update) ≡ true
      → ¬ IsEmpty update
  unfolding get_all_resource_count
  counted update h (p, c, m, u) =
      ground (arith, h, ap length p, ap length c, ap length m, ap length u)

  uncounted :
      (update : ApplicationInstanceChanges M)
      → ltb 0 (get_all_resource_count update) ≡ false
      → IsEmpty update
  unfolding get_all_resource_count
  uncounted update h = (
    empty_of_length update.present_monitored_resources (ground (arith, h)),
    empty_of_length update.child_monitored_resources (ground (arith, h)),
    empty_of_length update.missing_monitored_resources (ground (arith, h)),
    empty_of_length update.unknown_monitored_resources (ground (arith, h)),
  )

  -- For changes whose sync statuses the monitor knows the mapping to an update does not panic. There is
  -- no request to update, and no error, if there is no resource of any of the four sorts; otherwise
  -- there is one, even if none of them could be sent, and it accounts for them as a replacement does.
  -- There is no request to delete if no child's key was deleted; otherwise it names the instance, the
  -- machine and each key, in order.
  pub to_update-Accounts :
      (update : ApplicationInstanceChanges M)
      → IsReportable update
      → (request : Option UpdateMonitoredResourcesRequest) × (deletion : Option
          DeleteChildMonitoredResourcesRequest)
        × (errors : List String) × (to_update_monitored_resource_request marshal update
            ≡ some (request, (deletion, errors)))
        × AccountsUpdate update request errors
        × Deletes update deletion
  unfolding to_update_monitored_resource_request update_request filled_request update_message
      to_application_instance_id to_cluster_id
  to_update-Accounts update h =
      let (present, pe, ps) = presents_total marshal update.present_monitored_resources h.present in
      let (child, ce, cs) = children_total marshal update.child_monitored_resources in
      let (missing, me, ms) = to_missing_total update.missing_monitored_resources h.missing in
      let (unknown, ue, us) = to_unknown_total update.unknown_monitored_resources h.unknown in
      let message = update_message update present.0 child.0 missing unknown in
      elim (Bool-cases (ltb 0 (get_all_resource_count update))) [
        | inl p ↦ (
          some message,
          to_delete_request update,
          present.1 ++ child.1,
          rw (pe, ce, update_request, p, me, ue) refl,
          something (counted update p) (record {
            instance_id = refl;
            cluster = refl;
            present_errors = present.1;
            child_errors = child.1;
            all_errors = refl;
            present = ps;
            child = cs;
            missing = ms;
            unknown = us;
          }),
          to_delete_request-Deletes update,
        )
        | inr p ↦
            let empty = uncounted update p in
            let no_errors : present.1 ++ child.1 ≡ [] =
              ap (λ l. l ++ child.1) (Sends-nothing ps empty.0) ∙ Sends-nothing cs empty.1 in
            (
              none,
              to_delete_request update,
              [],
              rw (pe, ce, update_request, p, no_errors) refl,
              nothing empty,
              to_delete_request-Deletes update,
            )
      ]
