-- ===== src/Protos/Present.antt =====
-- When a present resource is sent (internal/protos/request_mappers.go), and what Octopus can read back
-- of it.
use kubernetes_monitor.Prelude.{
  ◌≡◌, refl, ◌≢◌, ◌↔◌, String, Option, none, some, Result, ok, failed, string_eq, arith, beq_false,
  Option-cases, inl, inr, sym, ◌∙◌,
}
use kubernetes_monitor.Resources as Resources
use kubernetes_monitor.Resources.{ApplicationInstanceChanges, HealthStatus, get_all_resource_count}
use kubernetes_monitor.Protos.Messages.{PresentMonitoredResource, SyncStatus}
use kubernetes_monitor.Protos.{to_cluster_id, to_uuid, to_desired_resource_id, to_sync_status}
use kubernetes_monitor.Protos.Requests.{
  to_details, present_message, present_with, to_present_monitored_resource,
}
use kubernetes_monitor.Protos.Codes.{
  read_health, read_sync, IsRecognised, to_sync_status_total, IsNamed,
  read_health-to_resource_status, read_sync-to_sync_status,
}

module _ {M : Type 0} (marshal : M → Result String String) where
  -- A present resource that can be sent.
  pub record IsSendable (r : Resources.PresentMonitoredResource M) : Type 0 where
    pub has_id : r.resource_id ≢ ""
    pub sanitized : M
    pub has_manifest : r.manifest ≡ some sanitized
    pub text : String
    pub marshalled : marshal sanitized ≡ ok text

  present_with-ok :
      (r : Resources.PresentMonitoredResource M) (m : M) (o : Result String String)
      (sync : Option SyncStatus) (sent : PresentMonitoredResource)
      → present_with r o sync ≡ some (ok sent)
      → (text : String) × (sync_status : SyncStatus) × (o ≡ ok text)
        × (sync ≡ some sync_status)
        × (sent ≡ present_message r text sync_status)
  unfolding present_with
  present_with-ok r m (failed e) sync sent h = absurd (cc)
  present_with-ok r m (ok text) none sent h = absurd (cc)
  present_with-ok r m (ok text) (some sync_status) sent h = (text, sync_status, refl, refl, cc)

  to_present_on :
      (r : Resources.PresentMonitoredResource M) (m : M)
      → r.resource_id ≢ ""
      → r.manifest ≡ some m
      → to_present_monitored_resource marshal r
        ≡ present_with r (marshal m) (to_sync_status r.sync_status)
  unfolding to_present_monitored_resource
  to_present_on r m n e = ground (arith, beq_false r.resource_id "" n)

  to_present_off :
      (r : Resources.PresentMonitoredResource M) (sent : PresentMonitoredResource)
      → to_present_monitored_resource marshal r ≡ some (ok sent)
      → (r.resource_id ≢ "") × (r.manifest ≢ none)
  unfolding to_present_monitored_resource
  to_present_off r sent h = ground (arith, string_eq.beq_iff r.resource_id "")

  pub sendable_parts :
      (r : Resources.PresentMonitoredResource M) (sent : PresentMonitoredResource)
      → to_present_monitored_resource marshal r ≡ some (ok sent)
      → (m : M) × (text : String) × (sync_status : SyncStatus) × (r.manifest ≡ some m)
        × (marshal m ≡ ok text)
        × (to_sync_status r.sync_status ≡ some sync_status)
        × (sent ≡ present_message r text sync_status)
  sendable_parts r sent h =
      let (has_id, has_manifest) = to_present_off r sent h in
      elim (Option-cases r.manifest) [
        | inl e ↦ absurd (has_manifest e)
        | inr (m, e) ↦
            let (text, sync_status, marshalled, mapped, same) =
              present_with-ok r m (marshal m) (to_sync_status r.sync_status) sent
                (sym (to_present_on r m has_id e) ∙ h) in
            (m, text, sync_status, e, marshalled, mapped, same)
      ]

  pub sent-IsSendable :
      (r : Resources.PresentMonitoredResource M) (sent : PresentMonitoredResource)
      → to_present_monitored_resource marshal r ≡ some (ok sent)
      → IsSendable r
  sent-IsSendable r sent h =
      let (m, text, sync_status, e, marshalled, mapped, same) = sendable_parts r sent h in
      record {
        has_id = (to_present_off r sent h).0;
        sanitized = m;
        has_manifest = e;
        text = text;
        marshalled = marshalled;
      }

  pub IsSendable-sent :
      (r : Resources.PresentMonitoredResource M)
      → IsRecognised r.sync_status
      → IsSendable r
      → (sent : PresentMonitoredResource) × (to_present_monitored_resource marshal r
          ≡ some (ok sent))
  unfolding present_with
  IsSendable-sent r known s =
      let (sync_status, mapped) = to_sync_status_total r.sync_status known in
      (
        present_message r s.text sync_status,
        to_present_on r s.sanitized s.has_id s.has_manifest ∙ rw (s.marshalled, mapped) refl,
      )

  -- A present resource whose sync status is one that the monitor knows is sent exactly if it has an id
  -- and a manifest, and the manifest can be marshalled.
  pub to_present_monitored_resource_iff :
      (r : Resources.PresentMonitoredResource M)
      → IsRecognised r.sync_status
      → ((sent : PresentMonitoredResource) × (to_present_monitored_resource marshal r
            ≡ some (ok sent)))
        ↔ IsSendable r
  to_present_monitored_resource_iff r known =
      (λ s. sent-IsSendable r s.0 s.1, IsSendable-sent r known)

  module _ (unmarshal : String → Option M) where
    -- The fields of a message, as the resource that it stands for. The resource version is not sent.
    abbrev pub read_present : PresentMonitoredResource → Resources.PresentMonitoredResource M
    read_present sent = record {
      cluster_id = sent.cluster_id.value;
      resource_id = sent.resource_uuid.value;
      desired_resource_id = sent.desired_resource_id.value;
      status = read_health sent.resource_status;
      manifest = unmarshal sent.manifest.value;
      sync_status = read_sync sent.resource_sync_status;
      group_version_kind = record {
        group = sent.resource_details.group_version_kind.group;
        version = sent.resource_details.group_version_kind.version;
        kind = sent.resource_details.group_version_kind.kind;
      };
      name = sent.resource_details.name;
      namespace = sent.resource_details.kubernetes_namespace;
      resource_version = "";
    }

    -- What is sent of a present resource can be read back to the whole of it but its version, where
    -- its health has one of the engine's codes or is absent, and YAML that was written can be read.
    pub read_present-to_present :
        (r : Resources.PresentMonitoredResource M) (sent : PresentMonitoredResource)
        → ((m : M) (text : String) → marshal m ≡ ok text → unmarshal text ≡ some m)
        → IsNamed r.status
        → to_present_monitored_resource marshal r ≡ some (ok sent)
        → read_present sent ≡ record r { resource_version = "" }
    unfolding present_message to_details to_cluster_id to_uuid to_desired_resource_id
    read_present-to_present r sent readable named h =
        let (m, text, sync_status, has, marshalled, mapped, same) = sendable_parts r sent h in
        ground (
          arith,
          same,
          readable m text marshalled,
          read_health-to_resource_status r.status named,
          read_sync-to_sync_status r.sync_status sync_status mapped,
        )
