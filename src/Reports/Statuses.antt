-- ===== src/Reports/Statuses.antt =====
-- The sync statuses that internal/cluster gives to the resources that it reports.
use kubernetes_monitor.Prelude.{
  Eq, ◌≢◌, String, Bool, Option, List, [], ◌∷◌, All, ◌==◌, inl, inr, filter, Bool-cases,
  Option-cases, Result-cases,
}
use kubernetes_monitor.Prelude.Maps.{Map, values, insert}
use kubernetes_monitor.Resources.{
  Kubernetes, DesiredResource, is_orphaned, SyncStatusCode, new_sync_status, compare_manifests,
  get_sync_status, new_missing_monitored_resource, new_unknown_monitored_resource,
}
use kubernetes_monitor.Protos.Codes.{IsRecognised}

-- A constant of the status type stays recognised, for an orphaned resource or another.
pub new_sync_status-IsRecognised :
    {M : Type 0} (d : DesiredResource M) (code : SyncStatusCode) (message json_patch : String)
    → ((text : String) → code ≢ SyncStatusCode.unrecognised text)
    → IsRecognised (new_sync_status d code message json_patch)
unfolding new_sync_status
new_sync_status-IsRecognised d code message json_patch h = elim (Bool-cases (is_orphaned d)) [
  | inl p ↦ rw p (λ text q. cc)
  | inr p ↦ rw p h
]

module _ (k : Kubernetes) where
  open k use {Manifest, diff, json_patch}

  compare_manifests-IsRecognised :
      (desired live : Manifest) → IsRecognised (compare_manifests k desired live)
  unfolding compare_manifests
  compare_manifests-IsRecognised desired live = elim (Result-cases (diff desired live)) [
    | inl (e, p) ↦ rw (p, compare_manifests) (λ text q. cc)
    | inr (result, p) ↦ elim (Bool-cases result.modified) [
      | inl m ↦ elim (Result-cases (json_patch result.normalized_live result.predicted_live)) [
        | inl (e, j) ↦ rw (p, compare_manifests, m, j) (λ text q. cc)
        | inr (patch, j) ↦ rw (p, compare_manifests, m, j) (λ text q. cc)
      ]
      | inr m ↦ rw (p, compare_manifests, m) (λ text q. cc)
    ]
  ]

  pub get_sync_status-IsRecognised :
      (manifest : Option Manifest) (d : DesiredResource Manifest)
      → IsRecognised (get_sync_status k manifest d)
  unfolding get_sync_status
  get_sync_status-IsRecognised manifest d = elim (Bool-cases (is_orphaned d)) [
    | inl p ↦ rw p (λ text q. cc)
    | inr p ↦ elim (Option-cases manifest) [
      | inl n ↦ rw (p, n) (λ text q. cc)
      | inr (live, s) ↦ elim (Option-cases d.manifest) [
        | inl n ↦ rw (p, s, n) (λ text q. cc)
        | inr (desired, t) ↦ rw (p, s, t) (compare_manifests-IsRecognised desired live)
      ]
    ]
  ]

  pub new_unknown-IsRecognised :
      (cluster_id : String) (d : DesiredResource Manifest) (message : String)
      → IsRecognised (new_unknown_monitored_resource k cluster_id d message).sync_status
  unfolding new_unknown_monitored_resource
  new_unknown-IsRecognised cluster_id d message =
      new_sync_status-IsRecognised d SyncStatusCode.unknown message "" λ text q. cc

  pub new_missing-IsRecognised :
      (cluster_id : String) (d : DesiredResource Manifest)
      → IsRecognised (new_missing_monitored_resource k cluster_id d).sync_status
  unfolding new_missing_monitored_resource
  new_missing-IsRecognised cluster_id d =
      new_sync_status-IsRecognised d SyncStatusCode.out_of_sync "" "" λ text q. cc

-- What holds of each value of a map holds so after an insertion of another such value.
pub All-insert :
    {K V : Type 0} ⦃e : Eq K⦄ (P : V → Type 0) (key : K) (v : V) (m : Map K V)
    → P v
    → All P (values m)
    → All P (values (insert key v m))
unfolding insert
All-insert P key v [] p h = (p, tt)
All-insert P key v ((j, w) ∷ m) p h = elim (Bool-cases (j == key)) [
  | inl same ↦ rw same (p, h.1)
  | inr other ↦ rw other (h.0, All-insert P key v m p h.1)
]

pub All-filter :
    {A : Type 0} (P : A → Type 0) (keep : A → Bool) (xs : List A)
    → All P xs
    → All P (filter keep xs)
All-filter P keep [] h = tt
All-filter P keep (x ∷ xs) h = elim (Bool-cases (keep x)) [
  | inl p ↦ rw p (h.0, All-filter P keep xs h.1)
  | inr p ↦ rw p (All-filter P keep xs h.1)
]
