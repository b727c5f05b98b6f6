-- ===== src/Resources/References.antt =====
-- internal/cluster/references.go: the owners of a resource, with those that Kubernetes leaves out of
-- the manifest. `kube.EndpointsKind`, `ServiceKind`, `SecretKind` and `ServiceAccountKind` are the
-- kinds' names.
use kubernetes_monitor.Prelude.{
  String, Bool, true, false, not, Option, none, some, List, [], ◌∷◌, ◌++◌, ◌&&◌, ◌==◌, string_eq,
  if◌then◌else◌,
}
use kubernetes_monitor.Prelude.Maps.{Map, lookup}
use kubernetes_monitor.Resources.Libraries.{Kubernetes, OwnerReference}

-- `annotations[key]`, the empty text where there is none.
unfoldable pub annotation : Option (Map String String) → String → String
annotation none key = ""
annotation (some entries) key = elim (lookup key entries) [ none ↦ "" | some v ↦ v ]

module _ (k : Kubernetes) where
  open k use {
    Manifest, manifest_gvk, manifest_uid, manifest_name, annotations, owner_references, secret_type,
  }

  -- The reference that `isServiceAccountTokenSecret` starts from, with the annotations' values in it
  -- if both are there.
  unfoldable pub service_account_ref : Manifest → Map String String → OwnerReference
  service_account_ref obj entries =
      let ref : OwnerReference = record {
        api_version = "v1";
        kind = "ServiceAccount";
        name = "";
        uid = manifest_uid obj;
      } in
      elim (lookup "kubernetes.io/service-account.uid" entries) [
        | none ↦ ref
        | some id ↦ elim (lookup "kubernetes.io/service-account.name" entries) [
          | none ↦ ref
          | some name ↦ record ref { name = name; uid = id }
        ]
      ]

  -- `some ref` for `true, ref`; no caller reads the reference beside `false`.
  unfoldable pub is_service_account_token_secret : Manifest → Option OwnerReference
  unfolding service_account_ref
  is_service_account_token_secret obj = elim (secret_type obj) [
    | none ↦ none
    | some type_val ↦
        if not (type_val == "kubernetes.io/service-account-token")
        then none
        else elim (annotations obj) [
          | none ↦ none
          | some entries ↦
              let ref = service_account_ref obj entries in
              if not (ref.name == "") && not (ref.uid == "") then some ref else none
        ]
  ]

  unfoldable pub is_empty : List OwnerReference → Bool
  is_empty [] = true
  is_empty (r ∷ rs) = false

  unfoldable pub get_owner_references : Manifest → List OwnerReference
  unfolding annotation is_service_account_token_secret is_empty
  get_owner_references obj =
      let owner_refs = owner_references obj in
      let gvk = manifest_gvk obj in
      if gvk.group == "" && (gvk.kind == "Endpoints" && is_empty owner_refs)
      then owner_refs
        ++ record {
          uid = manifest_uid obj;
          name = manifest_name obj;
          kind = "Service";
          api_version = "v1";
        }
          ∷ []
      else if gvk.group == "operators.coreos.com" && gvk.kind == "ClusterServiceVersion"
      then (if not (annotation (annotations obj) "olm.operatorGroup" == "")
          then owner_refs
            ++ record {
              uid = manifest_uid obj;
              name = annotation (annotations obj) "olm.operatorGroup";
              kind = "OperatorGroup";
              api_version = "operators.coreos.com/v1";
            }
              ∷ []
          else owner_refs)
      else if gvk.kind == "Secret" && gvk.group == ""
      then elim (is_service_account_token_secret obj) [
        | none ↦ owner_refs
        | some ref ↦ owner_refs ++ ref ∷ []
      ]
      else owner_refs
