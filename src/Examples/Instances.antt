-- ===== src/Examples/Instances.antt =====
-- Runs of the theorems on application instances.
use kubernetes_monitor.Prelude.{◌≡◌, refl, none, some, ok}
use kubernetes_monitor.Prelude.Maps.{values, lookup}
use kubernetes_monitor.Instance.{
  get_changes_for_updated_resource, calculate_resource_change, upsert_child, owner_of,
  get_root_parent_resource,
}
use kubernetes_monitor.Instance.Reports.{Reports, get_changes-Reports}
use kubernetes_monitor.Instance.Standing.{ApartAfter, get_changes-Apart}
use kubernetes_monitor.Instance.Roots.{Climbs, get_root_parent_resource_iff}
use kubernetes_monitor.Instance.SelfOwned.{endpoints_never_returns}
use kubernetes_monitor.Resources.Libraries.{key_beq}
use kubernetes_monitor.Prelude.Maps.{delete}
use kubernetes_monitor.Resources.{
  get_owner_references, new_child_monitored_resource, new_present_monitored_resource,
}
use kubernetes_monitor.Prelude.{◌↔◌, some}
use kubernetes_monitor.Examples.Toy.{toy}
use kubernetes_monitor.Examples.Web.{
  waiting, web_resource, web_arrives, left_by, sent_by, endpoints_resource, endpoints_manifest,
  endpoints_arrive, children,
}

get_changes-Reports_example : Reports (left_by web_arrives) (sent_by web_arrives)
unfolding get_changes_for_updated_resource calculate_resource_change lookup key_beq
    new_present_monitored_resource
get_changes-Reports_example =
    get_changes-Reports toy "machine" (some (λ res. res.resource)) (some web_resource) none waiting
      (left_by web_arrives) (sent_by web_arrives) refl

get_changes-Apart_example : ApartAfter toy web_arrives "web-id"
unfolding lookup
get_changes-Apart_example =
    get_changes-Apart toy "machine" (some (λ res. res.resource)) (some web_resource) none waiting
      (λ id h. refl) "web-id"

get_root_parent_resource_iff_example :
    (get_root_parent_resource "uid-pod" children ≡ some "uid-web")
    ↔ Climbs (values children) "uid-web" "uid-pod"
get_root_parent_resource_iff_example = get_root_parent_resource_iff "uid-pod" "uid-web" children

endpoints_never_returns_example :
    upsert_child toy "machine" (left_by endpoints_arrive) endpoints_resource none ≡ none
unfolding upsert_child lookup get_owner_references owner_of delete get_root_parent_resource
    new_child_monitored_resource
endpoints_never_returns_example =
    endpoints_never_returns toy "machine" waiting (left_by endpoints_arrive) endpoints_manifest
      endpoints_resource none (ok (some (sent_by endpoints_arrive)))
      (record {
        core = refl;
        endpoints = refl;
        unowned = refl;
        has_uid = refl;
        info = refl;
        uid = refl;
      })
      refl refl
