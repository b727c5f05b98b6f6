-- ===== src/Protos/Updates.antt =====
-- internal/protos/request_mappers.go: the requests that report an application instance, over the mapping of
-- its resources. `none` is a panic.
use kubernetes_monitor.Prelude.{
  String, Option, none, some, List, ◌++◌, Result, string_eq, ltb, length, if◌then◌else◌, ◌>>=◌,
}
use mathlib.Core.Option
use kubernetes_monitor.Resources.{ApplicationInstanceChanges, get_all_resource_count}
use kubernetes_monitor.Protos.Messages.{
  PresentMonitoredResource, ChildMonitoredResource, MissingMonitoredResource,
  UnknownMonitoredResource, UpdateMonitoredResourcesRequest, ReplaceMonitoredResourcesRequest,
  DeleteChildMonitoredResourcesRequest,
}
use kubernetes_monitor.Protos.{to_application_instance_id, to_cluster_id, to_resource_keys}
use kubernetes_monitor.Protos.Requests.{
  to_present_monitored_resources, to_child_monitored_resources, to_missing_monitored_resources,
  to_unknown_monitored_resources,
}

module _ {M : Type 0} where
  unfoldable pub to_delete_request :
      ApplicationInstanceChanges M → Option DeleteChildMonitoredResourcesRequest
  to_delete_request update =
      if ltb 0 (length update.deleted_child_resource_keys)
      then some (record {
        application_instance_id = to_application_instance_id update.application_instance_id;
        cluster_id = to_cluster_id update.cluster_id;
        resource_keys = to_resource_keys update.deleted_child_resource_keys;
      })
      else none

  -- The two literals.
  unfoldable pub update_message :
      ApplicationInstanceChanges M
      → List PresentMonitoredResource
      → List ChildMonitoredResource
      → List MissingMonitoredResource
      → List UnknownMonitoredResource
      → UpdateMonitoredResourcesRequest
  update_message update present_resources child_resources missing_resources unknown_resources =
      record {
        application_instance_id = to_application_instance_id update.application_instance_id;
        cluster_id = to_cluster_id update.cluster_id;
        present_monitored_resources = present_resources;
        child_monitored_resources = child_resources;
        missing_monitored_resources = missing_resources;
        unknown_monitored_resources = unknown_resources;
      }

  unfoldable pub replace_message :
      ApplicationInstanceChanges M
      → List PresentMonitoredResource
      → List ChildMonitoredResource
      → List MissingMonitoredResource
      → List UnknownMonitoredResource
      → ReplaceMonitoredResourcesRequest
  replace_message update present_resources child_resources missing_resources unknown_resources =
      record {
        application_instance_id = to_application_instance_id update.application_instance_id;
        cluster_id = to_cluster_id update.cluster_id;
        present_monitored_resources = present_resources;
        child_monitored_resources = child_resources;
        missing_monitored_resources = missing_resources;
        unknown_monitored_resources = unknown_resources;
      }

  unfoldable pub filled_request :
      ApplicationInstanceChanges M
      → List PresentMonitoredResource
      → List ChildMonitoredResource
      → Option UpdateMonitoredResourcesRequest
  unfolding to_missing_monitored_resources to_unknown_monitored_resources update_message
  filled_request update present_resources child_resources = do
    missing_resources ← to_missing_monitored_resources update.missing_monitored_resources
    unknown_resources ← to_unknown_monitored_resources update.unknown_monitored_resources
    some (
        update_message update present_resources child_resources missing_resources unknown_resources)

  -- The request, if there is something to update.
  unfoldable pub update_request :
      ApplicationInstanceChanges M
      → List PresentMonitoredResource
      → List ChildMonitoredResource
      → Option (Option UpdateMonitoredResourcesRequest)
  unfolding filled_request
  update_request update present_resources child_resources =
      if ltb 0 (get_all_resource_count update)
      then Option.map some (filled_request update present_resources child_resources)
      else some none

module _ {M : Type 0} (marshal : M → Result String String) where
  unfoldable pub to_update_monitored_resource_request :
      ApplicationInstanceChanges M
      → Option (
          Option UpdateMonitoredResourcesRequest
          × (Option DeleteChildMonitoredResourcesRequest × List String))
  unfolding to_present_monitored_resources to_child_monitored_resources update_request
      to_delete_request
  to_update_monitored_resource_request update = do
    present ← to_present_monitored_resources marshal update.present_monitored_resources
    child ← to_child_monitored_resources marshal update.child_monitored_resources
    request ← update_request update present.0 child.0
    some (request, (to_delete_request update, present.1 ++ child.1))

  unfoldable pub to_replace_monitored_resource_request :
      ApplicationInstanceChanges M → Option (ReplaceMonitoredResourcesRequest × List String)
  unfolding to_present_monitored_resources to_child_monitored_resources
      to_missing_monitored_resources to_unknown_monitored_resources replace_message
  to_replace_monitored_resource_request update = do
    present ← to_present_monitored_resources marshal update.present_monitored_resources
    child ← to_child_monitored_resources marshal update.child_monitored_resources
    missing_resources ← to_missing_monitored_resources update.missing_monitored_resources
    unknown_resources ← to_unknown_monitored_resources update.unknown_monitored_resources
    some (
      replace_message update present.0 child.0 missing_resources unknown_resources,
      present.1 ++ child.1,
    )
