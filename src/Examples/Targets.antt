-- ===== src/Examples/Targets.antt =====
-- Runs of the theorems on a target that is sent one desired Deployment.
use kubernetes_monitor.Prelude.{
  refl, ℕ, String, false, Option, none, some, List, [], ◌∷◌, Result, ok,
}
use kubernetes_monitor.Prelude.Maps.{Map, lookup, insert}
use kubernetes_monitor.Prelude.Sets.{contains}
use kubernetes_monitor.Resources.{
  ResourceKey, DesiredResource, ApplicationInstanceChanges, key_eq, key_beq, resolve_namespace,
  resource_key,
}
use kubernetes_monitor.Instance.{
  delete_desired_resources, merge_desired_resources, replace_desired_resources, empty_changes,
}
use kubernetes_monitor.Interests.{keys_of, targets_of}
use kubernetes_monitor.Interests.Both.{Agrees}
use kubernetes_monitor.ClusterState.{Target, publish_interests, merge_desired, replace_desired}
use kubernetes_monitor.ClusterState.Sweep.{delete_from, monitored_resource_updates}
use kubernetes_monitor.ClusterState.Published.{
  Publishes, merge_desired-Publishes, replace_desired-Publishes, delete_from-Publishes,
  monitored_resource_updates-Publishes,
}
use kubernetes_monitor.Examples.Toy.{ToyManifest, toy}
use kubernetes_monitor.Examples.Web.{web_key, web_desired, waiting}
use kubernetes_monitor.Examples.Snapshots.{shop}

abbrev new_target : Target ToyManifest ℕ
new_target = record {
  state = record { cluster_id = "machine"; application_instances = [] };
  interests = record {
    keys_by_target = [];
    targets_by_resource = [];
    subscribers = ("machine", 1) ∷ [];
  };
}

new_target-Agrees : Agrees new_target.interests
unfolding targets_of keys_of lookup contains
new_target-Agrees key target = refl

abbrev desired : Map ResourceKey (DesiredResource ToyManifest)
desired = (web_key, web_desired) ∷ []

abbrev Answer : Type 0
Answer = Option (Target ToyManifest ℕ × Result String (ApplicationInstanceChanges ToyManifest))

abbrev target_after : Answer → Target ToyManifest ℕ
target_after none = new_target
target_after (some (t, r)) = t

abbrev no_changes : ApplicationInstanceChanges ToyManifest
no_changes = empty_changes toy "machine" waiting

abbrev sent_after : Answer → ApplicationInstanceChanges ToyManifest
sent_after (some (t, ok c)) = c
sent_after r = no_changes

abbrev merged : Answer
merged = merge_desired toy [] false (λ n. shop) "shop" desired "salt" new_target

abbrev replaced : Answer
replaced = replace_desired toy [] false (λ n. shop) "shop" desired "salt" new_target

merge_desired-Publishes_example : Publishes toy new_target.interests "machine" (target_after merged)
unfolding merge_desired lookup key_beq merge_desired_resources resolve_namespace insert resource_key
merge_desired-Publishes_example =
    merge_desired-Publishes toy [] (λ n. shop) "shop" desired "salt" new_target
      (target_after merged) (sent_after merged) new_target-Agrees refl

replace_desired-Publishes_example :
    Publishes toy new_target.interests "machine" (target_after replaced)
unfolding replace_desired lookup key_beq replace_desired_resources resolve_namespace insert
    resource_key
replace_desired-Publishes_example =
    replace_desired-Publishes toy [] (λ n. shop) "shop" desired "salt" new_target
      (target_after replaced) (sent_after replaced) new_target-Agrees refl

-- The instance that waits for its Deployment, and nothing published.
abbrev pub waiting_target : Target ToyManifest ℕ
waiting_target = record new_target {
  state = record { cluster_id = "machine"; application_instances = ("shop", waiting) ∷ [] };
}

abbrev swept : Option (Target ToyManifest ℕ × List (ApplicationInstanceChanges ToyManifest))
swept = monitored_resource_updates toy [] false shop waiting_target

abbrev target_swept :
    Option (Target ToyManifest ℕ × List (ApplicationInstanceChanges ToyManifest))
    → Target ToyManifest ℕ
target_swept none = waiting_target
target_swept (some (t, updates)) = t

abbrev updates_swept :
    Option (Target ToyManifest ℕ × List (ApplicationInstanceChanges ToyManifest))
    → List (ApplicationInstanceChanges ToyManifest)
updates_swept none = []
updates_swept (some (t, updates)) = updates

monitored_resource_updates-Publishes_example :
    Publishes toy new_target.interests "machine" (target_swept swept)
unfolding monitored_resource_updates lookup key_beq insert resolve_namespace resource_key
monitored_resource_updates-Publishes_example =
    monitored_resource_updates-Publishes toy [] shop waiting_target (target_swept swept)
      (updates_swept swept) new_target-Agrees refl

swept_published : Publishes toy new_target.interests "machine" (target_swept swept)
unfolding monitored_resource_updates lookup key_beq insert resolve_namespace resource_key
swept_published =
    monitored_resource_updates-Publishes toy [] shop waiting_target (target_swept swept)
      (updates_swept swept) new_target-Agrees refl

swept_published_itself : Publishes toy (target_swept swept).interests "machine" (target_swept swept)
swept_published_itself = record {
  named = swept_published.named;
  agrees = swept_published.agrees;
  own = swept_published.own;
  others = λ j other n. refl;
}

delete_from-Publishes_example : Publishes toy (target_swept swept).interests "machine" (
    delete_from toy [] false (delete_desired_resources ("web-id" ∷ [])) "shop" (target_swept swept))
unfolding monitored_resource_updates lookup key_beq insert resolve_namespace resource_key
    publish_interests
delete_from-Publishes_example =
    delete_from-Publishes toy [] (delete_desired_resources ("web-id" ∷ [])) "shop"
      (target_swept swept) swept_published_itself
