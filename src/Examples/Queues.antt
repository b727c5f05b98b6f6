-- ===== src/Examples/Queues.antt =====
-- Runs of the theorems on the log buffer, the queue of changes and the interests.
use kubernetes_monitor.Prelude.{
  ◌≡◌, refl, ℕ, String, true, false, none, some, [], ◌∷◌, if◌then◌else◌, ◌&&◌, ◌==◌, string_eq,
  arith,
}
use kubernetes_monitor.Prelude.Sets.{contains}
use kubernetes_monitor.Prelude.Maps.{Map, lookup, insert}
use kubernetes_monitor.Buffer.{new_circular_buffer, write, bytes}
use kubernetes_monitor.Buffer.Contents.{read_back, bytes-write}
use kubernetes_monitor.Resources.{ResourceKey, key_eq, get_owner_references}
use kubernetes_monitor.Resources.Libraries.{key_beq}
use kubernetes_monitor.ChangeQueue.{
  sent, ResourceChange, ChangeQueue, empty_queue, file_change, key, Run, starts, receives,
}
use kubernetes_monitor.ChangeQueue.Order.{IsOrdered, view, folded, later, view-Refines}
use kubernetes_monitor.ChangeQueue.Folding.{Coarsens, Run-IsOrdered, Run-Coarsens}
use kubernetes_monitor.Interests.{
  InterestIndex, set, add_keys, add_target_to_key, drop_keys, targets_of, keys_of, recipients_of,
  populate_resource_info, is_resource_in_index,
}
use kubernetes_monitor.Interests.Both.{Agrees, interested}
use kubernetes_monitor.Interests.Publish.{set_publishes, populate_inherits, owner_interests}
use kubernetes_monitor.Interests.Routing.{wants, contains-recipients_of}
use kubernetes_monitor.Examples.Toy.{ToyManifest, toy}
use kubernetes_monitor.Examples.Web.{web_key, web_resource, endpoints_manifest}

bytes-write_example :
    bytes (write (new_circular_buffer 3) (1 ∷ 2 ∷ 3 ∷ 4 ∷ [])) ≡ read_back 3 (1 ∷ 2 ∷ 3 ∷ 4 ∷ [])
bytes-write_example = bytes-write 3 (1 ∷ 2 ∷ 3 ∷ 4 ∷ []) (omega arith)

-- The Deployment is added, and removed before the first change is handed out.
abbrev added : ResourceChange ToyManifest
added = record { new_res = some web_resource; old_res = none }

abbrev removed : ResourceChange ToyManifest
removed = record { new_res = none; old_res = some web_resource }

abbrev history : Map ResourceKey (ResourceChange ToyManifest)
history = (web_key, removed) ∷ (web_key, added) ∷ []

abbrev twice_changed : ChangeQueue ToyManifest
twice_changed = file_change web_key removed (file_change web_key added empty_queue)

come_and_gone : Run toy history [] twice_changed
unfolding key
come_and_gone =
    receives {q = file_change web_key added empty_queue} web_key removed
      (receives {q = empty_queue} web_key added starts refl) refl

Run-IsOrdered_example : IsOrdered twice_changed
Run-IsOrdered_example = Run-IsOrdered toy come_and_gone

Run-Coarsens_example :
    Coarsens (removed ∷ added ∷ []) (record { new_res = none; old_res = none } ∷ [])
unfolding file_change lookup key_beq insert
Run-Coarsens_example = Run-Coarsens toy web_key come_and_gone

abbrev no_interests : InterestIndex ℕ
no_interests = record {
  keys_by_target = [];
  targets_by_resource = [];
  subscribers = ("machine", 1) ∷ [];
}

no_interests-Agrees : Agrees no_interests
unfolding targets_of keys_of lookup contains
no_interests-Agrees key target = refl

set_publishes_example :
    Agrees (set "machine" (web_key ∷ []) no_interests)
    × ((j : ResourceKey) (t : String)
        → interested (set "machine" (web_key ∷ []) no_interests) j t
          ≡ (if "machine" == t then contains (web_key ∷ []) j else interested no_interests j t))
set_publishes_example = set_publishes "machine" (web_key ∷ []) no_interests no_interests-Agrees

abbrev one_interest : InterestIndex ℕ
one_interest = set "machine" (web_key ∷ []) no_interests

contains-recipients_of_example :
    contains (recipients_of toy (some web_resource) none one_interest) "machine" ≡ (
      if wants toy one_interest none "machine"
      then true
      else wants toy one_interest (some web_resource) "machine")
contains-recipients_of_example =
    contains-recipients_of toy (some web_resource) none one_interest "machine"
      (set_publishes "machine" (web_key ∷ []) no_interests no_interests-Agrees).0

abbrev filled : InterestIndex ℕ
filled = (populate_resource_info toy false endpoints_manifest false one_interest).1

populate_inherits_example :
    Agrees filled
    × ((j : ResourceKey) (t : String)
        → interested filled j t ≡ (
            if toy.manifest_key endpoints_manifest == j
              && owner_interests toy one_interest "shop"
                  (get_owner_references toy endpoints_manifest)
                  t
            then true
            else interested one_interest j t))
unfolding is_resource_in_index targets_of lookup set add_keys add_target_to_key insert drop_keys
    keys_of key_beq
populate_inherits_example =
    populate_inherits toy endpoints_manifest one_interest
      (set_publishes "machine" (web_key ∷ []) no_interests no_interests-Agrees).0 refl

view-Refines_example :
    ((key : ResourceKey) (change : ResourceChange ToyManifest)
      → view (file_change key change twice_changed)
        ≡ insert key (folded (lookup key (view twice_changed)) change) (view twice_changed))
    × (view (sent twice_changed) ≡ later (view twice_changed))
view-Refines_example = view-Refines twice_changed (Run-IsOrdered toy come_and_gone)
