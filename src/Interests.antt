-- ===== src/Interests.antt =====
-- internal/cluster/resource_interests.go: which target (an Octopus machine) is interested in which
-- resource, kept both ways round, and the routing of cache events by it. One goroutine owns the
-- index and runs one operation at a time (Mailbox); the struct's methods return the new struct.
-- A subscriber's channel is an abstract value.
pub mod Both
pub mod Publish
pub mod Routing
use kubernetes_monitor.Prelude.{
  String, Bool, true, false, not, Option, none, some, List, [], ◌∷◌, ◌++◌, Result, ok, failed,
  string_eq, if◌then◌else◌, ◌&&◌,
}
use kubernetes_monitor.Prelude.Sets
use kubernetes_monitor.Prelude.Sets.{contains}
use kubernetes_monitor.Prelude.Maps.{Map, lookup, insert, delete}
use kubernetes_monitor.Resources.{
  ResourceKey, OwnerReference, key_eq, ResourceInfo, CacheResource, resource_info,
  owner_ref_resource_key, get_owner_references,
}
use kubernetes_monitor.Resources.Libraries.{Kubernetes}

pub record InterestIndex (C : Type 0) : Type 0 where
  pub keys_by_target : Map String (List ResourceKey)
  pub targets_by_resource : Map ResourceKey (List String)
  pub subscribers : Map String C

-- A nil set has no elements.
abbrev pub elements {ℓ} : {A : Type ℓ} → Option (List A) → List A
elements none = []
elements (some xs) = xs

-- A map without the key whose set came to be empty.
unfoldable pub file_targets :
    ResourceKey → List String → Map ResourceKey (List String) → Map ResourceKey (List String)
file_targets key [] m = delete key m
file_targets key (t ∷ ts) m = insert key (t ∷ ts) m

module _ {C : Type 0} where
  -- `x.keysByTarget[target]`, `x.targetsByResource[key]`
  unfoldable pub keys_of : InterestIndex C → String → List ResourceKey
  keys_of x target = elements (lookup target x.keys_by_target)

  unfoldable pub targets_of : InterestIndex C → ResourceKey → List String
  targets_of x key = elements (lookup key x.targets_by_resource)

  unfoldable pub subscribe : String → C → InterestIndex C → InterestIndex C
  subscribe target changes x = record x { subscribers = insert target changes x.subscribers }

  unfoldable pub add_key_to_target : ResourceKey → String → InterestIndex C → InterestIndex C
  add_key_to_target key target x = record x {
    keys_by_target = insert target (Sets.add key (keys_of x target)) x.keys_by_target;
  }

  unfoldable pub add_target_to_key : ResourceKey → String → InterestIndex C → InterestIndex C
  add_target_to_key key target x = record x {
    targets_by_resource = insert key (Sets.add target (targets_of x key)) x.targets_by_resource;
  }

  unfoldable pub remove_target_from_key : ResourceKey → String → InterestIndex C → InterestIndex C
  unfolding file_targets
  remove_target_from_key key target x = record x {
    targets_by_resource =
        file_targets key (Sets.remove target (targets_of x key)) x.targets_by_resource;
  }

  -- The two loops of `set`.
  unfoldable pub drop_keys :
      String → List ResourceKey → List ResourceKey → InterestIndex C → InterestIndex C
  drop_keys target keys [] x = x
  drop_keys target keys (key ∷ old) x =
      drop_keys target keys old
        (if not (contains keys key) then remove_target_from_key key target x else x)

  unfoldable pub add_keys : String → List ResourceKey → InterestIndex C → InterestIndex C
  add_keys target [] x = x
  add_keys target (key ∷ keys) x = add_keys target keys (add_target_to_key key target x)

  unfoldable pub set : String → List ResourceKey → InterestIndex C → InterestIndex C
  set target keys x =
      let y = add_keys target keys (drop_keys target keys (keys_of x target) x) in
      record y { keys_by_target = insert target keys y.keys_by_target }

  unfoldable pub remember : String → ResourceKey → InterestIndex C → InterestIndex C
  remember target key x = add_target_to_key key target (add_key_to_target key target x)

  unfoldable pub is_resource_in_index : ResourceKey → InterestIndex C → Bool
  is_resource_in_index key x = elim (targets_of x key) [ [] ↦ false | t ∷ ts ↦ true ]

  -- The inner loop of `inheritInterestFromOwners`.
  unfoldable pub remember_all :
      List String → ResourceKey → InterestIndex C × Bool → InterestIndex C × Bool
  remember_all [] key (x, inherited) = (x, inherited)
  remember_all (target ∷ targets) key (x, inherited) =
      remember_all targets key (remember target key x, true)

-- `for target := range targets { recipients[target] = struct{}{} }`
unfoldable pub add_all : List String → List String → List String
add_all [] recipients = recipients
add_all (target ∷ targets) recipients = add_all targets (Sets.add target recipients)

module _ (k : Kubernetes) {C : Type 0} where
  open k use {Manifest, manifest_key}

  -- The outer loop.
  unfoldable pub inherit :
      ResourceKey → List OwnerReference → InterestIndex C × Bool → InterestIndex C × Bool
  inherit key [] (x, inherited) = (x, inherited)
  inherit key (ref ∷ refs) (x, inherited) =
      inherit key refs (elim (owner_ref_resource_key k ref key.namespace) [
        | failed e ↦ (x, inherited)
        | ok owner_key ↦ remember_all (targets_of x owner_key) key (x, inherited)
      ])

  unfoldable pub inherit_interest_from_owners :
      ResourceInfo → InterestIndex C → InterestIndex C × Bool
  inherit_interest_from_owners info x = inherit info.resource_key info.owner_refs (x, false)

  -- The handler of the cluster cache: the info, and whether the manifest is cached. A stopped index
  -- answers nothing.
  unfoldable pub populate_resource_info :
      Bool → Manifest → Bool → InterestIndex C → (ResourceInfo × Bool) × InterestIndex C
  populate_resource_info stopped un is_root x =
      let info : ResourceInfo = record {
        resource_key = manifest_key un;
        owner_refs = get_owner_references k un;
      } in
      if stopped
      then ((info, false), x)
      else if is_resource_in_index info.resource_key x
      then ((info, true), x)
      else if is_root
      then ((info, false), x)
      else let (y, inherited) = inherit_interest_from_owners info x in ((info, inherited), y)

  -- The targets of the owners of a resource.
  unfoldable pub owners_targets :
      String → List OwnerReference → InterestIndex C → List String → List String
  owners_targets namespace [] x recipients = recipients
  owners_targets namespace (ref ∷ refs) x recipients =
      owners_targets namespace refs x (elim (owner_ref_resource_key k ref namespace) [
        | failed e ↦ recipients
        | ok owner_key ↦ add_all (targets_of x owner_key) recipients
      ])

  -- One side of a change.
  unfoldable pub side_targets :
      Option (CacheResource Manifest) → InterestIndex C → List String → List String
  side_targets res x recipients = elim (resource_info res) [
    | none ↦ recipients
    | some info ↦
        owners_targets info.resource_key.namespace info.owner_refs x
          (add_all (targets_of x info.resource_key) recipients)
  ]

  unfoldable pub recipients_of :
      Option (CacheResource Manifest)
      → Option (CacheResource Manifest)
      → InterestIndex C
      → List String
  recipients_of new_res old_res x = side_targets old_res x (side_targets new_res x [])

  -- The channels that are sent the change, in order. `stops` tells for which target the `select`
  -- finds the index stopped.
  unfoldable pub deliver : (String → Bool) → Map String C → List String → List C
  deliver stops subscribers [] = []
  deliver stops subscribers (target ∷ targets) =
      let rest = deliver stops subscribers targets in
      elim (lookup target subscribers) [
        | none ↦ rest
        | some changes ↦ if stops target then [] else changes ∷ rest
      ]

  unfoldable pub route :
      (String → Bool)
      → Option (CacheResource Manifest)
      → Option (CacheResource Manifest)
      → InterestIndex C
      → List C
  route stops new_res old_res x = deliver stops x.subscribers (recipients_of new_res old_res x)
