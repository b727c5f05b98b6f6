-- ===== src/Interests/Routing.antt =====
-- Where internal/cluster/resource_interests.go routes a change.
use kubernetes_monitor.Prelude.{
  ◌≡◌, refl, String, Bool, true, false, Option, none, some, List, [], ◌∷◌, ok, failed, Result-cases,
  string_eq, if◌then◌else◌, arith, inl, inr,
}
use kubernetes_monitor.Prelude.Sets
use kubernetes_monitor.Prelude.Sets.{contains, contains-add}
use kubernetes_monitor.Resources.{
  OwnerReference, key_eq, CacheResource, resource_info, owner_ref_resource_key,
}
use kubernetes_monitor.Resources.Libraries.{Kubernetes}
use kubernetes_monitor.Interests.{
  InterestIndex, keys_of, targets_of, add_all, owners_targets, side_targets, recipients_of,
}
use kubernetes_monitor.Interests.Both.{Agrees}

contains-add_all :
    (ts rs : List String) (t : String)
    → contains (add_all ts rs) t ≡ (if contains ts t then true else contains rs t)
unfolding add_all contains
contains-add_all [] rs t = refl
contains-add_all (u ∷ ts) rs t =
    ground (arith, contains-add_all ts (Sets.add u rs) t, contains-add u t rs)

module _ (k : Kubernetes) {C : Type 0} where
  open k use {Manifest}

  -- Does the target's own set of keys hold one of the owners?
  abbrev pub wants_owner : InterestIndex C → String → List OwnerReference → String → Bool
  wants_owner x namespace [] t = false
  wants_owner x namespace (ref ∷ refs) t =
      let rest = wants_owner x namespace refs t in
      elim (owner_ref_resource_key k ref namespace) [
        | failed e ↦ rest
        | ok owner_key ↦ if contains (keys_of x t) owner_key then true else rest
      ]

  -- Does it hold the resource on one side of the change, or one of its owners?
  abbrev pub wants : InterestIndex C → Option (CacheResource Manifest) → String → Bool
  wants x none t = false
  wants x (some res) t =
      if contains (keys_of x t) res.info.resource_key
      then true
      else wants_owner x res.info.resource_key.namespace res.info.owner_refs t

  contains-owners_targets :
      (namespace : String) (refs : List OwnerReference) (x : InterestIndex C) (rs : List String)
      (t : String)
      → Agrees x
      → contains (owners_targets k namespace refs x rs) t
        ≡ (if wants_owner x namespace refs t then true else contains rs t)
  unfolding owners_targets
  contains-owners_targets namespace [] x rs t agrees = refl
  contains-owners_targets namespace (ref ∷ refs) x rs t agrees =
      elim (Result-cases (owner_ref_resource_key k ref namespace)) [
        | inl (e, p) ↦
            rw (p, owners_targets, wants_owner)
              (contains-owners_targets namespace refs x rs t agrees)
        | inr (o, p) ↦
            rw (p, owners_targets, wants_owner)
              (ground (
                arith,
                contains-owners_targets namespace refs x (add_all (targets_of x o) rs) t agrees,
                contains-add_all (targets_of x o) rs t,
                agrees o t,
              ))
      ]

  contains-side_targets :
      (res : Option (CacheResource Manifest)) (x : InterestIndex C) (rs : List String) (t : String)
      → Agrees x
      → contains (side_targets k res x rs) t ≡ (if wants x res t then true else contains rs t)
  unfolding side_targets resource_info
  contains-side_targets none x rs t agrees = refl
  contains-side_targets (some res) x rs t agrees =
      let key = res.info.resource_key in
      ground (
        arith,
        contains-owners_targets key.namespace res.info.owner_refs x (add_all (targets_of x key) rs)
            t agrees,
        contains-add_all (targets_of x key) rs t,
        agrees key t,
      )

  -- If the two maps agree, a change goes to exactly the targets whose own keys hold the resource on
  -- one side of the change or one of its direct owners.
  pub contains-recipients_of :
      (new_res old_res : Option (CacheResource Manifest)) (x : InterestIndex C) (t : String)
      → Agrees x
      → contains (recipients_of k new_res old_res x) t
        ≡ (if wants x old_res t then true else wants x new_res t)
  unfolding recipients_of contains
  contains-recipients_of new_res old_res x t agrees = ground (
    arith,
    contains-side_targets old_res x (side_targets k new_res x []) t agrees,
    contains-side_targets new_res x [] t agrees,
  )
