-- ===== src/Snapshot/Names.antt =====
-- Desired and reported resources by their ids, for internal/cluster/shared_cluster.go.
use kubernetes_monitor.Prelude.{
  ◌≡◌, refl, String, Bool, false, Option, none, some, List, [], ◌∷◌, ◌||◌, ◌==◌, string_eq,
  if◌then◌else◌, is_some, any, arith,
}
use kubernetes_monitor.Prelude.Sets
use kubernetes_monitor.Prelude.Sets.{contains, contains-add}
use kubernetes_monitor.Prelude.Maps.{Map, values, lookup, insert}
use kubernetes_monitor.Resources.{
  DesiredResource, PresentMonitoredResource, UnknownMonitoredResource, key_eq,
}
use kubernetes_monitor.Snapshot.Missing.{account_present, account_unknown}

-- Every entry is filed under its own name.
module _ {ℓ} {V : Type ℓ} (name : V → String) where
  abbrev pub IsFiled : Map String V → Type 0
  IsFiled [] = Unit {0}
  IsFiled ((id, v) ∷ m) = (name v ≡ id) × IsFiled m

  pub insert-IsFiled :
      (id : String) (v : V) (m : Map String V) → name v ≡ id → IsFiled m → IsFiled (insert id v m)
  unfolding insert
  insert-IsFiled id v [] e h = (e, tt)
  insert-IsFiled id v ((j, w) ∷ m) e h = ground (arith, insert-IsFiled id v m e h.1, e, h.0, h.1)

  pub any-values :
      (id : String) (m : Map String V)
      → IsFiled m
      → any (λ v. name v == id) (values m) ≡ is_some (lookup id m)
  unfolding lookup
  any-values id [] h = refl
  any-values id ((j, v) ∷ m) h = ground (arith, any-values id m h.1, h.0)

pub contains-account_present :
    {M : Type 0} (id : String) (rs : List (PresentMonitoredResource M)) (accounted : List String)
    → contains (account_present rs accounted) id
      ≡ (contains accounted id || any (λ r. r.desired_resource_id == id) rs)
unfolding account_present
contains-account_present id [] accounted = ground arith
contains-account_present id (r ∷ rs) accounted = ground (
  arith,
  contains-account_present id rs (Sets.add r.desired_resource_id accounted),
  contains-add r.desired_resource_id id accounted,
)

pub contains-account_unknown :
    (id : String) (rs : List UnknownMonitoredResource) (accounted : List String)
    → contains (account_unknown rs accounted) id
      ≡ (contains accounted id || any (λ r. r.desired_resource_id == id) rs)
unfolding account_unknown
contains-account_unknown id [] accounted = ground arith
contains-account_unknown id (r ∷ rs) accounted = ground (
  arith,
  contains-account_unknown id rs (Sets.add r.desired_resource_id accounted),
  contains-add r.desired_resource_id id accounted,
)

module _ {M : Type 0} where
  -- Is some resource of the list both of this id and as `p` says?
  abbrev pub named : (DesiredResource M → Bool) → String → List (DesiredResource M) → Bool
  named p id ds = any (λ d. if d.id == id then p d else false) ds

  -- The first desired resource with this id.
  abbrev pub desired_with : String → List (DesiredResource M) → Option (DesiredResource M)
  desired_with id [] = none
  desired_with id (d ∷ ds) = if d.id == id then some d else desired_with id ds

  -- No two desired resources have the same id.
  abbrev pub Once : List (DesiredResource M) → Type 0
  Once [] = Unit {0}
  Once (d ∷ ds) = (desired_with d.id ds ≡ none) × Once ds

  pub named-none :
      (p : DesiredResource M → Bool) (id : String) (ds : List (DesiredResource M))
      → desired_with id ds ≡ none
      → named p id ds ≡ false
  named-none p id [] e = refl
  named-none p id (d ∷ ds) e = ground (arith, named-none p id ds)

  pub named_of_Once :
      (p : DesiredResource M → Bool) (id : String) (d : DesiredResource M)
      (ds : List (DesiredResource M))
      → Once ds
      → desired_with id ds ≡ some d
      → named p id ds ≡ p d
  named_of_Once p id d [] h e = ground arith
  named_of_Once p id d (c ∷ ds) h e =
      ground
        (arith, named_of_Once p id d ds h.1, named-none p id ds, h.0, string_eq.beq_iff c.id id)

  pub id-desired_with :
      (id : String) (d : DesiredResource M) (ds : List (DesiredResource M))
      → desired_with id ds ≡ some d
      → d.id ≡ id
  id-desired_with id d [] e = cc
  id-desired_with id d (c ∷ ds) e =
      ground (arith, id-desired_with id d ds, string_eq.beq_iff c.id id)
