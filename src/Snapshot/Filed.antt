-- ===== src/Snapshot/Filed.antt =====
-- The loop of `getMonitoredResources` of internal/cluster/shared_cluster.go over the resources that it
-- discovers: what it files as present is desired.
use kubernetes_monitor.Prelude.{
  ◌≡◌, refl, ap, subst, String, true, Option, none, some, List, [], ◌∷◌, string_eq, is_some, ◌>>=◌,
  arith,
}
use kubernetes_monitor.Prelude.Maps.{Map, values, lookup, lookup-insert}
use kubernetes_monitor.Resources.{
  Kubernetes, ResourceKey, DesiredResource, key_eq, new_present_monitored_resource,
  new_child_monitored_resource,
}
use kubernetes_monitor.Snapshot.Connection.{SharedCluster}
use kubernetes_monitor.Snapshot.Scan.{
  Found, DiscoveredResource, record_all, record_child, record_as, record_discovered, file_present,
  file_child,
}
use kubernetes_monitor.Snapshot.Marks.{present_id}
use kubernetes_monitor.Snapshot.Names.{IsFiled, insert-IsFiled, desired_with}

-- What holds of the two maps whenever the loop over the discovered resources goes on.
abbrev pub After : {A : Type 0} → (A → Type 0) → Option A → Type 0
After P none = Unit
After P (some a) = P a

pub After-bind :
    {A B : Type 0} (P : A → Type 0) (Q : B → Type 0) (o : Option A) (f : A → Option B)
    → After P o
    → ((a : A) → P a → After Q (f a))
    → After Q (o >>= f)
After-bind P Q none f h g = tt
After-bind P Q (some a) f h g = g a h

desired_with-values :
    {M : Type 0} (key : ResourceKey) (d : DesiredResource M)
    (desired : Map ResourceKey (DesiredResource M))
    → lookup key desired ≡ some d
    → is_some (desired_with d.id (values desired)) ≡ true
unfolding lookup
desired_with-values key d [] e = cc
desired_with-values key d ((j, d') ∷ desired) e =
    ground (arith, desired_with-values key d desired, string_eq.beq_iff d.id d'.id)

module _ (k : Kubernetes) (cluster_id : String) (c : SharedCluster k.Manifest)
    (desired : Map ResourceKey (DesiredResource k.Manifest)) (salt : String) where
  open k use {Manifest}

  -- What is present is filed under its id, and is desired.
  pub record IsDesired (found : Found Manifest) : Type 0 where
    pub filed : IsFiled present_id found.present
    pub desires :
        (id : String)
        → is_some (lookup id found.present) ≡ true
        → is_some (desired_with id (values desired)) ≡ true

  record_child-IsDesired :
      (d : DiscoveredResource Manifest) (m : Option Manifest) (root : Option String)
      (found : Found Manifest)
      → IsDesired found
      → After IsDesired (record_child k cluster_id salt d m root found)
  unfolding record_child file_child new_child_monitored_resource
  record_child-IsDesired d m none found h = tt
  record_child-IsDesired d m (some root) found h = record { filed = h.filed; desires = h.desires }

  record_as-IsDesired :
      (d : DiscoveredResource Manifest) (m : Option Manifest) (key : ResourceKey)
      (o : Option (DesiredResource Manifest)) (found : Found Manifest)
      → lookup key desired ≡ o
      → IsDesired found
      → After IsDesired (record_as k cluster_id salt d m o found)
  unfolding record_as file_present new_present_monitored_resource
  record_as-IsDesired d m key (some r) found e h = record {
    filed = insert-IsFiled present_id r.id _ found.present refl h.filed;
    desires = λ id p. ground (
      arith,
      h.desires id,
      desired_with-values key r desired e,
      string_eq.beq_iff r.id id,
      subst (λ b. b ≡ true) (ap is_some (lookup-insert r.id id _ found.present)) p,
    );
  }
  record_as-IsDesired d m key none found e h = record_child-IsDesired d m _ found h

  pub record_all-IsDesired :
      (ds : List (DiscoveredResource Manifest)) (found : Found Manifest)
      → IsDesired found
      → After IsDesired (record_all k cluster_id c desired salt ds found)
  unfolding record_all record_discovered
  record_all-IsDesired [] found h = h
  record_all-IsDesired (d ∷ ds) found h =
      After-bind IsDesired IsDesired _ (λ found'. record_all k cluster_id c desired salt ds found')
        (record_as-IsDesired d _ d.resource.info.resource_key _ found refl h)
        (record_all-IsDesired ds)

  pub no_resources-IsDesired : IsDesired (record { present = []; child = [] })
  unfolding lookup
  no_resources-IsDesired = record { filed = tt; desires = λ id p. cc }
