-- ===== src/Registry.antt =====
-- internal/cluster/cluster_list.go: the targets of the monitor, and the one connection to the cluster
-- that they share. Connections are abstract; whether a call can connect, and whether a new target can
-- subscribe, is what the call meets. The mailbox (mailbox.go) runs the calls one at a time.
pub mod Shared
use kubernetes_monitor.Prelude.{
  String, Bool, true, false, Option, none, some, List, [], ◌∷◌, Result, ok, failed, string_eq,
  joined,
}
use kubernetes_monitor.Prelude.Maps.{Map, lookup, insert}

-- `Cluster`, as far as the registry makes it.
pub record Cluster (S : Type 0) : Type 0 where
  pub cluster_id : String
  pub shared : S

pub record ClusterRegistry (S : Type 0) : Type 0 where
  pub shared : Option S
  pub clusters : Map String (Cluster S)

-- What `connect` returns, and the error of the new target's subscription.
pub record Attempt (S : Type 0) : Type 0 where
  pub id : String
  pub connect : Result String S
  pub subscribe_error : Option String

abbrev pub new_registry : {S : Type 0} → ClusterRegistry S
new_registry = record { shared = none; clusters = [] }

module _ {S : Type 0} where
  -- `newCluster`
  unfoldable pub new_cluster : Option String → String → S → Result String (Cluster S)
  new_cluster (some e) id shared = failed e
  new_cluster none id shared = ok (record { cluster_id = id; shared = shared })

  -- From the connection on.
  unfoldable pub add_cluster :
      String
      → S
      → Result String (Cluster S)
      → ClusterRegistry S
      → ClusterRegistry S × Result String (Cluster S)
  add_cluster id shared (failed e) r = (record r { shared = some shared }, failed e)
  add_cluster id shared (ok cluster) r =
      (record { shared = some shared; clusters = insert id cluster r.clusters }, ok cluster)

  unfoldable pub connected :
      Attempt S → Option S → ClusterRegistry S → ClusterRegistry S × Result String (Cluster S)
  unfolding add_cluster new_cluster
  connected a (some shared) r =
      add_cluster a.id shared (new_cluster a.subscribe_error a.id shared) r
  connected a none r = elim a.connect [
    | failed e ↦ (r, failed e)
    | ok shared ↦ add_cluster a.id shared (new_cluster a.subscribe_error a.id shared) r
  ]

  unfoldable pub ensure :
      Attempt S → ClusterRegistry S → ClusterRegistry S × Result String (Cluster S)
  unfolding connected
  ensure a r = elim (lookup a.id r.clusters) [
    | some cluster ↦ (r, ok cluster)
    | none ↦ connected a r.shared r
  ]

  unfoldable pub ensure_all : List (Attempt S) → ClusterRegistry S → ClusterRegistry S
  unfolding ensure
  ensure_all [] r = r
  ensure_all (a ∷ attempts) r = ensure_all attempts (ensure a r).0

  unfoldable pub get_cluster : String → ClusterRegistry S → Result String (Cluster S)
  get_cluster id r = elim (lookup id r.clusters) [
    | some cluster ↦ ok cluster
    | none ↦ failed (joined ("machine " ∷ id ∷ " does not exist" ∷ []))
  ]
