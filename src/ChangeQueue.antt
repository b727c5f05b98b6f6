-- ===== src/ChangeQueue.antt =====
-- internal/cluster/resource_changes.go: the queue between the cluster cache and one target. Its
-- goroutine selects between the context's end, a change that comes in, and, unless the queue is
-- empty, handing out the next one; the model is a relation over the queue's two variables.
pub mod Entries
pub mod Order
pub mod Folding
use kubernetes_monitor.Prelude.{
  ◌≡◌, String, Bool, true, false, Option, none, some, List, [], ◌∷◌, ◌++◌, ◌>>=◌,
}
use kubernetes_monitor.Prelude.Maps.{Map, lookup, insert, delete}
use kubernetes_monitor.Resources.{ResourceKey, key_eq, CacheResource}
use kubernetes_monitor.Resources.Libraries.{Kubernetes}

pub record ResourceChange (M : Type 0) : Type 0 where
  pub new_res : Option (CacheResource M)
  pub old_res : Option (CacheResource M)

-- `order` and `queued` of `run`.
pub record ChangeQueue (M : Type 0) : Type 0 where
  pub order : List ResourceKey
  pub queued : Map ResourceKey (ResourceChange M)

abbrev pub empty_queue : {M : Type 0} → ChangeQueue M
empty_queue = record { order = []; queued = [] }

-- Go's zero value of a change.
abbrev pub no_resource : {M : Type 0} → ResourceChange M
no_resource = record { new_res = none; old_res = none }

-- `queued[key]`
abbrev pub change_at : {M : Type 0} → Option (ResourceChange M) → ResourceChange M
change_at none = no_resource
change_at (some change) = change

module _ {M : Type 0} where
  -- The change that the `select` offers to hand out; none while the queue is empty.
  unfoldable pub next : ChangeQueue M → Option (ResourceChange M)
  next q = elim q.order [ [] ↦ none | key ∷ rest ↦ some (change_at (lookup key q.queued)) ]

  -- The body of `case out <- next`.
  unfoldable pub sent : ChangeQueue M → ChangeQueue M
  sent q = elim q.order [
    | [] ↦ q
    | key ∷ rest ↦ record { order = rest; queued = delete key q.queued }
  ]

  -- The body of `case change := <-q.in`, once the change's key is known.
  unfoldable pub file_change : ResourceKey → ResourceChange M → ChangeQueue M → ChangeQueue M
  file_change key change q = elim (lookup key q.queued) [
    | some existing ↦ record q {
      queued = insert key (record existing { new_res = change.new_res }) q.queued;
    }
    | none ↦ record { queued = insert key change q.queued; order = q.order ++ key ∷ [] }
  ]

module _ (k : Kubernetes) where
  open k use {Manifest, cached_key}

  -- A change with neither side has no key: Go would dereference nil.
  unfoldable pub key : ResourceChange Manifest → Option ResourceKey
  key c = elim c.new_res [
    | some res ↦ some (cached_key res.ref)
    | none ↦ elim c.old_res [ some res ↦ some (cached_key res.ref) | none ↦ none ]
  ]

  -- The runs of the loop, with the changes that came in and the changes handed out so far, each
  -- newest first and beside the key of its resource.
  pub data Run
      : Map ResourceKey (ResourceChange Manifest)
        → Map ResourceKey (ResourceChange Manifest)
        → ChangeQueue Manifest
        → Type 0 where
    starts : Run [] [] empty_queue
    receives :
        {ins outs : Map ResourceKey (ResourceChange Manifest)} {q : ChangeQueue Manifest}
        (key_of_change : ResourceKey) (change : ResourceChange Manifest)
        → Run ins outs q
        → key change ≡ some key_of_change
        → Run ((key_of_change, change) ∷ ins) outs (file_change key_of_change change q)
    sends :
        {ins outs : Map ResourceKey (ResourceChange Manifest)} {q : ChangeQueue Manifest}
        (first : ResourceKey) (rest : List ResourceKey) (change : ResourceChange Manifest)
        → Run ins outs q
        → q.order ≡ first ∷ rest
        → next q ≡ some change
        → Run ins ((first, change) ∷ outs) (sent q)
