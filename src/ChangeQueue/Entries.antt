-- ===== src/ChangeQueue/Entries.antt =====
-- `order` and `queued` of internal/cluster/resource_changes.go, read together as a list of entries.
use kubernetes_monitor.Prelude.{
  ◌≡◌, refl, true, false, none, some, List, [], ◌∷◌, ◌++◌, if◌then◌else◌, arith, beq_refl,
}
use kubernetes_monitor.Prelude.Sets.{contains, contains-append}
use kubernetes_monitor.Prelude.Maps.{Map, lookup, insert, delete, lookup-insert, lookup-delete}
use kubernetes_monitor.Resources.{ResourceKey, key_eq}
use kubernetes_monitor.ChangeQueue.{ResourceChange, change_at}

abbrev pub Distinct : List ResourceKey → Type 0
Distinct [] = Unit {0}
Distinct (key ∷ rest) = (contains rest key ≡ false) × Distinct rest

pub Distinct-append :
    (order : List ResourceKey) (key : ResourceKey)
    → Distinct order
    → contains order key ≡ false
    → Distinct (order ++ key ∷ [])
unfolding contains
Distinct-append [] key d n = (refl, tt)
Distinct-append (j ∷ order) key d n = (
  ground
      (arith, contains-append order (key ∷ []) j, d.0, key_eq.beq_iff j key, key_eq.beq_iff key j),
  Distinct-append order key d.1 (ground arith),
)

module _ {M : Type 0} where
  -- The queue as the list of its entries, next first.
  abbrev pub entries :
      List ResourceKey → Map ResourceKey (ResourceChange M) → Map ResourceKey (ResourceChange M)
  entries [] queued = []
  entries (key ∷ order) queued = (key, change_at (lookup key queued)) ∷ entries order queued

  pub entries-insert_absent :
      (order : List ResourceKey) (key : ResourceKey) (c : ResourceChange M)
      (queued : Map ResourceKey (ResourceChange M))
      → contains order key ≡ false
      → entries order (insert key c queued) ≡ entries order queued
  unfolding contains
  entries-insert_absent [] key c queued n = refl
  entries-insert_absent (j ∷ order) key c queued n = ground (
    arith,
    entries-insert_absent order key c queued,
    lookup-insert key j c queued,
    key_eq.beq_iff j key,
    key_eq.beq_iff key j,
  )

  pub entries-delete_absent :
      (order : List ResourceKey) (key : ResourceKey) (queued : Map ResourceKey (ResourceChange M))
      → contains order key ≡ false
      → entries order (delete key queued) ≡ entries order queued
  unfolding contains
  entries-delete_absent [] key queued n = refl
  entries-delete_absent (j ∷ order) key queued n = ground (
    arith,
    entries-delete_absent order key queued,
    lookup-delete key j queued,
    key_eq.beq_iff j key,
    key_eq.beq_iff key j,
  )

  -- A change to a queued key stays in its place.
  pub entries-insert :
      (order : List ResourceKey) (key : ResourceKey) (c : ResourceChange M)
      (queued : Map ResourceKey (ResourceChange M))
      → Distinct order
      → contains order key ≡ true
      → entries order (insert key c queued) ≡ insert key c (entries order queued)
  unfolding contains insert
  entries-insert [] key c queued d n = cc
  entries-insert (j ∷ order) key c queued d n = ground (
    arith,
    entries-insert order key c queued d.1,
    entries-insert_absent order key c queued,
    lookup-insert key j c queued,
    key_eq.beq_iff j key,
    key_eq.beq_iff key j,
  )

  -- One to a new key goes to the end.
  pub entries-append :
      (order : List ResourceKey) (key : ResourceKey) (c : ResourceChange M)
      (queued : Map ResourceKey (ResourceChange M))
      → contains order key ≡ false
      → entries (order ++ key ∷ []) (insert key c queued) ≡ insert key c (entries order queued)
  unfolding contains insert
  entries-append [] key c queued n = ground (arith, lookup-insert key key c queued, beq_refl key)
  entries-append (j ∷ order) key c queued n = ground (
    arith,
    entries-append order key c queued,
    lookup-insert key j c queued,
    key_eq.beq_iff j key,
    key_eq.beq_iff key j,
  )

  pub lookup-entries :
      (order : List ResourceKey) (key : ResourceKey) (queued : Map ResourceKey (ResourceChange M))
      → lookup key (entries order queued)
        ≡ (if contains order key then some (change_at (lookup key queued)) else none)
  unfolding contains lookup
  lookup-entries [] key queued = refl
  lookup-entries (j ∷ order) key queued =
      ground (arith, lookup-entries order key queued, key_eq.beq_iff j key)
