-- ===== src/Instance/Returns.antt =====
-- When `getRootParentResource` of internal/cluster/cluster.go returns: the children that are recorded
-- parents first never make it recurse without end.
use kubernetes_monitor.Prelude.{
  ◌≡◌, refl, sym, subst, String, Bool, true, false, none, some, List, [], ◌∷◌, ◌++◌, any, ◌==◌,
  string_eq, if◌then◌else◌, arith, Bool-cases, inl, inr, beq_refl, eq_of_beq,
}
use kubernetes_monitor.Prelude.Maps.{Map, values, lookup, insert}
use kubernetes_monitor.Resources.{ResourceKey, key_eq, ChildMonitoredResource}
use kubernetes_monitor.Instance.Owners.{owner_of, get_root_parent_resource}
use kubernetes_monitor.Instance.Roots.{Climbs, top, up, get_root_parent_resource_iff}

pub values-insert_absent :
    {V : Type 0} (key : ResourceKey) (v : V) (m : Map ResourceKey V)
    → lookup key m ≡ none
    → values (insert key v m) ≡ values m ++ v ∷ []
unfolding lookup insert
values-insert_absent key v [] h = refl
values-insert_absent key v ((j, w) ∷ m) h = ground (arith, values-insert_absent key v m)

module _ {M : Type 0} where
  -- Does one of the children have this owner?
  abbrev pub owns : String → List (ChildMonitoredResource M) → Bool
  owns id cs = any (λ c. c.owner_id == id) cs

  owns_of_owner :
      (id owner : String) (cs : List (ChildMonitoredResource M))
      → owner_of id cs ≡ some owner
      → owns owner cs ≡ true
  unfolding owner_of
  owns_of_owner id owner [] e = cc
  owns_of_owner id owner (c ∷ cs) e =
      ground (arith, owns_of_owner id owner cs, string_eq.beq_iff c.owner_id owner)

  -- A root that one has to climb to is the owner of a child.
  owns_of_climb :
      (cs : List (ChildMonitoredResource M)) (root id : String)
      → Climbs cs root id
      → (root == id) ≡ false
      → owns root cs ≡ true
  owns_of_climb cs root id (top e) n = absurd (ground (arith, beq_refl root))
  owns_of_climb cs root id (up owner e c) n = elim (Bool-cases (root == owner)) [
    | inl p ↦ ground (arith, owns_of_owner id owner cs e, eq_of_beq root owner p)
    | inr p ↦ owns_of_climb cs root owner c p
  ]

  unowned_root :
      (cs : List (ChildMonitoredResource M)) (root id : String)
      → Climbs cs root id
      → owner_of root cs ≡ none
  unowned_root cs root id (top e) = e
  unowned_root cs root id (up owner e c) = unowned_root cs root owner c

  owner_of-append_some :
      (id owner : String) (cs : List (ChildMonitoredResource M)) (c : ChildMonitoredResource M)
      → owner_of id cs ≡ some owner
      → owner_of id (cs ++ c ∷ []) ≡ some owner
  unfolding owner_of
  owner_of-append_some id owner [] c e = cc
  owner_of-append_some id owner (d ∷ cs) c e = ground (arith, owner_of-append_some id owner cs c)

  owner_of-append_none :
      (id : String) (cs : List (ChildMonitoredResource M)) (c : ChildMonitoredResource M)
      → owner_of id cs ≡ none
      → owner_of id (cs ++ c ∷ []) ≡ (if id == c.resource_id then some c.owner_id else none)
  unfolding owner_of
  owner_of-append_none id [] c e = ground arith
  owner_of-append_none id (d ∷ cs) c e = ground (arith, owner_of-append_none id cs c)

  -- A climb that does not end at the new child stays one, and one that does goes on from there.
  climb_on :
      (cs : List (ChildMonitoredResource M)) (c : ChildMonitoredResource M) (root end id : String)
      → Climbs cs root id
      → Climbs (cs ++ c ∷ []) end root
      → Climbs (cs ++ c ∷ []) end id
  climb_on cs c root end id (top e) further = further
  climb_on cs c root end id (up owner e climb) further =
      up owner (owner_of-append_some id owner cs c e) (climb_on cs c root end owner climb further)

  climb_kept :
      (cs : List (ChildMonitoredResource M)) (c : ChildMonitoredResource M) (root id : String)
      → Climbs cs root id
      → (root == c.resource_id) ≡ false
      → Climbs (cs ++ c ∷ []) root id
  climb_kept cs c root id climb n =
      climb_on cs c root root id climb
        (top (ground (arith, owner_of-append_none root cs c (unowned_root cs root id climb))))

  -- From every id the search comes to a root.
  abbrev Ends : List (ChildMonitoredResource M) → Type 0
  Ends cs = (id : String) → (root : String) × Climbs cs root id

  append-Ends :
      (cs : List (ChildMonitoredResource M)) (c : ChildMonitoredResource M)
      → (c.owner_id == c.resource_id) ≡ false
      → owns c.resource_id cs ≡ false
      → Ends cs
      → Ends (cs ++ c ∷ [])
  append-Ends cs c own_owner unowned ends id =
      let (root, climb) = ends id in
      let (end, further) = ends c.owner_id in
      let apart : (end == c.resource_id) ≡ false = elim (Bool-cases (end == c.owner_id)) [
        | inl p ↦ ground (arith, eq_of_beq end c.owner_id p)
        | inr p ↦
            ground (
              arith,
              owns_of_climb cs end c.owner_id further p,
              string_eq.beq_iff end c.resource_id,
            )
      ] in
      elim (Bool-cases (root == c.resource_id)) [
        | inl p ↦ (
          end,
          climb_on cs c root end id climb (
              up c.owner_id
                (ground (arith, owner_of-append_none root cs c (unowned_root cs root id climb)))
                (climb_kept cs c end c.owner_id further apart)),
        )
        | inr p ↦ (root, climb_kept cs c root id climb p)
      ]

  -- The search returns, whatever it is asked for.
  abbrev pub Returns : Map ResourceKey (ChildMonitoredResource M) → Type 0
  Returns children =
      (id : String) → (root : String) × (get_root_parent_resource id children ≡ some root)

  -- The search for the root owner returns among no children; and if it returns among some, it still
  -- does once a child is recorded under a new key that does not own itself and that none of them has
  -- as its owner, as when parents are recorded before their children.
  pub insert-Returns :
      (key : ResourceKey) (c : ChildMonitoredResource M)
      (children : Map ResourceKey (ChildMonitoredResource M))
      → Returns children
      → lookup key children ≡ none
      → (c.owner_id == c.resource_id) ≡ false
      → owns c.resource_id (values children) ≡ false
      → Returns (insert key c children)
  insert-Returns key c children returns absent own_owner unowned id =
      let ends : Ends (values children) = λ i.
        let (root, found) = returns i in
        (root, (get_root_parent_resource_iff i root children).0 found) in
      let (root, climb) = append-Ends (values children) c own_owner unowned ends id in
      (
        root,
        (get_root_parent_resource_iff id root (insert key c children)).1 (
            subst (λ cs. Climbs cs root id) (sym (values-insert_absent key c children absent))
              climb),
      )
