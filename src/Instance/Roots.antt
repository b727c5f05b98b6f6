-- ===== src/Instance/Roots.antt =====
-- The recursion of `getRootParentResource` (internal/cluster/cluster.go) against the relation of
-- being an owner: the fuel is enough whenever Go's call returns, and a child that owns itself makes
-- it run for ever.
use kubernetes_monitor.Prelude.{
  ℕ, zero, suc, ◌≤◌, ◌<◌, ◌≡◌, refl, sym, ap, subst, ◌∙◌, ◌↔◌, inl, inr, String, false, none, some,
  List, [], ◌∷◌, length, ◌==◌, string_eq, if◌then◌else◌, arith, Option-cases, Bool-cases,
}
use mathlib.Core.Option.{some-injective}
use kubernetes_monitor.Prelude.Maps.{Map, values}
use kubernetes_monitor.Resources.{ResourceKey, ChildMonitoredResource}
use kubernetes_monitor.Instance.Owners.{owner_of, climb, get_root_parent_resource}

-- From `id` one comes by owners to `root`, which no child has as its id.
pub data Climbs {M : Type 0} (cs : List (ChildMonitoredResource M)) (root : String)
    : String → Type 0 where
  top : owner_of root cs ≡ none → Climbs cs root root
  up :
      {id : String} (owner : String)
      → owner_of id cs ≡ some owner
      → Climbs cs root owner
      → Climbs cs root id

module _ {M : Type 0} where
  -- The same in exactly so many steps.
  abbrev Steps : List (ChildMonitoredResource M) → ℕ → String → String → Type 0
  Steps cs zero id root = (owner_of id cs ≡ none) × (id ≡ root)
  Steps cs (suc n) id root =
      (owner : String) × (owner_of id cs ≡ some owner) × Steps cs n owner root

  Steps-Climbs :
      (cs : List (ChildMonitoredResource M)) (n : ℕ) (id root : String)
      → Steps cs n id root
      → Climbs cs root id
  Steps-Climbs cs zero id root (e, p) = subst (Climbs cs root) (sym p) (top (rw p at e))
  Steps-Climbs cs (suc n) id root (owner, e, s) = up owner e (Steps-Climbs cs n owner root s)

  Climbs-Steps :
      (cs : List (ChildMonitoredResource M)) (root : String) {id : String}
      → Climbs cs root id
      → (n : ℕ) × Steps cs n id root
  Climbs-Steps cs root (top e) = (0, (e, refl))
  Climbs-Steps cs root (up owner e c) =
      let (n, s) = Climbs-Steps cs root c in (suc n, (owner, e, s))

  -- A chain has one length.
  Steps-unique :
      (cs : List (ChildMonitoredResource M)) (n m : ℕ) (id root root' : String)
      → Steps cs n id root
      → Steps cs m id root'
      → n ≡ m
  Steps-unique cs zero zero id root root' s t = refl
  Steps-unique cs zero (suc m) id root root' s t = absurd (cc (s.0, t.1))
  Steps-unique cs (suc n) zero id root root' s t = absurd (cc (s.1, t.0))
  Steps-unique cs (suc n) (suc m) id root root' (o, e, s) (p, f, t) = omega (
    arith,
    Steps-unique cs n m o root root' s
        (subst (λ x. Steps cs m x root') (some-injective _ _ (sym f ∙ e)) t),
  )

  -- The children with another id.
  without : String → List (ChildMonitoredResource M) → List (ChildMonitoredResource M)
  without id [] = []
  without id (c ∷ cs) = let rest = without id cs in if id == c.resource_id then rest else c ∷ rest

  length-without-le :
      (id : String) (cs : List (ChildMonitoredResource M)) → length (without id cs) ≤ length cs
  unfolding without
  length-without-le id [] = omega arith
  length-without-le id (c ∷ cs) = ground (arith, length-without-le id cs)

  length-without-lt :
      (id owner : String) (cs : List (ChildMonitoredResource M))
      → owner_of id cs ≡ some owner
      → length (without id cs) < length cs
  unfolding without owner_of
  length-without-lt id owner [] e = absurd (ground arith)
  length-without-lt id owner (c ∷ cs) e =
      ground (arith, length-without-le id cs, length-without-lt id owner cs)

  owner_of-without :
      (id j : String) (cs : List (ChildMonitoredResource M))
      → (id == j) ≡ false
      → owner_of j (without id cs) ≡ owner_of j cs
  unfolding without owner_of
  owner_of-without id j [] n = refl
  owner_of-without id j (c ∷ cs) n = ground (
    arith,
    owner_of-without id j cs n,
    string_eq.beq_iff id j,
    string_eq.beq_iff id c.resource_id,
    string_eq.beq_iff j c.resource_id,
  )

  owner_of-without-none :
      (id j : String) (cs : List (ChildMonitoredResource M))
      → owner_of j cs ≡ none
      → owner_of j (without id cs) ≡ none
  unfolding without owner_of
  owner_of-without-none id j [] n = refl
  owner_of-without-none id j (c ∷ cs) n = ground (arith, owner_of-without-none id j cs)

  -- A chain never comes back to where it started.
  Steps-without :
      (cs : List (ChildMonitoredResource M)) (start : String) (m n : ℕ) (id root root' : String)
      → Steps cs m start root'
      → n < m
      → Steps cs n id root
      → Steps (without start cs) n id root
  Steps-without cs start m zero id root root' t h s = (owner_of-without-none start id cs s.0, s.1)
  Steps-without cs start m (suc n) id root root' t h (owner, e, s) =
      elim (Bool-cases (start == id)) [
        | inl same ↦
            let again : Steps cs (suc n) start root =
              subst (λ x. Steps cs (suc n) x root) (sym ((string_eq.beq_iff start id).0 same))
                (owner, e, s) in
            absurd (omega (arith, Steps-unique cs (suc n) m start root root' again t))
        | inr other ↦ (
          owner,
          owner_of-without start id cs other ∙ e,
          Steps-without cs start m n owner root root' t (omega arith) s,
        )
      ]

  -- So it takes at most one step for each child.
  Steps-le-length :
      (cs : List (ChildMonitoredResource M)) (n : ℕ) (id root : String)
      → Steps cs n id root
      → n ≤ length cs
  Steps-le-length cs zero id root s = omega arith
  Steps-le-length cs (suc n) id root (owner, e, s) =
      let t : Steps cs (suc n) id root = (owner, e, s) in
      omega (
        arith,
        Steps-le-length (without id cs) n owner root
            (Steps-without cs id (suc n) n owner root root t (omega arith) s),
        length-without-lt id owner cs e,
      )

  Steps-climb :
      (cs : List (ChildMonitoredResource M)) (n fuel : ℕ) (id root : String)
      → n < fuel
      → Steps cs n id root
      → climb fuel id cs ≡ some root
  unfolding climb
  Steps-climb cs n zero id root h s = absurd (omega arith)
  Steps-climb cs zero (suc fuel) id root h (e, p) = rw (e, climb) (ap some p)
  Steps-climb cs (suc n) (suc fuel) id root h (owner, e, s) =
      rw (e, climb) (Steps-climb cs n fuel owner root (omega arith) s)

  climb-Climbs :
      (cs : List (ChildMonitoredResource M)) (fuel : ℕ) (id root : String)
      → climb fuel id cs ≡ some root
      → Climbs cs root id
  unfolding climb
  climb-Climbs cs zero id root h = cc
  climb-Climbs cs (suc fuel) id root h = elim (Option-cases (owner_of id cs)) [
    | inl e ↦ Steps-Climbs cs 0 id root (e, ground arith)
    | inr (owner, e) ↦ up owner e (climb-Climbs cs fuel owner root (ground arith))
  ]

  -- The search for the root owner returns a root exactly when one comes to it by following owners:
  -- its fuel is enough whenever the chain of owners ends.
  pub get_root_parent_resource_iff :
      (id root : String) (children : Map ResourceKey (ChildMonitoredResource M))
      → (get_root_parent_resource id children ≡ some root) ↔ Climbs (values children) root id
  unfolding get_root_parent_resource
  get_root_parent_resource_iff id root children = (
    climb-Climbs (values children) (suc (length (values children))) id root,
    λ c.
        let (n, s) = Climbs-Steps (values children) root c in
        Steps-climb (values children) n (suc (length (values children))) id root
          (omega (arith, Steps-le-length (values children) n id root s)) s,
  )

  climb_self :
      (cs : List (ChildMonitoredResource M)) (fuel : ℕ) (id : String)
      → owner_of id cs ≡ some id
      → climb fuel id cs ≡ none
  unfolding climb
  climb_self cs zero id e = refl
  climb_self cs (suc fuel) id e = rw (e, climb) (climb_self cs fuel id e)

  -- A child that is its own owner has no root.
  pub get_root_parent_resource_self :
      (id : String) (children : Map ResourceKey (ChildMonitoredResource M))
      → owner_of id (values children) ≡ some id
      → get_root_parent_resource id children ≡ none
  unfolding get_root_parent_resource
  get_root_parent_resource_self id children e =
      climb_self (values children) (suc (length (values children))) id e
