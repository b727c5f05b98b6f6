-- ===== src/Interests/Publish.antt =====
-- The two maps of internal/cluster/resource_interests.go stay each other's inverse, and a target that
-- publishes its interests has exactly those.
use kubernetes_monitor.Prelude.{
  ◌≡◌, refl, String, Bool, true, false, List, [], ◌∷◌, ok, failed, Result-cases, string_eq,
  if◌then◌else◌, arith, ◌==◌, ◌&&◌, ◌⊎◌, inl, inr,
}
use kubernetes_monitor.Prelude.Sets.{contains}
use kubernetes_monitor.Resources.{
  ResourceKey, OwnerReference, key_eq, owner_ref_resource_key, get_owner_references,
}
use kubernetes_monitor.Resources.Libraries.{Kubernetes}
use kubernetes_monitor.Interests.{
  InterestIndex, targets_of, set, remember, remember_all, inherit, inherit_interest_from_owners,
  populate_resource_info, is_resource_in_index,
}
use kubernetes_monitor.Interests.Both.{
  Agrees, interested, keys_of-set, interested-set, contains-keys_of-remember, interested-remember,
}

module _ {C : Type 0} where
  -- If the two maps agree, then after `set` they agree, the target is interested in exactly the keys
  -- that it published, and every other target in what it was interested in before.
  pub set_publishes :
      (target : String) (keys : List ResourceKey) (x : InterestIndex C)
      → Agrees x
      → Agrees (set target keys x)
        × ((j : ResourceKey) (t : String)
            → interested (set target keys x) j t
              ≡ (if target == t then contains keys j else interested x j t))
  set_publishes target keys x agrees = (
    λ j t. ground (
      arith,
      keys_of-set target t keys x,
      interested-set target t keys j x,
      agrees j t,
      string_eq.beq_iff target t,
    ),
    λ j t. ground (arith, interested-set target t keys j x, agrees j t, string_eq.beq_iff target t),
  )

  remember-Agrees :
      (target : String) (key : ResourceKey) (x : InterestIndex C)
      → Agrees x
      → Agrees (remember target key x)
  remember-Agrees target key x agrees j t = ground (
    arith,
    contains-keys_of-remember target t key j x,
    interested-remember target t key j x,
    agrees j t,
  )

  remember_all-Agrees :
      (targets : List String) (key : ResourceKey) (x : InterestIndex C) (inherited : Bool)
      → Agrees x
      → Agrees (remember_all targets key (x, inherited)).0
  unfolding remember_all
  remember_all-Agrees [] key x inherited agrees = agrees
  remember_all-Agrees (t ∷ ts) key x inherited agrees =
      remember_all-Agrees ts key (remember t key x) true (remember-Agrees t key x agrees)

  -- Remembering a list of targets for a key adds those and no others.
  interested-remember_all :
      (targets : List String) (key j : ResourceKey) (t : String) (x : InterestIndex C)
      (inherited : Bool)
      → interested (remember_all targets key (x, inherited)).0 j t
        ≡ (if key == j && contains targets t then true else interested x j t)
  unfolding remember_all contains
  interested-remember_all [] key j t x inherited = ground arith
  interested-remember_all (u ∷ ts) key j t x inherited = ground (
    arith,
    interested-remember_all ts key j t (remember u key x) true,
    interested-remember u t key j x,
  )

module _ (k : Kubernetes) {C : Type 0} where
  open k use {Manifest}

  inherit-Agrees :
      (key : ResourceKey) (refs : List OwnerReference) (x : InterestIndex C) (inherited : Bool)
      → Agrees x
      → Agrees (inherit k key refs (x, inherited)).0
  unfolding inherit
  inherit-Agrees key [] x inherited agrees = agrees
  inherit-Agrees key (ref ∷ refs) x inherited agrees =
      elim (Result-cases (owner_ref_resource_key k ref key.namespace)) [
        | inl (e, p) ↦ rw (p, inherit) (inherit-Agrees key refs x inherited agrees)
        | inr (owner_key, p) ↦
            rw (p, inherit)
              (inherit-Agrees key refs (remember_all (targets_of x owner_key) key (x, inherited)).0
                (remember_all (targets_of x owner_key) key (x, inherited)).1
                (remember_all-Agrees (targets_of x owner_key) key x inherited agrees))
      ]

  -- Is the target interested in one of the owners?
  abbrev pub owner_interests : InterestIndex C → String → List OwnerReference → String → Bool
  owner_interests x namespace [] t = false
  owner_interests x namespace (ref ∷ refs) t =
      let rest = owner_interests x namespace refs t in
      elim (owner_ref_resource_key k ref namespace) [
        | failed e ↦ rest
        | ok owner_key ↦ if interested x owner_key t then true else rest
      ]

  -- Remembering an owner's targets makes no target interested in an owner that was interested in
  -- none of these before.
  owner_interests-remember_all :
      (owner key : ResourceKey) (namespace : String) (refs : List OwnerReference) (t : String)
      (x : InterestIndex C) (inherited : Bool)
      → interested x owner t ≡ false
      → owner_interests (remember_all (targets_of x owner) key (x, inherited)).0 namespace refs t
        ≡ owner_interests x namespace refs t
  owner_interests-remember_all owner key namespace [] t x inherited no_interest = refl
  owner_interests-remember_all owner key namespace (ref ∷ refs) t x inherited no_interest =
      elim (Result-cases (owner_ref_resource_key k ref namespace)) [
        | inl (e, p) ↦
            rw (p, owner_interests)
              (owner_interests-remember_all owner key namespace refs t x inherited no_interest)
        | inr (o, p) ↦
            rw (p, owner_interests)
              (ground (
                arith,
                owner_interests-remember_all owner key namespace refs t x inherited no_interest,
                interested-remember_all (targets_of x owner) key o t x inherited,
              ))
      ]

  interested-inherit :
      (key j : ResourceKey) (refs : List OwnerReference) (t : String) (s : InterestIndex C × Bool)
      → interested (inherit k key refs s).0 j t ≡ (
          if key == j && owner_interests s.0 key.namespace refs t then true else interested s.0 j t)
  unfolding inherit
  interested-inherit key j [] t s = ground arith
  interested-inherit key j (ref ∷ refs) t s =
      elim (Result-cases (owner_ref_resource_key k ref key.namespace)) [
        | inl (e, p) ↦ rw (p, inherit, owner_interests) (interested-inherit key j refs t s)
        | inr (o, p) ↦
            rw (p, inherit, owner_interests)
              (ground (
                arith,
                interested-inherit key j refs t (remember_all (targets_of s.0 o) key (s.0, s.1)),
                interested-remember_all (targets_of s.0 o) key j t s.0 s.1,
                owner_interests-remember_all o key key.namespace refs t s.0 s.1,
              ))
      ]

  -- If the two maps agree, and the index runs: caching a resource that is no root and that nobody was
  -- interested in leaves them in agreement; it becomes of interest to exactly the targets that are
  -- interested in one of its direct owners, and no other resource to anybody new.
  pub populate_inherits :
      (un : Manifest) (x : InterestIndex C)
      → Agrees x
      → is_resource_in_index (k.manifest_key un) x ≡ false
      → let y = (populate_resource_info k false un false x).1 in
        Agrees y
        × ((j : ResourceKey) (t : String)
            → interested y j t ≡ (
                if k.manifest_key un == j
                  && owner_interests x (k.manifest_key un).namespace (get_owner_references k un) t
                then true
                else interested x j t))
  unfolding populate_resource_info inherit_interest_from_owners
  populate_inherits un x agrees unknown =
      let key = k.manifest_key un in
      let refs = get_owner_references k un in
      (
        rw (unknown, populate_resource_info) (inherit-Agrees key refs x false agrees),
        λ j t. rw (unknown, populate_resource_info) (interested-inherit key j refs t (x, false)),
      )

  -- On every other branch the index is left as it was.
  pub populate_keeps :
      (stopped : Bool) (un : Manifest) (is_root : Bool) (x : InterestIndex C)
      → (stopped ≡ true) ⊎ ((is_root ≡ true) ⊎ (is_resource_in_index (k.manifest_key un) x ≡ true))
      → (populate_resource_info k stopped un is_root x).1 ≡ x
  unfolding populate_resource_info
  populate_keeps stopped un is_root x h = ground arith
