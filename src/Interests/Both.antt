-- ===== src/Interests/Both.antt =====
-- How each primitive of internal/cluster/resource_interests.go changes who is interested in what.
use kubernetes_monitor.Prelude.{
  ◌≡◌, refl, String, Bool, true, false, not, List, [], ◌∷◌, string_eq, if◌then◌else◌, arith, ◌==◌,
  ◌&&◌, Bool-cases, inl, inr,
}
use kubernetes_monitor.Prelude.Sets
use kubernetes_monitor.Prelude.Sets.{contains, contains-add, contains-remove}
use kubernetes_monitor.Prelude.Maps.{Map, lookup, lookup-insert, lookup-delete}
use kubernetes_monitor.Resources.{ResourceKey, key_eq}
use kubernetes_monitor.Interests.{
  InterestIndex, elements, keys_of, targets_of, add_key_to_target, add_target_to_key, file_targets,
  remove_target_from_key, drop_keys, add_keys, set, remember,
}

interested-file :
    (key j : ResourceKey) (t : String) (ts : List String) (m : Map ResourceKey (List String))
    → contains (elements (lookup j (file_targets key ts m))) t
      ≡ (if key == j then contains ts t else contains (elements (lookup j m)) t)
unfolding file_targets contains
interested-file key j t [] m = ground (arith, lookup-delete key j m)
interested-file key j t (u ∷ ts) m = ground (arith, lookup-insert key j (u ∷ ts) m)

module _ {C : Type 0} where
  -- Both ways round say the same.
  abbrev pub Agrees : InterestIndex C → Type 0
  Agrees x =
      (key : ResourceKey) (target : String)
      → contains (targets_of x key) target ≡ contains (keys_of x target) key

  -- Whether a target is among those of a key.
  abbrev pub interested : InterestIndex C → ResourceKey → String → Bool
  interested x key target = contains (targets_of x key) target

  pub interested-add :
      (key j : ResourceKey) (target t : String) (x : InterestIndex C)
      → interested (add_target_to_key key target x) j t
        ≡ (if key == j && target == t then true else interested x j t)
  unfolding add_target_to_key targets_of
  interested-add key j target t x = ground (
    arith,
    lookup-insert key j (Sets.add target (elements (lookup key x.targets_by_resource)))
        x.targets_by_resource,
    contains-add target t (elements (lookup key x.targets_by_resource)),
    key_eq.beq_iff key j,
  )

  pub interested-remove :
      (key j : ResourceKey) (target t : String) (x : InterestIndex C)
      → interested (remove_target_from_key key target x) j t
        ≡ (if key == j && target == t then false else interested x j t)
  unfolding remove_target_from_key targets_of
  interested-remove key j target t x = ground (
    arith,
    interested-file key j t (Sets.remove target (elements (lookup key x.targets_by_resource)))
        x.targets_by_resource,
    contains-remove target t (elements (lookup key x.targets_by_resource)),
    key_eq.beq_iff key j,
  )

  -- The first loop of `set` takes the target off its old keys that are not among the new.
  pub interested-drop_keys :
      (target t : String) (keys old : List ResourceKey) (j : ResourceKey) (x : InterestIndex C)
      → interested (drop_keys target keys old x) j t ≡ (
          if target == t && (contains old j && not (contains keys j))
          then false
          else interested x j t)
  unfolding drop_keys contains
  interested-drop_keys target t keys [] j x = ground arith
  interested-drop_keys target t keys (key ∷ old) j x = elim (Bool-cases (contains keys key)) [
    | inl e ↦ ground (arith, interested-drop_keys target t keys old j x, key_eq.beq_iff key j)
    | inr e ↦ ground (
      arith,
      interested-drop_keys target t keys old j (remove_target_from_key key target x),
      interested-remove key j target t x,
      key_eq.beq_iff key j,
    )
  ]

  -- The second loop puts it on every new one.
  pub interested-add_keys :
      (target t : String) (keys : List ResourceKey) (j : ResourceKey) (x : InterestIndex C)
      → interested (add_keys target keys x) j t
        ≡ (if target == t && contains keys j then true else interested x j t)
  unfolding add_keys contains
  interested-add_keys target t [] j x = ground arith
  interested-add_keys target t (key ∷ keys) j x = ground (
    arith,
    interested-add_keys target t keys j (add_target_to_key key target x),
    interested-add key j target t x,
  )

  -- Neither loop touches the other map.
  keys-drop_keys :
      (target : String) (keys old : List ResourceKey) (x : InterestIndex C)
      → (drop_keys target keys old x).keys_by_target ≡ x.keys_by_target
  unfolding drop_keys remove_target_from_key
  keys-drop_keys target keys [] x = refl
  keys-drop_keys target keys (key ∷ old) x = elim (Bool-cases (contains keys key)) [
    | inl e ↦ rw (e, drop_keys) (keys-drop_keys target keys old x)
    | inr e ↦
        rw (e, drop_keys) (keys-drop_keys target keys old (remove_target_from_key key target x))
  ]

  keys-add_keys :
      (target : String) (keys : List ResourceKey) (x : InterestIndex C)
      → (add_keys target keys x).keys_by_target ≡ x.keys_by_target
  unfolding add_keys add_target_to_key
  keys-add_keys target [] x = refl
  keys-add_keys target (key ∷ keys) x = keys-add_keys target keys (add_target_to_key key target x)

  -- What `set` leaves in the two maps.
  pub keys_of-set :
      (target t : String) (keys : List ResourceKey) (x : InterestIndex C)
      → keys_of (set target keys x) t ≡ (if target == t then keys else keys_of x t)
  unfolding set keys_of
  keys_of-set target t keys x = ground (
    arith,
    keys-add_keys target keys (drop_keys target keys (keys_of x target) x),
    keys-drop_keys target keys (keys_of x target) x,
    lookup-insert target t keys x.keys_by_target,
  )

  pub interested-set :
      (target t : String) (keys : List ResourceKey) (j : ResourceKey) (x : InterestIndex C)
      → interested (set target keys x) j t ≡ (
          if target == t
          then (if contains keys j
              then true
              else if contains (keys_of x target) j
              then false
              else interested x j t)
          else interested x j t)
  unfolding set targets_of
  interested-set target t keys j x = ground (
    arith,
    interested-add_keys target t keys j (drop_keys target keys (keys_of x target) x),
    interested-drop_keys target t keys (keys_of x target) j x,
  )

  pub contains-keys_of-remember :
      (target t : String) (key j : ResourceKey) (x : InterestIndex C)
      → contains (keys_of (remember target key x) t) j
        ≡ (if target == t && key == j then true else contains (keys_of x t) j)
  unfolding remember add_target_to_key add_key_to_target keys_of
  contains-keys_of-remember target t key j x = ground (
    arith,
    lookup-insert target t (Sets.add key (elements (lookup target x.keys_by_target)))
        x.keys_by_target,
    contains-add key j (elements (lookup target x.keys_by_target)),
    string_eq.beq_iff target t,
  )

  pub interested-remember :
      (target t : String) (key j : ResourceKey) (x : InterestIndex C)
      → interested (remember target key x) j t
        ≡ (if key == j && target == t then true else interested x j t)
  unfolding remember add_key_to_target targets_of
  interested-remember target t key j x =
      interested-add key j target t (add_key_to_target key target x)
