-- ===== src/Prelude/Maps.antt =====
-- Go's `map[K]V` as an association list. An insertion replaces in place or appends at the end, so a
-- map built by insertions holds each key once. Go leaves the order of iteration open; here it is
-- that of the list.
use mathlib.Core.Path.{◌≡◌, refl}
use mathlib.Core.Bool.{Bool, false}
use mathlib.Core.List.{List, [], ◌∷◌}
use mathlib.Core.Option.{Option, none, some}
use native.Mathlib.Omega.{arith}
use kubernetes_monitor.Prelude.Tests.{if◌then◌else◌, is_some}
use kubernetes_monitor.Prelude.Equality.{Eq, ◌==◌}
use kubernetes_monitor.Prelude.Sets.{contains}

abbrev pub Map {ℓ κ} : Type ℓ → Type κ → Type (ℓ ⊔ κ)
Map K V = List (K × V)

module _ {ℓ κ} {K : Type ℓ} {V : Type κ} where
  -- `maps.Keys`
  abbrev pub keys : Map K V → List K
  keys [] = []
  keys ((k, v) ∷ m) = k ∷ keys m

  -- `maps.Values`
  abbrev pub values : Map K V → List V
  values [] = []
  values ((k, v) ∷ m) = v ∷ values m

  -- `maps.DeleteFunc(m, p)`
  unfoldable pub delete_func : (K → V → Bool) → Map K V → Map K V
  delete_func p [] = []
  delete_func p ((k, v) ∷ m) = let rest = delete_func p m in if p k v then rest else (k, v) ∷ rest

abbrev pub drop_if {κ} : {V : Type κ} → (V → Bool) → Option V → Option V
drop_if p none = none
drop_if p (some v) = if p v then none else some v

module _ {ℓ κ} {K : Type ℓ} {V : Type κ} ⦃e : Eq K⦄ where
  -- `v, ok := m[k]`
  unfoldable pub lookup : K → Map K V → Option V
  lookup k [] = none
  lookup k ((j, v) ∷ m) = if j == k then some v else lookup k m

  -- `m[k] = v`
  unfoldable pub insert : K → V → Map K V → Map K V
  insert k v [] = (k, v) ∷ []
  insert k v ((j, w) ∷ m) = if j == k then (k, v) ∷ m else (j, w) ∷ insert k v m

  -- `delete(m, k)`
  unfoldable pub delete : K → Map K V → Map K V
  delete k [] = []
  delete k ((j, v) ∷ m) = let rest = delete k m in if j == k then rest else (j, v) ∷ rest

  -- Every key stands once.
  abbrev pub IsMap : Map K V → Type 0
  IsMap [] = Unit {0}
  IsMap ((k, v) ∷ m) = (contains (keys m) k ≡ false) × IsMap m

  pub lookup-insert :
      (key other : K) (value : V) (m : Map K V)
      → lookup other (insert key value m) ≡ (if key == other then some value else lookup other m)
  unfolding insert lookup
  lookup-insert key other value ((i, w) ∷ rest) = ground (
    arith,
    lookup-insert key other value rest,
    e.beq_iff key other,
    e.beq_iff i key,
    e.beq_iff i other,
  )
  lookup-insert key other value [] = refl

  pub lookup-delete :
      (k j : K) (m : Map K V) → lookup j (delete k m) ≡ (if k == j then none else lookup j m)
  unfolding lookup delete
  lookup-delete k j [] = ground arith
  lookup-delete k j ((i, w) ∷ m) =
      ground (arith, lookup-delete k j m, e.beq_iff i k, e.beq_iff i j, e.beq_iff k j)

  pub contains-keys : (k : K) (m : Map K V) → contains (keys m) k ≡ is_some (lookup k m)
  unfolding contains lookup
  contains-keys k [] = refl
  contains-keys k ((j, v) ∷ m) = ground (arith, contains-keys k m)

  pub insert-IsMap : (k : K) (v : V) (m : Map K V) → IsMap m → IsMap (insert k v m)
  unfolding insert contains
  insert-IsMap k v [] h = (refl, tt)
  insert-IsMap k v ((j, w) ∷ m) h = ground (
    arith,
    insert-IsMap k v m h.1,
    e.beq_iff j k,
    e.beq_iff k j,
    contains-keys j (insert k v m),
    contains-keys j m,
    lookup-insert k j v m,
  )

  pub delete-IsMap : (k : K) (m : Map K V) → IsMap m → IsMap (delete k m)
  unfolding delete
  delete-IsMap k [] h = tt
  delete-IsMap k ((j, w) ∷ m) h = ground (
    arith,
    delete-IsMap k m h.1,
    contains-keys j (delete k m),
    contains-keys j m,
    lookup-delete k j m,
  )

  absent_delete_func :
      (p : K → V → Bool) (k : K) (m : Map K V)
      → lookup k m ≡ none
      → lookup k (delete_func p m) ≡ none
  unfolding lookup delete_func
  absent_delete_func p k [] h = refl
  absent_delete_func p k ((j, v) ∷ m) h = ground (arith, absent_delete_func p k m)

  -- In a map whose keys stand once, a deletion by test drops exactly the entries that pass it.
  pub lookup-delete_func :
      (p : K → V → Bool) (k : K) (m : Map K V)
      → IsMap m
      → lookup k (delete_func p m) ≡ drop_if (p k) (lookup k m)
  unfolding lookup delete_func
  lookup-delete_func p k [] h = refl
  lookup-delete_func p k ((j, v) ∷ m) h = ground (
    arith,
    lookup-delete_func p k m h.1,
    absent_delete_func p k m,
    contains-keys k m,
    e.beq_iff j k,
  )

  pub delete_func-IsMap : (p : K → V → Bool) (m : Map K V) → IsMap m → IsMap (delete_func p m)
  unfolding delete_func
  delete_func-IsMap p [] h = tt
  delete_func-IsMap p ((j, v) ∷ m) h = ground (
    arith,
    delete_func-IsMap p m h.1,
    contains-keys j (delete_func p m),
    contains-keys j m,
    absent_delete_func p j m,
  )

  -- Two maps that a client cannot tell apart by looking up keys.
  abbrev pub Same : Map K V → Map K V → Type (ℓ ⊔ κ)
  Same m n = (k : K) → lookup k m ≡ lookup k n

pub ruleset map_laws = (lookup-insert, lookup-delete)
