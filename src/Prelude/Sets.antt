-- ===== src/Prelude/Sets.antt =====
-- Go's `map[K]struct{}` and the slices that the program searches with `slices.Contains`: lists of
-- keys, read through `contains`. Go leaves the order of iteration open; here it is that of the
-- list, and theorems are stated so that the order does not matter.
use mathlib.Core.Path.{◌≡◌, refl}
use mathlib.Core.Bool.{Bool, true, false}
use mathlib.Core.List.{List, [], ◌∷◌, ◌++◌}
use native.Mathlib.Omega.{arith}
use kubernetes_monitor.Prelude.Tests.{if◌then◌else◌}
use kubernetes_monitor.Prelude.Equality.{Eq, ◌==◌}

module _ {ℓ} {A : Type ℓ} ⦃e : Eq A⦄ where
  -- `slices.Contains(xs, a)`, `_, ok := s[a]`
  unfoldable pub contains : List A → A → Bool
  contains [] a = false
  contains (x ∷ xs) a = if x == a then true else contains xs a

  -- `s[a] = struct{}{}`
  unfoldable pub add : A → List A → List A
  unfolding contains
  add a xs = if contains xs a then xs else xs ++ a ∷ []

  -- `delete(s, a)`
  unfoldable pub remove : A → List A → List A
  remove a [] = []
  remove a (x ∷ xs) = let rest = remove a xs in if x == a then rest else x ∷ rest

  pub contains-append :
      (xs ys : List A) (a : A)
      → contains (xs ++ ys) a ≡ (if contains xs a then true else contains ys a)
  unfolding contains
  contains-append [] ys a = refl
  contains-append (x ∷ xs) ys a = ground (arith, contains-append xs ys a)

  pub contains-add :
      (a b : A) (xs : List A) → contains (add a xs) b ≡ (if a == b then true else contains xs b)
  unfolding add contains
  contains-add a b xs = ground (arith, contains-append xs (a ∷ []) b, e.beq_iff a b)

  pub contains-remove :
      (a b : A) (xs : List A) → contains (remove a xs) b ≡ (if a == b then false else contains xs b)
  unfolding remove contains
  contains-remove a b [] = ground arith
  contains-remove a b (x ∷ xs) =
      ground (arith, contains-remove a b xs, e.beq_iff x a, e.beq_iff x b, e.beq_iff a b)

pub ruleset set_laws = (contains-append, contains-add, contains-remove)
