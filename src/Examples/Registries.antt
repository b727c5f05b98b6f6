-- ===== src/Examples/Registries.antt =====
-- A run of the registry's theorem: the first connection fails, and two machines arrive afterwards.
use kubernetes_monitor.Prelude.{String, none, List, [], ◌∷◌, ok, failed}
use kubernetes_monitor.Prelude.Maps.{lookup}
use kubernetes_monitor.Registry.{Attempt, new_registry, ensure_all}
use kubernetes_monitor.Registry.Shared.{IsShared, Keeps, ensure_all-IsShared}

abbrev attempts : List (Attempt String)
attempts =
    record { id = "a"; connect = failed "refused"; subscribe_error = none }
    ∷ record { id = "a"; connect = ok "first"; subscribe_error = none }
    ∷ record { id = "b"; connect = ok "second"; subscribe_error = none }
    ∷ []

new_registry-IsShared : IsShared {S = String} new_registry
unfolding lookup
new_registry-IsShared id cluster p = absurd (cc)

ensure_all-IsShared_example :
    IsShared (ensure_all attempts new_registry)
    × Keeps new_registry (ensure_all attempts new_registry)
ensure_all-IsShared_example = ensure_all-IsShared attempts new_registry new_registry-IsShared
