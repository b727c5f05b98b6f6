-- ===== src/Permissions.antt =====
-- internal/cluster/permission_filter.go: which types of resources the monitor may get, list and watch.
-- Discovery and the review of the account's rules are parameters. The lock around the set is left
-- out: it is replaced as a whole.
pub mod Allowed
use Prim.Native.String.{len, slice}
use text.Mathlib.Text.{find?}
use kubernetes_monitor.Prelude.{
  ℕ, suc, String, Bool, true, false, not, Option, none, some, List, [], ◌∷◌, Result, ok, failed,
  string_eq, if◌then◌else◌, ◌&&◌, is_some, ◌+◌,
}
use kubernetes_monitor.Prelude.Sets
use kubernetes_monitor.Prelude.Sets.{contains}
use kubernetes_monitor.Resources.Libraries.{GroupKind, group_kind_eq}
use kubernetes_monitor.Snapshot.Connection.{ApiResource, ApiResourceList}

-- `authorizationv1.ResourceRule`
pub record ResourceRule : Type 0 where
  pub verbs : List String
  pub api_groups : List String
  pub resources : List String
  pub resource_names : List String

abbrev pub required_verbs : List String
required_verbs = "get" ∷ "list" ∷ "watch" ∷ []

unfoldable pub parse_group_version : String → String × String
parse_group_version gv = elim (find? gv "/") [
  | none ↦ ("", gv)
  | some i ↦ (slice gv 0 i, slice gv (i + 1) (len gv))
]

-- `len(rule.ResourceNames) > 0`
unfoldable pub name_restricted : ResourceRule → Bool
name_restricted rule = elim rule.resource_names [ [] ↦ false | name ∷ names ↦ true ]

unfoldable pub rules_permit_verb : List ResourceRule → String → String → String → Bool
unfolding name_restricted
rules_permit_verb [] group resource verb = false
rules_permit_verb (rule ∷ rules) group resource verb =
    let rest = rules_permit_verb rules group resource verb in
    if name_restricted rule
    then rest
    else if not (contains rule.verbs verb) && not (contains rule.verbs "*")
    then rest
    else if not (contains rule.api_groups group) && not (contains rule.api_groups "*")
    then rest
    else if not (contains rule.resources resource) && not (contains rule.resources "*")
    then rest
    else true

unfoldable pub rules_permit_all_verbs : List ResourceRule → String → String → List String → Bool
unfolding rules_permit_verb
rules_permit_all_verbs rules group resource [] = true
rules_permit_all_verbs rules group resource (verb ∷ verbs) =
    let rest = rules_permit_all_verbs rules group resource verbs in
    if not (rules_permit_verb rules group resource verb) then false else rest

-- The two loops of `buildAllowedResourcesMap`, and the inner one's step.
unfoldable pub allow_one :
    List ResourceRule → String → ApiResource → List GroupKind → List GroupKind
allow_one rules group res allowed =
    if rules_permit_all_verbs rules group res.name required_verbs
    then Sets.add (record { group = group; kind = res.kind }) allowed
    else allowed

unfoldable pub allow_resources :
    List ResourceRule → String → List ApiResource → List GroupKind → List GroupKind
unfolding allow_one
allow_resources rules group [] allowed = allowed
allow_resources rules group (res ∷ resources) allowed =
    allow_resources rules group resources (allow_one rules group res allowed)

unfoldable pub allow_lists :
    List ResourceRule → List ApiResourceList → List GroupKind → List GroupKind
unfolding allow_resources parse_group_version
allow_lists rules [] allowed = allowed
allow_lists rules (list ∷ lists) allowed =
    allow_lists rules lists
      (allow_resources rules (parse_group_version list.group_version).0 list.api_resources allowed)

unfoldable pub build_allowed_resources_map :
    Result String (List ApiResourceList)
    → Result String (List ResourceRule)
    → Result String (List GroupKind)
unfolding allow_lists
build_allowed_resources_map (failed e) rules = failed e
build_allowed_resources_map (ok lists) (failed e) = failed e
build_allowed_resources_map (ok lists) (ok rules) = ok (allow_lists rules lists [])

-- One tick of the refresh loop: a failure keeps the set.
unfoldable pub refresh :
    Result String (List ApiResourceList)
    → Result String (List ResourceRule)
    → List GroupKind
    → List GroupKind
unfolding build_allowed_resources_map
refresh lists rules allowed = elim (build_allowed_resources_map lists rules) [
  | failed e ↦ allowed
  | ok allowed' ↦ allowed'
]

-- The loop, over what its ticks meet.
unfoldable pub refresh_loop :
    List (Result String (List ApiResourceList) × Result String (List ResourceRule))
    → List GroupKind
    → List GroupKind
unfolding refresh
refresh_loop [] allowed = allowed
refresh_loop ((lists, rules) ∷ ticks) allowed = refresh_loop ticks (refresh lists rules allowed)

unfoldable pub is_excluded_resource : List GroupKind → String → String → Bool
is_excluded_resource allowed group kind =
    not (contains allowed (record { group = group; kind = kind }))
