-- ===== src/Permissions/Allowed.antt =====
-- Which types internal/cluster/permission_filter.go lets through.
use kubernetes_monitor.Prelude.{
  ◌≡◌, refl, ap, sym, ◌∙◌, String, Bool, false, not, List, [], ◌∷◌, Result, ok, failed, string_eq,
  if◌then◌else◌, ◌&&◌, ◌||◌, any, all, arith, ◌==◌, ◌++◌, All,
}
use kubernetes_monitor.Prelude.Sets.{contains, contains-add}
use kubernetes_monitor.Resources.Libraries.{GroupKind, group_kind_eq}
use kubernetes_monitor.Snapshot.Connection.{ApiResource, ApiResourceList}
use kubernetes_monitor.Permissions.{
  ResourceRule, required_verbs, parse_group_version, name_restricted, rules_permit_verb,
  rules_permit_all_verbs, allow_one, allow_resources, allow_lists, build_allowed_resources_map,
  refresh, refresh_loop, is_excluded_resource,
}

or_assoc : (a b c : Bool) → ((a || b) || c) ≡ (a || (b || c))
or_assoc a b c = ground arith

-- What one tick of the loop meets: the answers of discovery and of the review.
abbrev pub Tick : Type 0
Tick = Result String (List ApiResourceList) × Result String (List ResourceRule)

-- Discovery fails, or the review does, whatever the other one answers.
abbrev pub Fails : Tick → Type 0
Fails (failed e, review) = Unit
Fails (ok lists, failed e) = Unit
Fails (ok lists, ok rules) = ⊥

refresh-Fails :
    (tick : Tick) (allowed : List GroupKind) → Fails tick → refresh tick.0 tick.1 allowed ≡ allowed
unfolding refresh build_allowed_resources_map
refresh-Fails (failed e, review) allowed h = refl
refresh-Fails (ok lists, failed e) allowed h = refl
refresh-Fails (ok lists, ok rules) allowed h = absurd h

refresh_loop-Fails :
    (ticks : List Tick) (allowed : List GroupKind)
    → All Fails ticks
    → refresh_loop ticks allowed ≡ allowed
unfolding refresh_loop
refresh_loop-Fails [] allowed h = refl
refresh_loop-Fails ((lists, rules) ∷ ticks) allowed h =
    ap (refresh_loop ticks) (refresh-Fails (lists, rules) allowed h.0)
    ∙ refresh_loop-Fails ticks allowed h.1

refresh_loop-append :
    (before ticks : List Tick) (allowed : List GroupKind)
    → refresh_loop (before ++ ticks) allowed ≡ refresh_loop ticks (refresh_loop before allowed)
unfolding refresh_loop
refresh_loop-append [] ticks allowed = refl
refresh_loop-append ((lists, rules) ∷ before) ticks allowed =
    refresh_loop-append before ticks (refresh lists rules allowed)

-- A list of names that holds the name or the wildcard.
abbrev pub covers : List String → String → Bool
covers names name = contains names name || contains names "*"

-- The rule grants the verb on every object of the type.
abbrev pub grants : String → String → String → ResourceRule → Bool
grants group resource verb rule =
    not (name_restricted rule)
    && (covers rule.verbs verb && (covers rule.api_groups group && covers rule.resources resource))

-- Some rule for each verb.
abbrev pub granted : List ResourceRule → String → String → Bool
granted rules group resource = all (λ verb. any (grants group resource verb) rules) required_verbs

rules_permit_verb-any :
    (rules : List ResourceRule) (group resource verb : String)
    → rules_permit_verb rules group resource verb ≡ any (grants group resource verb) rules
unfolding rules_permit_verb
rules_permit_verb-any [] group resource verb = refl
rules_permit_verb-any (rule ∷ rules) group resource verb =
    ground (arith, rules_permit_verb-any rules group resource verb)

rules_permit_all_verbs-all :
    (rules : List ResourceRule) (group resource : String) (verbs : List String)
    → rules_permit_all_verbs rules group resource verbs
      ≡ all (λ verb. any (grants group resource verb) rules) verbs
unfolding rules_permit_all_verbs
rules_permit_all_verbs-all rules group resource [] = refl
rules_permit_all_verbs-all rules group resource (verb ∷ verbs) = ground (
  arith,
  rules_permit_all_verbs-all rules group resource verbs,
  rules_permit_verb-any rules group resource verb,
)

-- Is one of the resources of this kind, and granted?
abbrev pub some_granted : List ResourceRule → String → GroupKind → List ApiResource → Bool
some_granted rules group gk resources =
    any
      (λ res.
        if record { group = group; kind = res.kind } == gk
        then granted rules group res.name
        else false)
      resources

contains-allow_one :
    (rules : List ResourceRule) (group : String) (gk : GroupKind) (res : ApiResource)
    (allowed : List GroupKind)
    → contains (allow_one rules group res allowed) gk
      ≡ (contains allowed gk || some_granted rules group gk (res ∷ []))
unfolding allow_one
contains-allow_one rules group gk res allowed = ground (
  arith,
  contains-add (record { group = group; kind = res.kind }) gk allowed,
  rules_permit_all_verbs-all rules group res.name required_verbs,
)

some_granted_cons :
    (rules : List ResourceRule) (group : String) (gk : GroupKind) (res : ApiResource)
    (resources : List ApiResource)
    → some_granted rules group gk (res ∷ resources)
      ≡ (some_granted rules group gk (res ∷ []) || some_granted rules group gk resources)
some_granted_cons rules group gk res resources = ground arith

contains-allow_resources :
    (rules : List ResourceRule) (group : String) (gk : GroupKind) (resources : List ApiResource)
    (allowed : List GroupKind)
    → contains (allow_resources rules group resources allowed) gk
      ≡ (contains allowed gk || some_granted rules group gk resources)
unfolding allow_resources
contains-allow_resources rules group gk [] allowed = ground arith
contains-allow_resources rules group gk (res ∷ resources) allowed =
    contains-allow_resources rules group gk resources (allow_one rules group res allowed)
    ∙ ap (λ b. b || some_granted rules group gk resources)
        (contains-allow_one rules group gk res allowed)
    ∙ or_assoc (contains allowed gk) (some_granted rules group gk (res ∷ []))
        (some_granted rules group gk resources)
    ∙ ap (◌||◌ (contains allowed gk)) (sym (some_granted_cons rules group gk res resources))

-- Is one of the discovered resources of this kind, and granted?
abbrev pub discovered_and_granted : List ResourceRule → GroupKind → List ApiResourceList → Bool
discovered_and_granted rules gk [] = false
discovered_and_granted rules gk (list ∷ lists) =
    some_granted rules (parse_group_version list.group_version).0 gk list.api_resources
    || discovered_and_granted rules gk lists

contains-allow_lists :
    (rules : List ResourceRule) (gk : GroupKind) (lists : List ApiResourceList)
    (allowed : List GroupKind)
    → contains (allow_lists rules lists allowed) gk
      ≡ (contains allowed gk || discovered_and_granted rules gk lists)
unfolding allow_lists
contains-allow_lists rules gk [] allowed = ground arith
contains-allow_lists rules gk (list ∷ lists) allowed =
    let group = (parse_group_version list.group_version).0 in
    contains-allow_lists rules gk lists (allow_resources rules group list.api_resources allowed)
    ∙ ap (λ b. b || discovered_and_granted rules gk lists)
        (contains-allow_resources rules group gk list.api_resources allowed)
    ∙ or_assoc (contains allowed gk) (some_granted rules group gk list.api_resources)
        (discovered_and_granted rules gk lists)

-- Whatever earlier ticks of the loop met: after a tick at which discovery and the review succeed,
-- followed by any ticks at which discovery or the review fails, a type is excluded exactly if no
-- resource of that group and kind that the tick discovered is granted all of get, list and watch by
-- the tick's rules that are not restricted to names.
pub is_excluded_resource-refresh :
    (before later : List Tick) (lists : List ApiResourceList) (rules : List ResourceRule)
    (allowed : List GroupKind) (group kind : String)
    → All Fails later
    → is_excluded_resource
        (refresh_loop (before ++ (ok lists, ok rules) ∷ later) allowed)
        group
        kind
      ≡ not (discovered_and_granted rules (record { group = group; kind = kind }) lists)
unfolding is_excluded_resource refresh_loop refresh build_allowed_resources_map contains
is_excluded_resource-refresh before later lists rules allowed group kind h =
    ap (λ a. is_excluded_resource a group kind)
      (refresh_loop-append before ((ok lists, ok rules) ∷ later) allowed
        ∙ refresh_loop-Fails later (allow_lists rules lists []) h)
    ∙ ap not (contains-allow_lists rules (record { group = group; kind = kind }) lists [])
