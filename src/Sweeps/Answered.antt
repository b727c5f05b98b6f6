-- ===== src/Sweeps/Answered.antt =====
-- What a tick of internal/watcher/resource_monitor_loop.go sends of what the sweep of
-- internal/cluster/cluster_list.go finds.
use kubernetes_monitor.Prelude.{
  ◌≡◌, refl, String, Bool, Option, none, some, List, [], ◌∷◌, Result, ok, failed, All, All-append,
  inl, inr, Option-cases, subst,
}
use kubernetes_monitor.Prelude.Maps.{Map, keys}
use kubernetes_monitor.Resources.{Kubernetes, TypeMeta, ApplicationInstanceChanges}
use kubernetes_monitor.Targets
use kubernetes_monitor.Commands.{Monitor, target_of, put_target}
use kubernetes_monitor.Protos.Messages.{ReplaceMonitoredResourcesRequest}
use kubernetes_monitor.Protos.Totals.{IsReportable}
use kubernetes_monitor.Protos.Sent.{Accounts, to_replace-Accounts}
use kubernetes_monitor.Reports.Replies.{updates_of, swept-All}
use kubernetes_monitor.Sweeps.{
  Sweep, or_skipped, sweep_targets, application_instance_updates, replacements,
  update_monitored_resources,
}

or_skipped-All :
    {M T : Type 0} (t : T) (r : Result String (List (ApplicationInstanceChanges M)))
    → All IsReportable (updates_of (some (t, r)))
    → All IsReportable (or_skipped r)
unfolding or_skipped
or_skipped-All t (failed e) h = tt
or_skipped-All t (ok updates) h = h

module _ (k : Kubernetes) (default_api_resources : Map TypeMeta Bool) {C S : Type 0}
    (stopped : Bool) (met : Sweep k.Manifest) where
  open k use {Manifest}

  abbrev SweepsKnown :
      Option (Monitor Manifest C S × List (ApplicationInstanceChanges Manifest)) → Type 0
  SweepsKnown none = Unit {0}
  SweepsKnown (some (m, updates)) = All IsReportable updates

  sweep_targets-Known :
      (ids : List String) (m : Monitor Manifest C S)
      → SweepsKnown (sweep_targets k default_api_resources stopped met ids m)
  unfolding sweep_targets
  sweep_targets-Known [] m = tt
  sweep_targets-Known (id ∷ ids) m =
      let sweep_of =
        Targets.application_instance_updates k default_api_resources stopped (met.target_refuses id)
          met.cluster (target_of id m) in
      let here =
        swept-All k default_api_resources stopped (met.target_refuses id) met.cluster
          (target_of id m) in
      elim (Option-cases sweep_of) [
        | inl p ↦ rw (p, sweep_targets) tt
        | inr ((t, r), p) ↦
            let later = sweep_targets-Known ids (put_target id m t) in
            elim (Option-cases
              (sweep_targets k default_api_resources stopped met ids (put_target id m t))) [
                | inl q ↦ rw (p, sweep_targets, q) tt
                | inr ((m', rest), q) ↦
                    rw (p, sweep_targets, q)
                      (All-append IsReportable _ rest
                        (or_skipped-All t r (subst (λ o. All IsReportable (updates_of o)) p here))
                        (subst (λ o. SweepsKnown o) q later))
              ]
      ]

  application_instance_updates-Known :
      (m : Monitor Manifest C S)
      → SweepsKnown (application_instance_updates k default_api_resources stopped met m)
  unfolding application_instance_updates
  application_instance_updates-Known m = elim (Option-cases met.registry_refuses) [
    | inr (e, p) ↦ rw (p, application_instance_updates) tt
    | inl p ↦ elim (Option-cases m.registry.shared) [
      | inl q ↦ rw (p, application_instance_updates, q) tt
      | inr (shared, q) ↦ elim (Option-cases met.sync_error) [
        | inr (e, s) ↦ rw (p, application_instance_updates, q, s) tt
        | inl s ↦
            rw (p, application_instance_updates, q, s)
              (sweep_targets-Known (keys m.registry.clusters) m)
      ]
    ]
  ]

-- Each update in order has one request that accounts for it, beside the errors.
abbrev pub AreAnswered :
    {M : Type 0}
    → (M → Result String String)
    → List (ApplicationInstanceChanges M)
    → List (ReplaceMonitoredResourcesRequest × List String)
    → Type 0
AreAnswered marshal [] [] = Unit {0}
AreAnswered marshal [] (request ∷ requests) = ⊥
AreAnswered marshal (update ∷ updates) [] = ⊥
AreAnswered marshal (update ∷ updates) ((request, errors) ∷ requests) =
    Accounts marshal update request errors × AreAnswered marshal updates requests

replacements-AreAnswered :
    {M : Type 0} (marshal : M → Result String String)
    (updates : List (ApplicationInstanceChanges M))
    → All IsReportable updates
    → (requests : List (ReplaceMonitoredResourcesRequest × List String)) × (replacements marshal
          updates
        ≡ some requests)
      × AreAnswered marshal updates requests
unfolding replacements
replacements-AreAnswered marshal [] h = ([], refl, tt)
replacements-AreAnswered marshal (update ∷ updates) h =
    let (request, errors, e, accounts) = to_replace-Accounts marshal update h.0 in
    let (requests, es, answered) = replacements-AreAnswered marshal updates h.1 in
    ((request, errors) ∷ requests, rw (e, es) refl, (accounts, answered))

module _ (k : Kubernetes) (default_api_resources : Map TypeMeta Bool) {C S : Type 0}
    (stopped : Bool) (met : Sweep k.Manifest) (marshal : k.Manifest → Result String String) where
  open k use {Manifest}

  -- A tick of the loop whose sweep returns does not panic. For each instance that the sweep reports it
  -- sends one replacement, in order, which names the instance and the machine. In order, each present or
  -- child resource that has its ids and a manifest that can be marshalled is in it with its fields, and
  -- each other one adds one error; and each missing or unknown resource is in it with its fields.
  pub update_monitored_resources-AreAnswered :
      (m m' : Monitor Manifest C S) (updates : List (ApplicationInstanceChanges Manifest))
      → application_instance_updates k default_api_resources stopped met m ≡ some (m', updates)
      → (requests : List (ReplaceMonitoredResourcesRequest × List String))
        × (update_monitored_resources k default_api_resources stopped met marshal m
            ≡ some (m', requests))
        × AreAnswered marshal updates requests
  unfolding update_monitored_resources
  update_monitored_resources-AreAnswered m m' updates p =
      let (requests, e, answered) = replacements-AreAnswered marshal updates (
        subst (λ o. SweepsKnown k default_api_resources stopped met o) p
          (application_instance_updates-Known k default_api_resources stopped met m)) in
      (requests, rw (p, e) refl, answered)
