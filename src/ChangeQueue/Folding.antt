-- ===== src/ChangeQueue/Folding.antt =====
-- internal/cluster/resource_changes.go: what a target is told of one resource, against what happened.
use kubernetes_monitor.Prelude.{
  ◌≡◌, refl, sym, ap, subst, ◌∙◌, Option, none, some, List, [], ◌∷◌, if◌then◌else◌, arith,
  Option-cases, Bool-cases, inl, inr, ◌==◌, beq_refl, eq_of_beq,
}
use kubernetes_monitor.Prelude.Sets.{contains}
use kubernetes_monitor.Prelude.Maps.{Map, lookup, lookup-insert, lookup-delete}
use kubernetes_monitor.Resources.{ResourceKey, key_eq}
use kubernetes_monitor.Resources.Libraries.{Kubernetes}
use kubernetes_monitor.ChangeQueue.{
  ResourceChange, ChangeQueue, next, sent, file_change, Run, starts, receives, sends,
}
use kubernetes_monitor.ChangeQueue.Order.{
  IsOrdered, folded, file_change-IsOrdered, sent-IsOrdered, file_change_new, file_change_known,
}

module _ {M : Type 0} where
  -- The changes of one resource in a history.
  abbrev pub of_key : ResourceKey → Map ResourceKey (ResourceChange M) → List (ResourceChange M)
  of_key j [] = []
  of_key j ((i, c) ∷ history) = if i == j then c ∷ of_key j history else of_key j history

  -- The change that waits in the queue for a resource, and before it the ones handed out.
  abbrev pub with_waiting :
      Option (ResourceChange M) → List (ResourceChange M) → List (ResourceChange M)
  with_waiting none told = told
  with_waiting (some c) told = c ∷ told

  -- Both newest first: the second is the first with runs of neighbours folded into one change, from
  -- the state before the run to the state after it.
  pub data Coarsens : List (ResourceChange M) → List (ResourceChange M) → Type 0 where
    silent : Coarsens [] []
    tells :
        {happened told : List (ResourceChange M)} (c : ResourceChange M)
        → Coarsens happened told
        → Coarsens (c ∷ happened) (c ∷ told)
    folds :
        {happened told : List (ResourceChange M)} (c d : ResourceChange M)
        → Coarsens happened (d ∷ told)
        → Coarsens (c ∷ happened) (folded (some d) c ∷ told)

  lookup-file_change :
      (j i : ResourceKey) (c : ResourceChange M) (q : ChangeQueue M)
      → lookup j (file_change i c q).queued
        ≡ (if i == j then some (folded (lookup i q.queued) c) else lookup j q.queued)
  lookup-file_change j i c q = elim (Option-cases (lookup i q.queued)) [
    | inl p ↦
        ap (λ r. lookup j r.queued) (file_change_new q i c p) ∙ rw (p, lookup-insert i j c q.queued)
    | inr (d, p) ↦
        ap (λ r. lookup j r.queued) (file_change_known q i c d p)
        ∙ rw (p, lookup-insert i j (folded (some d) c) q.queued)
  ]

  hear-Coarsens :
      (c : ResourceChange M) (queued : Option (ResourceChange M))
      {happened told : List (ResourceChange M)}
      → Coarsens happened (with_waiting queued told)
      → Coarsens (c ∷ happened) (with_waiting (some (folded queued c)) told)
  hear-Coarsens c none h = tells c h
  hear-Coarsens c (some d) h = folds c d h

  receive-Coarsens :
      (j i : ResourceKey) (c : ResourceChange M) (q : ChangeQueue M)
      (ins outs : Map ResourceKey (ResourceChange M))
      → Coarsens (of_key j ins) (with_waiting (lookup j q.queued) (of_key j outs))
      → Coarsens
          (of_key j ((i, c) ∷ ins))
          (with_waiting (lookup j (file_change i c q).queued) (of_key j outs))
  receive-Coarsens j i c q ins outs h = elim (Bool-cases (i == j)) [
    | inl p ↦
        subst (λ l. Coarsens (of_key j ((i, c) ∷ ins)) (with_waiting l (of_key j outs)))
          (sym (lookup-file_change j i c q))
          (rw (p, eq_of_beq i j p) (hear-Coarsens c (lookup j q.queued) h))
    | inr p ↦
        subst (λ l. Coarsens (of_key j ((i, c) ∷ ins)) (with_waiting l (of_key j outs)))
          (sym (lookup-file_change j i c q)) (rw (p) h)
  ]

  lookup-sent :
      (j first : ResourceKey) (rest : List ResourceKey) (q : ChangeQueue M)
      → q.order ≡ first ∷ rest
      → lookup j (sent q).queued ≡ (if first == j then none else lookup j q.queued)
  unfolding sent
  lookup-sent j first rest q e = rw (e, lookup-delete first j q.queued)

  next_of_first :
      (first : ResourceKey) (rest : List ResourceKey) (q : ChangeQueue M) (c : ResourceChange M)
      → IsOrdered q
      → q.order ≡ first ∷ rest
      → next q ≡ some c
      → lookup first q.queued ≡ some c
  unfolding next contains
  next_of_first first rest q c h e n = ground (arith, h.queued first, beq_refl first, e)

  -- Handing out the waiting change of a resource leaves what is waiting and told of each as it was.
  waiting-sent :
      (j first : ResourceKey) (rest : List ResourceKey) (c : ResourceChange M) (q : ChangeQueue M)
      (outs : Map ResourceKey (ResourceChange M))
      → q.order ≡ first ∷ rest
      → lookup first q.queued ≡ some c
      → with_waiting (lookup j (sent q).queued) (of_key j ((first, c) ∷ outs))
        ≡ with_waiting (lookup j q.queued) (of_key j outs)
  waiting-sent j first rest c q outs e n =
      ap (λ l. with_waiting l (of_key j ((first, c) ∷ outs))) (lookup-sent j first rest q e)
      ∙ elim (Bool-cases (first == j)) [
        | inl p ↦ ground (arith, eq_of_beq first j p, n, p)
        | inr p ↦ rw (p)
      ]

module _ (k : Kubernetes) where
  open k use {Manifest}

  -- In every run of the queue: each queued resource stands once in its order, and nothing else does.
  pub Run-IsOrdered :
      {ins outs : Map ResourceKey (ResourceChange Manifest)} {q : ChangeQueue Manifest}
      → Run k ins outs q
      → IsOrdered q
  unfolding contains lookup
  Run-IsOrdered starts = record { distinct = tt; queued = λ j. refl }
  Run-IsOrdered (receives i c r e) = file_change-IsOrdered _ i c (Run-IsOrdered r)
  Run-IsOrdered (sends first rest c r e n) = sent-IsOrdered _ (Run-IsOrdered r)

  -- In every run of the queue, for each resource: the changes handed out for it, and then the one
  -- that waits, are the changes that came in for it, in their order, with runs of neighbours folded
  -- into one that goes from the state before the first to the state after the last. None is lost,
  -- made up or overtaken.
  pub Run-Coarsens :
      {ins outs : Map ResourceKey (ResourceChange Manifest)} {q : ChangeQueue Manifest}
      (j : ResourceKey)
      → Run k ins outs q
      → Coarsens (of_key j ins) (with_waiting (lookup j q.queued) (of_key j outs))
  unfolding lookup
  Run-Coarsens j starts = silent
  Run-Coarsens j (receives i c r e) = receive-Coarsens j i c _ _ _ (Run-Coarsens j r)
  Run-Coarsens j (sends first rest c r e n) =
      subst (Coarsens _)
        (sym
          (waiting-sent j first rest c _ _ e (next_of_first first rest _ c (Run-IsOrdered r) e n)))
        (Run-Coarsens j r)
