-- ===== src/ChangeQueue/Order.antt =====
-- `order` and `queued` of internal/cluster/resource_changes.go together are an insertion-ordered map.
use kubernetes_monitor.Prelude.{
  ◌≡◌, refl, sym, ap, ◌∙◌, true, false, Option, none, some, List, [], ◌∷◌, ◌++◌, arith,
  Option-cases, inl, inr, is_some,
}
use kubernetes_monitor.Prelude.Sets.{contains, contains-append}
use kubernetes_monitor.Prelude.Maps.{Map, lookup, insert, delete, lookup-insert, lookup-delete}
use kubernetes_monitor.Prelude.{subst}
use kubernetes_monitor.Resources.{ResourceKey, key_eq}
use kubernetes_monitor.ChangeQueue.{ResourceChange, ChangeQueue, sent, file_change}
use kubernetes_monitor.ChangeQueue.Entries.{
  Distinct, entries, Distinct-append, entries-delete_absent, entries-insert, entries-append,
  lookup-entries,
}

module _ {M : Type 0} where
  -- Each queued key stands once in the order, and nothing else does.
  pub record IsOrdered (q : ChangeQueue M) : Type 0 where
    pub distinct : Distinct q.order
    pub queued : (key : ResourceKey) → contains q.order key ≡ is_some (lookup key q.queued)

  abbrev pub view : ChangeQueue M → Map ResourceKey (ResourceChange M)
  view q = entries q.order q.queued

  -- A change that is folded into what is queued: the newest state, beside the oldest previous one.
  abbrev pub folded : Option (ResourceChange M) → ResourceChange M → ResourceChange M
  folded none change = change
  folded (some existing) change = record { new_res = change.new_res; old_res = existing.old_res }

  -- What is queued for a key can be read from the list of entries.
  pub lookup-view :
      (q : ChangeQueue M) (key : ResourceKey)
      → IsOrdered q
      → lookup key (view q) ≡ lookup key q.queued
  lookup-view q key h = elim (Option-cases (lookup key q.queued)) [
    | inl p ↦ rw (lookup-entries, h.queued key, p)
    | inr (c, p) ↦ rw (lookup-entries, h.queued key, p)
  ]

  contains-of_lookup :
      (q : ChangeQueue M) (key : ResourceKey) (c : ResourceChange M)
      → IsOrdered q
      → lookup key q.queued ≡ some c
      → contains q.order key ≡ true
  contains-of_lookup q key c h p = rw (h.queued key, p)

  absent-of_lookup :
      (q : ChangeQueue M) (key : ResourceKey)
      → IsOrdered q
      → lookup key q.queued ≡ none
      → contains q.order key ≡ false
  absent-of_lookup q key h p = rw (h.queued key, p)

  pub file_change_new :
      (q : ChangeQueue M) (key : ResourceKey) (change : ResourceChange M)
      → lookup key q.queued ≡ none
      → file_change key change q
        ≡ record { queued = insert key change q.queued; order = q.order ++ key ∷ [] }
  unfolding file_change
  file_change_new q key change p = rw (p, file_change)

  pub file_change_known :
      (q : ChangeQueue M) (key : ResourceKey) (change existing : ResourceChange M)
      → lookup key q.queued ≡ some existing
      → file_change key change q
        ≡ record q { queued = insert key (folded (some existing) change) q.queued }
  unfolding file_change
  file_change_known q key change existing p = rw (p, file_change)

  -- A change that comes in is an insertion into the ordered list that the queue stands for, if its
  -- order and its map agree: a key that is queued keeps its place and the state before the oldest
  -- change, and a new one goes to the end.
  view-file_change :
      (q : ChangeQueue M) (key : ResourceKey) (change : ResourceChange M)
      → IsOrdered q
      → view (file_change key change q) ≡ insert key (folded (lookup key (view q)) change) (view q)
  view-file_change q key change h = elim (Option-cases (lookup key q.queued)) [
    | inl p ↦
        ap view (file_change_new q key change p)
        ∙ entries-append q.order key change q.queued (absent-of_lookup q key h p)
        ∙ rw (lookup-view q key h, p)
    | inr (c, p) ↦
        ap view (file_change_known q key change c p)
        ∙ entries-insert q.order key (folded (some c) change) q.queued h.distinct
            (contains-of_lookup q key c h p)
        ∙ rw (lookup-view q key h, p)
  ]

  append-IsOrdered :
      (q : ChangeQueue M) (key : ResourceKey) (change : ResourceChange M)
      → IsOrdered q
      → lookup key q.queued ≡ none
      → IsOrdered (record { queued = insert key change q.queued; order = q.order ++ key ∷ [] })
  unfolding contains
  append-IsOrdered q key change h p = record {
    distinct = Distinct-append q.order key h.distinct (absent-of_lookup q key h p);
    queued = λ j. ground (
      arith,
      contains-append q.order (key ∷ []) j,
      lookup-insert key j change q.queued,
      h.queued j,
      key_eq.beq_iff key j,
    );
  }

  update-IsOrdered :
      (q : ChangeQueue M) (key : ResourceKey) (change existing : ResourceChange M)
      → IsOrdered q
      → lookup key q.queued ≡ some existing
      → IsOrdered (record q { queued = insert key change q.queued })
  update-IsOrdered q key change existing h p = record {
    distinct = h.distinct;
    queued = λ j. ground (
      arith,
      lookup-insert key j change q.queued,
      h.queued j,
      h.queued key,
      key_eq.beq_iff key j,
    );
  }

  pub file_change-IsOrdered :
      (q : ChangeQueue M) (key : ResourceKey) (change : ResourceChange M)
      → IsOrdered q
      → IsOrdered (file_change key change q)
  file_change-IsOrdered q key change h = elim (Option-cases (lookup key q.queued)) [
    | inl p ↦
        subst IsOrdered (sym (file_change_new q key change p)) (append-IsOrdered q key change h p)
    | inr (c, p) ↦
        subst IsOrdered (sym (file_change_known q key change c p))
          (update-IsOrdered q key (folded (some c) change) c h p)
  ]

  tail-IsOrdered :
      (key : ResourceKey) (rest : List ResourceKey) (queued : Map ResourceKey (ResourceChange M))
      → IsOrdered (record { order = key ∷ rest; queued = queued })
      → IsOrdered (record { order = rest; queued = delete key queued })
  unfolding contains
  tail-IsOrdered key rest queued h = record {
    distinct = h.distinct.1;
    queued = λ j.
        ground (arith, lookup-delete key j queued, h.queued j, h.distinct.0, key_eq.beq_iff key j);
  }

  -- The entries after the first.
  abbrev pub later : Map ResourceKey (ResourceChange M) → Map ResourceKey (ResourceChange M)
  later [] = []
  later (entry ∷ rest) = rest

  sent-IsOrdered_at :
      (order : List ResourceKey) (queued : Map ResourceKey (ResourceChange M))
      → IsOrdered (record { order = order; queued = queued })
      → IsOrdered (sent (record { order = order; queued = queued }))
  unfolding sent
  sent-IsOrdered_at [] queued h = h
  sent-IsOrdered_at (key ∷ rest) queued h = tail-IsOrdered key rest queued h

  view-sent_at :
      (order : List ResourceKey) (queued : Map ResourceKey (ResourceChange M))
      → Distinct order
      → view (sent (record { order = order; queued = queued })) ≡ later (entries order queued)
  unfolding sent
  view-sent_at [] queued d = refl
  view-sent_at (key ∷ rest) queued d = entries-delete_absent rest key queued d.0

  pub sent-IsOrdered : (q : ChangeQueue M) → IsOrdered q → IsOrdered (sent q)
  sent-IsOrdered q h = sent-IsOrdered_at q.order q.queued h

  -- Handing out a change takes the first entry off the ordered list that the queue stands for, if
  -- its order and its map agree.
  view-sent : (q : ChangeQueue M) → IsOrdered q → view (sent q) ≡ later (view q)
  view-sent q h = view-sent_at q.order q.queued h.distinct

  -- If the order and the map of the queue agree, then both steps are those of the ordered list that the
  -- queue stands for. A change that comes in is an insertion: a key that is queued keeps its place and
  -- the state before the oldest change, and a new one goes to the end. Handing out a change takes the
  -- first entry off.
  pub view-Refines :
      (q : ChangeQueue M)
      → IsOrdered q
      → ((key : ResourceKey) (change : ResourceChange M)
          → view (file_change key change q)
            ≡ insert key (folded (lookup key (view q)) change) (view q))
        × (view (sent q) ≡ later (view q))
  view-Refines q h = (λ key change. view-file_change q key change h, view-sent q h)
