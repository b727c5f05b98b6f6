-- ===== src/Watcher/Runs.antt =====
-- What the supervisor of internal/watcher/watcher.go keeps.
use kubernetes_monitor.Prelude.{
  ◌≡◌, refl, ℕ, ◌≤◌, Bool, true, false, Option, none, some, List, [], ◌∷◌, All, length, arith,
  Bool-cases, inl, inr,
}
use kubernetes_monitor.Watcher.{
  Run, Connects, subscribe, start_subscribers, Signal, done, fatal, up, down, Supervisor,
  cancel_newest, wait_for_subscribers, report, started, supervise_one, supervise_subscribers,
  unsupervised, start,
}

-- The run that is under way has the resource monitor loop and the three handlers, and it is cancelled
-- exactly once the supervisor has ended.
abbrev pub Newest : Bool → List Run → Type 0
Newest ended [] = Unit {0}
Newest ended (r ∷ runs) =
    (r.cancelled ≡ ended) × (ended ≡ false → r.subscribers ≡ 4) × All (λ o. o.cancelled ≡ true) runs

pub record IsSupervised {E : Type 0} (s : Supervisor E) : Type 0 where
  pub one_live : Newest s.ended s.runs
  pub silent : s.ended ≡ false → s.reported ≡ []
  pub reports : length s.reported ≤ 1

cancel_newest-All :
    (ended : Bool) (runs : List Run)
    → Newest ended runs
    → All (λ o. o.cancelled ≡ true) (cancel_newest runs)
unfolding cancel_newest
cancel_newest-All ended [] h = tt
cancel_newest-All ended (r ∷ runs) h = (refl, h.2)

cancel_newest-Newest :
    (ended : Bool) (runs : List Run) → Newest ended runs → Newest true (cancel_newest runs)
unfolding cancel_newest
cancel_newest-Newest ended [] h = tt
cancel_newest-Newest ended (r ∷ runs) h = (refl, λ e. absurd (cc), h.2)

wait-All :
    (in_time : Bool) (runs : List Run)
    → All (λ o. o.cancelled ≡ true) runs
    → All (λ o. o.cancelled ≡ true) (wait_for_subscribers in_time runs)
unfolding wait_for_subscribers
wait-All in_time [] h = tt
wait-All in_time (r ∷ runs) h = (h.0, h.1)

All-Newest : (runs : List Run) → All (λ o. o.cancelled ≡ true) runs → Newest true runs
All-Newest [] h = tt
All-Newest (r ∷ runs) h = (h.0, λ e. absurd (cc), h.1)

module _ {E : Type 0} where
  all_subscribed :
      (commands logs events : Option E)
      → (subscribe events (subscribe logs (subscribe commands (1, [])))).1 ≡ []
      → (subscribe events (subscribe logs (subscribe commands (1, [])))).0 ≡ 4
  unfolding subscribe
  all_subscribed none none none h = refl
  all_subscribed none none (some e) h = absurd (cc)
  all_subscribed none (some e) none h = absurd (cc)
  all_subscribed none (some e) (some f) h = absurd (cc)
  all_subscribed (some e) none none h = absurd (cc)
  all_subscribed (some e) none (some f) h = absurd (cc)
  all_subscribed (some e) (some f) none h = absurd (cc)
  all_subscribed (some e) (some f) (some g) h = absurd (cc)

  report_once :
      (delivered : Bool) (errors : List E) (reported : List (List E))
      → reported ≡ []
      → length (report delivered errors reported) ≤ 1
  unfolding report
  report_once true errors reported h = rw h (omega arith)
  report_once false errors reported h = rw h (omega arith)

  started-IsSupervised :
      (delivered : Bool) (n : ℕ) (errors : List E) (runs : List Run) (reported : List (List E))
      → (errors ≡ [] → n ≡ 4)
      → All (λ o. o.cancelled ≡ true) runs
      → reported ≡ []
      → IsSupervised (started delivered (n, errors) runs reported)
  unfolding started
  started-IsSupervised delivered n [] runs reported four h silent = record {
    one_live = (refl, λ e. four refl, h);
    silent = λ e. silent;
    reports = rw silent (omega arith);
  }
  started-IsSupervised delivered n (err ∷ errors) runs reported four h silent = record {
    one_live = (refl, λ e. absurd (cc), h);
    silent = λ e. absurd (cc);
    reports = report_once delivered (err ∷ errors) reported silent;
  }

  starts-IsSupervised :
      (delivered : Bool) (c : Connects E) (runs : List Run) (reported : List (List E))
      → All (λ o. o.cancelled ≡ true) runs
      → reported ≡ []
      → IsSupervised (started delivered (start_subscribers c) runs reported)
  unfolding start_subscribers
  starts-IsSupervised delivered c runs reported h silent =
      let begun = subscribe c.events (subscribe c.logs (subscribe c.commands (1, []))) in
      started-IsSupervised delivered begun.0 begun.1 runs reported
        (all_subscribed c.commands c.logs c.events) h silent

  module _ (did_not_recover : E) where
    supervise_one-IsSupervised :
        (signal : Signal E) (s : Supervisor E)
        → s.ended ≡ false
        → IsSupervised s
        → IsSupervised (supervise_one did_not_recover signal s)
    unfolding supervise_one
    supervise_one-IsSupervised done s on h = record {
      one_live = cancel_newest-Newest s.ended s.runs h.one_live;
      silent = λ e. absurd (cc);
      reports = h.reports;
    }
    supervise_one-IsSupervised (fatal err delivered) s on h = record {
      one_live = cancel_newest-Newest s.ended s.runs h.one_live;
      silent = λ e. absurd (cc);
      reports = report_once delivered (err ∷ []) s.reported (h.silent on);
    }
    supervise_one-IsSupervised up s on h = h
    supervise_one-IsSupervised (down r) s on h =
        let runs = wait_for_subscribers r.stops_in_time (cancel_newest s.runs) in
        let cancelled =
          wait-All r.stops_in_time (cancel_newest s.runs)
            (cancel_newest-All s.ended s.runs h.one_live) in
        elim (Bool-cases r.recovers) [
          | inl p ↦
              rw p
                (starts-IsSupervised r.delivered r.connects runs s.reported cancelled (h.silent on))
          | inr p ↦ rw p (record {
            one_live = All-Newest runs cancelled;
            silent = λ e. absurd (cc);
            reports = report_once r.delivered (did_not_recover ∷ []) s.reported (h.silent on);
          })
        ]

    supervise-IsSupervised :
        (signals : List (Signal E)) (s : Supervisor E)
        → s.ended ≡ false
        → IsSupervised s
        → IsSupervised (supervise_subscribers did_not_recover signals s)
    unfolding supervise_subscribers
    supervise-IsSupervised [] s on h = h
    supervise-IsSupervised (signal ∷ signals) s on h =
        let next = supervise_one did_not_recover signal s in
        let kept = supervise_one-IsSupervised signal s on h in
        elim (Bool-cases next.ended) [
          | inl p ↦ rw (p, supervise_subscribers) kept
          | inr p ↦ rw (p, supervise_subscribers) (supervise-IsSupervised signals next p kept)
        ]

    unsupervised-IsSupervised :
        (signals : List (Signal E)) (s : Supervisor E)
        → s.ended ≡ false
        → IsSupervised s
        → IsSupervised (unsupervised did_not_recover signals s)
    unfolding unsupervised
    unsupervised-IsSupervised [] s on h = h
    unsupervised-IsSupervised (done ∷ signals) s on h = supervise_one-IsSupervised done s on h
    unsupervised-IsSupervised (fatal err delivered ∷ signals) s on h =
        unsupervised-IsSupervised signals s on h
    unsupervised-IsSupervised (up ∷ signals) s on h = unsupervised-IsSupervised signals s on h
    unsupervised-IsSupervised (down r ∷ signals) s on h = unsupervised-IsSupervised signals s on h

    -- After a start, whatever the connections come to and whatever signals follow, with the health check
    -- or without: every run but the newest is cancelled, the newest is cancelled exactly if the
    -- supervisor has ended, and if it has not then all four subscribers were started in that run; the
    -- supervisor itself sent at most one report, and none before its end.
    pub start-IsSupervised :
        (connects : Connects E) (checks_health : Bool) (signals : List (Signal E))
        → IsSupervised (start did_not_recover connects checks_health signals)
    unfolding start
    start-IsSupervised connects checks_health signals =
        let first = started false (start_subscribers connects) [] [] in
        let begun = starts-IsSupervised false connects [] [] tt refl in
        elim (Bool-cases first.ended) [
          | inl p ↦ rw (p, start) begun
          | inr p ↦ elim (Bool-cases checks_health) [
            | inl q ↦ rw (p, q, start) (supervise-IsSupervised signals first p begun)
            | inr q ↦ rw (p, q, start) (unsupervised-IsSupervised signals first p begun)
          ]
        ]
