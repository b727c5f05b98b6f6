-- ===== src/Sender/Delivered.antt =====
-- What every run of the queue of internal/watcher/resource_updates.go keeps.
use mathlib.Core.List.{Perm, append_assoc, append-nil, perm_append_singleton, perm_middle}
use mathlib.Core.List.Perm
use kubernetes_monitor.Prelude.{
  ℕ, suc, ◌<◌, ◌+◌, ◌*◌, ◌≡◌, refl, sym, ap, ◌∙◌, List, [], ◌∷◌, ◌++◌, length, arith, subst, zero,
  ◌⊎◌, inl, inr,
}
use kubernetes_monitor.Sender.{SendQueue, Step, produce, take, finish, Run, start, step}

-- The items were taken in the order in which they were put in, and what was taken is with a worker or
-- has ended.
record Delivers {A : Type 0} (produced : List A) (q : SendQueue A) : Type 0 where
  pub in_order : produced ≡ q.taken ++ q.update_queue
  pub accounted : Perm q.taken (q.ended ++ q.in_flight)

-- How a run goes on with nothing more put in.
pub data Continues {A : Type 0} (workers : ℕ) (produced : List A)
    : SendQueue A → SendQueue A → Type 0 where
  stay : {q : SendQueue A} → Continues workers produced q q
  go_on :
      {q r last : SendQueue A}
      → Step workers produced q produced r
      → Continues workers produced r last
      → Continues workers produced q last

List-cases {ℓ} :
    {A : Type ℓ} (xs : List A) → (xs ≡ []) ⊎ ((x : A) × (rest : List A) × (xs ≡ x ∷ rest))
List-cases [] = inl refl
List-cases (x ∷ rest) = inr (x, rest, refl)

module _ {A : Type 0} (workers : ℕ) where
  Step-Delivers :
      {produced after : List A} {q r : SendQueue A}
      → Step workers produced q after r
      → Delivers produced q
      → Delivers after r
  Step-Delivers {produced} {q = q} (produce item room more next) h =
      rw (more, next)
        (record {
          in_order =
              ap (λ l. l ++ item ∷ []) h.in_order ∙ append_assoc q.taken q.update_queue (item ∷ []);
          accounted = h.accounted;
        })
  Step-Delivers {produced} {q = q} (take item rest oldest free same next) h =
      rw (same, next)
        (record {
          in_order =
              h.in_order
              ∙ ap (λ l. q.taken ++ l) oldest
              ∙ sym (append_assoc q.taken (item ∷ []) rest);
          accounted =
              Perm.trans
                (Perm.trans (perm_append_singleton item q.taken) (Perm.cons item h.accounted))
                (Perm.symm (perm_middle q.ended q.in_flight));
        })
  Step-Delivers {produced} {q = q} (finish before item later held same next) h =
      rw (same, next)
        (record {
          in_order = h.in_order;
          accounted = Perm.trans (subst (λ l. Perm q.taken (q.ended ++ l)) held h.accounted) (
              Perm.trans (Perm.append_left q.ended (perm_middle before later))
                (perm_middle q.ended (before ++ later)));
        })

  Run-Delivers :
      (produced : List A) (q : SendQueue A) → Run workers produced q → Delivers produced q
  Run-Delivers produced q start = record { in_order = refl; accounted = Perm.refl [] }
  Run-Delivers after r (step {produced = produced} {q = q} run s) =
      Step-Delivers s (Run-Delivers produced q run)

  -- Twice the items that wait, and those that workers hold: each turn of a worker lowers it.
  abbrev pending : SendQueue A → ℕ
  pending q = 2 * length q.update_queue + length q.in_flight

  -- It goes on from q, with nothing more put in, until no item waits and no worker is busy.
  abbrev Drains : List A → SendQueue A → Type 0
  Drains produced q =
      (r : SendQueue A) × Continues workers produced q r
      × (r.update_queue ≡ [])
      × (r.in_flight ≡ [])

  -- A worker can take a turn, unless nothing waits and no worker is busy.
  turn :
      (produced : List A) (q : SendQueue A)
      → 0 < workers
      → ((r : SendQueue A) × (pending r < pending q) × Step workers produced q produced r)
        ⊎ ((q.update_queue ≡ []) × (q.in_flight ≡ []))
  turn produced q positive = elim (List-cases q.in_flight) [
    | inr (item, later, held) ↦ inl (
      record q { in_flight = later; ended = item ∷ q.ended },
      omega (arith, ap length held),
      finish [] item later held refl refl,
    )
    | inl idle ↦ elim (List-cases q.update_queue) [
      | inr (item, rest, oldest) ↦ inl (
        record q {
          update_queue = rest;
          in_flight = item ∷ q.in_flight;
          taken = q.taken ++ item ∷ [];
        },
        omega (arith, ap length oldest),
        take item rest oldest (omega (arith, ap length idle, positive)) refl refl,
      )
      | inl empty ↦ inr (empty, idle)
    ]
  ]

  drain :
      (n : ℕ) (produced : List A) (q : SendQueue A)
      → 0 < workers
      → pending q < n
      → Drains produced q
  drain zero produced q positive h = absurd (omega (arith, h))
  drain (suc n) produced q positive h = elim (turn produced q positive) [
    | inl (r, less, s) ↦
        let (last, later, empty, idle) = drain n produced r positive (omega (arith, h, less)) in
        (last, go_on s later, empty, idle)
    | inr (empty, idle) ↦ (q, stay, empty, idle)
  ]

  Continues-Run :
      {produced : List A} {q r : SendQueue A}
      → Continues workers produced q r
      → Run workers produced q
      → Run workers produced r
  Continues-Run stay run = run
  Continues-Run (go_on s later) run = Continues-Run later (step run s)

  all_ended :
      (produced : List A) (r : SendQueue A)
      → Delivers produced r
      → r.update_queue ≡ []
      → r.in_flight ≡ []
      → (r.taken ≡ produced) × Perm produced r.ended
  all_ended produced r d empty idle =
      let taken : produced ≡ r.taken =
        d.in_order ∙ ap (λ l. r.taken ++ l) empty ∙ append-nil r.taken in
      (
        sym taken,
        subst (λ l. Perm l r.ended) (sym taken)
            (subst (λ l. Perm r.taken l) (ap (λ l. r.ended ++ l) idle ∙ append-nil r.ended)
              d.accounted),
      )

  -- While there is a worker, every run can go on from the queue it has reached, with nothing more put
  -- in, until every item that was ever put in has been taken, in the order in which they were put in,
  -- and has ended, each once.
  pub Run-drains :
      (produced : List A) (q : SendQueue A)
      → 0 < workers
      → Run workers produced q
      → (r : SendQueue A) × Continues workers produced q r
        × (r.taken ≡ produced)
        × Perm produced r.ended
  Run-drains produced q positive run =
      let (r, later, empty, idle) = drain (suc (pending q)) produced q positive (omega arith) in
      let (in_order, each_once) =
        all_ended produced r (Run-Delivers produced r (Continues-Run later run)) empty idle in
      (r, later, in_order, each_once)
