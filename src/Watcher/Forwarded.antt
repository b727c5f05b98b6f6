-- ===== src/Watcher/Forwarded.antt =====
-- `forwardErrors` of internal/watcher/watcher.go passes on a handler's first error only, which loses none:
-- the loop of internal/commands/command_handler.go reports at most one.
use kubernetes_monitor.Prelude.{
  ◌≡◌, refl, ◌≤◌, true, some, List, [], ◌∷◌, map, length, arith, Bool-cases, inl, inr,
}
use kubernetes_monitor.Communication.{handle_stream_recv_err}
use kubernetes_monitor.Communication.Subscriber.{
  Subscriber, Input, message, broken, restart_subscriber, receive, start_subscriber,
}
use kubernetes_monitor.Watcher.{forward_errors}

module _ {E : Type 0} where
  -- What a loop that has not ended has reported, and one that has.
  record Reports (s : Subscriber E) : Type 0 where
    silent : s.continues ≡ true → s.reported ≡ []
    once : length s.reported ≤ 1

  receive-Reports :
      (input : Input E) (s : Subscriber E)
      → s.reported ≡ []
      → s.continues ≡ true
      → Reports (receive input s)
  unfolding receive restart_subscriber handle_stream_recv_err
  receive-Reports message s h c = record { silent = ground arith; once = ground arith }
  receive-Reports (broken b) s h c = record { silent = ground arith; once = ground arith }

  start_subscriber-Reports :
      (inputs : List (Input E)) (s : Subscriber E)
      → s.continues ≡ true
      → s.reported ≡ []
      → Reports (start_subscriber inputs s)
  unfolding start_subscriber
  start_subscriber-Reports [] s c h = record { silent = λ e. h; once = rw h (omega arith) }
  start_subscriber-Reports (input ∷ inputs) s c h =
      let r = receive-Reports input s h c in
      elim (Bool-cases (receive input s).continues) [
        | inl p ↦
            rw (p, start_subscriber)
              (start_subscriber-Reports inputs (receive input s) p (r.silent p))
        | inr p ↦ rw (p, start_subscriber) r
      ]

  forward_errors-some :
      (errors : List E) → length errors ≤ 1 → forward_errors (map some errors) ≡ errors
  unfolding forward_errors
  forward_errors-some [] h = refl
  forward_errors-some (e ∷ []) h = refl
  forward_errors-some (e ∷ f ∷ errors) h = absurd (omega (arith, h))

  -- Whatever the stream of a subscriber meets, what it reports from its start on, with nothing reported
  -- before, is passed on whole while its run is not cancelled; and while it goes on it reports nothing.
  pub forward_errors-start_subscriber :
      (inputs : List (Input E)) (s : Subscriber E)
      → s.continues ≡ true
      → s.reported ≡ []
      → (forward_errors (map some (start_subscriber inputs s).reported)
          ≡ (start_subscriber inputs s).reported)
        × ((start_subscriber inputs s).continues ≡ true → (start_subscriber inputs s).reported ≡ [])
  forward_errors-start_subscriber inputs s c h =
      let r = start_subscriber-Reports inputs s c h in
      (forward_errors-some (start_subscriber inputs s).reported r.once, r.silent)
