-- ===== src/Communication/Backoff.antt =====
-- The waits of internal/communication/grpc_utilities.go between two attempts.
use kubernetes_monitor.Prelude.{◌≡◌, refl, ap, ℕ, zero, suc, ◌+◌, ◌*◌, ◌≤◌, min, arith}
use kubernetes_monitor.Communication.{calculate_backoff}

backoff_none : calculate_backoff 0 ≡ 0
unfolding calculate_backoff
backoff_none = refl

backoff_one : calculate_backoff 1 ≡ 2
unfolding calculate_backoff
backoff_one = refl

-- Each wait after the first doubles the one before, up to three minutes.
pub calculate_backoff-suc :
    (n : ℕ) → calculate_backoff (suc (suc n)) ≡ min (2 * calculate_backoff (suc n)) 180
unfolding calculate_backoff
calculate_backoff-suc n = ground arith

backoff_bounded : (n : ℕ) → calculate_backoff n ≤ 180
unfolding calculate_backoff
backoff_bounded zero = omega arith
backoff_bounded (suc n) = ground arith

backoff_grows : (n : ℕ) → calculate_backoff n ≤ calculate_backoff (suc n)
backoff_grows zero = (omega (arith, backoff_none, backoff_one))
backoff_grows (suc n) = omega (arith, calculate_backoff-suc n, backoff_bounded (suc n))

-- No wait is longer than three minutes, and none is longer than one after more failures.
pub calculate_backoff-le :
    (d n : ℕ) → (calculate_backoff n ≤ calculate_backoff (n + d)) × (calculate_backoff n ≤ 180)
calculate_backoff-le zero n =
    let same : n + 0 ≡ n = omega arith in
    (omega (arith, ap calculate_backoff same), backoff_bounded n)
calculate_backoff-le (suc d) n =
    let next : n + suc d ≡ suc (n + d) = omega arith in
    (
      omega (arith, ap calculate_backoff next, (calculate_backoff-le d n).0, backoff_grows (n + d)),
      backoff_bounded n,
    )
