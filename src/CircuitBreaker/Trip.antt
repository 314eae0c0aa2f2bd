-- ===== src/CircuitBreaker/Trip.antt =====
-- When the circuit opens: the count of consecutive failures.
use ev_charge_controller.Prelude.{ℕ, suc, ◌+◌, ◌<◌, ◌≡◌, List, [], ◌∷◌, length, arith}
use ev_charge_controller.CircuitBreaker.{
  CircuitBreaker, Call, closed, opened, fails, success, failure, step, run,
}

-- The failures reported at these times.
abbrev pub failing : List ℕ → List Call
failing [] = []
failing (t ∷ ts) = fails t ∷ failing ts

failing-closed :
    (cb : CircuitBreaker) (ts : List ℕ)
    → cb.state ≡ closed
    → cb.failures + length ts < cb.threshold
    → let cb' = run cb (failing ts) in
      (cb'.state ≡ closed)
      × (cb'.failures ≡ cb.failures + length ts)
      × (cb'.threshold ≡ cb.threshold)
unfolding run step
failing-closed cb [] s h = (s, omega arith, omega arith)
failing-closed cb (t ∷ ts) s h = ground (arith, failing-closed (failure t cb) ts)

-- After a success the circuit counts afresh: it stays closed for as long as there are fewer
-- failures in a row than the threshold, and the failure that reaches the threshold opens it and
-- arms its clock with the time of that failure.
pub failing-opened :
    (cb : CircuitBreaker) (ts : List ℕ) (t : ℕ)
    → suc (length ts) ≡ cb.threshold
    → let before = run (success cb) (failing ts) in
      (before.state ≡ closed)
      × ((failure t before).state ≡ opened)
      × ((failure t before).last_failure_time ≡ t)
unfolding success failure
failing-opened cb ts t h = ground (arith, failing-closed (success cb) ts)
