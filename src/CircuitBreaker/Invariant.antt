-- ===== src/CircuitBreaker/Invariant.antt =====
-- What holds of a breaker between two calls.
use ev_charge_controller.Prelude.{ℕ, ◌+◌, ◌≤◌, ◌<◌, ◌≡◌, ◌≢◌, false, List, [], ◌∷◌, All, arith}
use ev_charge_controller.CircuitBreaker.{
  CircuitBreaker, CircuitBreakerConfig, Call, closed, asks, succeeds, fails, new, should_block,
  step, run,
}

-- The circuit is closed only below the threshold, and whenever it is not closed its clock is armed,
-- so that the reset window can end.
pub record IsValid (cb : CircuitBreaker) : Type 0 where
  pub threshold_pos : 0 < cb.threshold
  pub timeout_pos : 0 < cb.reset_timeout
  pub below : cb.state ≡ closed → cb.failures < cb.threshold
  pub armed : cb.state ≢ closed → 0 < cb.last_failure_time

-- The clock never returns Go's zero Time.
abbrev pub IsClocked : Call → Type 0
IsClocked (asks now later) = 0 < later
IsClocked succeeds = Unit {0}
IsClocked (fails now) = 0 < now

pub new-IsValid : (cfg : CircuitBreakerConfig) → IsValid (new cfg)
unfolding new
new-IsValid cfg = ground arith

pub step-IsValid : (cb : CircuitBreaker) (c : Call) → IsClocked c → IsValid cb → IsValid (step cb c)
unfolding step
step-IsValid cb (asks now later) t v = ground arith
step-IsValid cb succeeds t v = ground arith
step-IsValid cb (fails now) t v = ground arith

run-IsValid :
    (cb : CircuitBreaker) (cs : List Call) → All IsClocked cs → IsValid cb → IsValid (run cb cs)
unfolding run
run-IsValid cb [] t v = v
run-IsValid cb (c ∷ cs) t v = run-IsValid (step cb c) cs t.1 (step-IsValid cb c t.0 v)

-- After every sequence of calls on a new breaker, under a clock that never reads the zero Time, the
-- threshold and the timeout are positive, a closed circuit has fewer failures than the threshold,
-- and a circuit that is not closed has an armed clock.
pub run-new-IsValid :
    (cfg : CircuitBreakerConfig) (cs : List Call) → All IsClocked cs → IsValid (run (new cfg) cs)
run-new-IsValid cfg cs t = run-IsValid (new cfg) cs t (new-IsValid cfg)

-- A request is never refused for ever: in every state that a new breaker reaches under a clock that
-- never reads the zero Time, a request made when the reset window has ended is admitted.
pub should_block-admits :
    (cfg : CircuitBreakerConfig) (cs : List Call) (now later : ℕ)
    → All IsClocked cs
    → (run (new cfg) cs).last_failure_time + (run (new cfg) cs).reset_timeout ≤ now
    → (should_block now later (run (new cfg) cs)).1 ≡ false
unfolding should_block
should_block-admits cfg cs now later t h = ground (arith, run-new-IsValid cfg cs t)
