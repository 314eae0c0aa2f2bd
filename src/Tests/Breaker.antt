-- ===== src/Tests/Breaker.antt =====
-- Runs of the circuit breaker: three failures open it, and half a minute later a probe is let through.
use ev_charge_controller.Prelude.{◌≡◌, refl, true, false, [], ◌∷◌, pos, All, arith}
use ev_charge_controller.CircuitBreaker.{
  CircuitBreakerConfig, CircuitBreaker, opened, new, should_block, failure, fails, run, step,
}
use ev_charge_controller.CircuitBreaker.Invariant.{should_block-admits}
use ev_charge_controller.CircuitBreaker.Probe.{answers, probe_blocks_others}

abbrev config : CircuitBreakerConfig
config = record { failure_threshold = pos 3; reset_timeout = pos 100 }

abbrev tripped : CircuitBreaker
tripped = record {
  state = opened;
  failures = 3;
  threshold = 3;
  reset_timeout = 100;
  last_failure_time = 7;
}

three_failures : run (new config) (fails 5 ∷ fails 6 ∷ fails 7 ∷ []) ≡ tripped
unfolding new run step failure
three_failures = refl

blocked_then_probed :
    ((should_block 50 50 tripped).1 ≡ true) × ((should_block 107 108 tripped).1 ≡ false)
unfolding should_block
blocked_then_probed = (refl, refl)

should_block-admits_example :
    (should_block 107 108 (run (new config) (fails 5 ∷ fails 6 ∷ fails 7 ∷ []))).1 ≡ false
unfolding new run step failure
should_block-admits_example =
    should_block-admits config (fails 5 ∷ fails 6 ∷ fails 7 ∷ []) 107 108
      (omega arith, (omega arith, (omega arith, tt))) (omega arith)

probe_blocks_others_example :
    All (λ b. b ≡ true) (answers (should_block 107 108 tripped).0 ((109, 109) ∷ (207, 207) ∷ []))
probe_blocks_others_example =
    probe_blocks_others tripped 107 108 ((109, 109) ∷ (207, 207) ∷ []) (λ e. cc e)
      (unfold should_block in refl) (omega arith, (omega arith, tt))
