-- ===== src/CircuitBreaker/Probe.antt =====
-- About the requests to a half-open circuit.
use ev_charge_controller.Prelude.{
  ℕ, ◌+◌, ◌<◌, ◌≡◌, ◌≢◌, Bool, true, false, List, [], ◌∷◌, All, arith,
}
use ev_charge_controller.CircuitBreaker.{CircuitBreaker, closed, half_open, should_block}

-- The answers to a sequence of requests, each with its two clock readings.
unfoldable pub answers : CircuitBreaker → List (ℕ × ℕ) → List Bool
answers cb [] = []
answers cb ((now, later) ∷ ps) =
    let (cb', blocked) = should_block now later cb in blocked ∷ answers cb' ps

-- Every request reads the clock before the time `until`.
abbrev pub Before : ℕ → ℕ × ℕ → Type 0
Before until (now, _) = now < until

half_open_blocks :
    (cb : CircuitBreaker) (ps : List (ℕ × ℕ))
    → cb.state ≡ half_open
    → All (Before (cb.last_failure_time + cb.reset_timeout)) ps
    → All (λ b. b ≡ true) (answers cb ps)
unfolding answers should_block
half_open_blocks cb [] s h = tt
half_open_blocks cb (p ∷ ps) s h = ground (arith, half_open_blocks cb ps)

-- Once a circuit that is not closed has admitted a request as its probe, every further request
-- that reads the clock before the new reset window has ended is blocked, however many there are,
-- as long as no success and no failure is reported in between.
pub probe_blocks_others :
    (cb : CircuitBreaker) (now later : ℕ) (ps : List (ℕ × ℕ))
    → cb.state ≢ closed
    → (should_block now later cb).1 ≡ false
    → All (Before (later + cb.reset_timeout)) ps
    → All (λ b. b ≡ true) (answers (should_block now later cb).0 ps)
unfolding should_block
probe_blocks_others cb now later ps s a h =
    half_open_blocks (should_block now later cb).0 ps (ground arith) (ground (arith, h))
