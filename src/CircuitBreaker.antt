-- ===== src/CircuitBreaker.antt =====
-- api/tasmota/circuitbreaker.go. `sync.Mutex` makes every method atomic, so a method is a function
-- from the breaker's fields to the new fields and the result. A `time.Time` is the number of
-- nanoseconds after Go's zero Time; each argument `now` or `later` is one reading of the clock.
pub mod Invariant
pub mod Trip
pub mod Probe
use ev_charge_controller.Prelude.{
  ℕ, ◌+◌, ◌*◌, Bool, true, false, Option, none, some, List, [], ◌∷◌, ℤ, pos, leb, leb_ℤ, ◌==◌,
  if◌then◌else◌,
}

pub data CircuitState : Type 0 where
  closed opened half_open : CircuitState

abbrev pub is_state : CircuitState → CircuitState → Bool
is_state closed closed = true
is_state opened opened = true
is_state half_open half_open = true
is_state _ _ = false

pub record CircuitBreakerConfig : Type 0 where
  pub failure_threshold : ℤ
  pub reset_timeout : ℤ

pub record CircuitBreaker : Type 0 where
  pub state : CircuitState
  pub failures : ℕ
  pub threshold : ℕ
  pub reset_timeout : ℕ
  pub last_failure_time : ℕ

abbrev pub default_failure_threshold : ℕ
default_failure_threshold = 5

-- 30 * time.Second
abbrev pub default_reset_timeout : ℕ
default_reset_timeout = 30 * 1000000000

-- A positive field, or its default.
abbrev positive_or : ℕ → ℤ → ℕ
positive_or d (pos n) = if n == 0 then d else n
positive_or d _ = d

unfoldable pub new : CircuitBreakerConfig → CircuitBreaker
new cfg = record {
  state = closed;
  failures = 0;
  threshold = positive_or default_failure_threshold cfg.failure_threshold;
  reset_timeout = positive_or default_reset_timeout cfg.reset_timeout;
  last_failure_time = 0;
}

transition_locked : CircuitState → CircuitBreaker → CircuitBreaker
transition_locked to cb = if is_state cb.state to then cb else record cb { state = to }

timeout_elapsed_locked : ℕ → CircuitBreaker → Bool
timeout_elapsed_locked now cb =
    if cb.last_failure_time == 0 then false else leb (cb.last_failure_time + cb.reset_timeout) now

-- The `switch` of ShouldBlock.
block_in : CircuitState → ℕ → ℕ → CircuitBreaker → CircuitBreaker × Bool
unfolding transition_locked timeout_elapsed_locked
block_in closed now later cb = (cb, false)
block_in opened now later cb =
    if timeout_elapsed_locked now cb
    then (record (transition_locked half_open cb) { last_failure_time = later }, false)
    else (cb, true)
block_in half_open now later cb =
    if timeout_elapsed_locked now cb
    then (record cb { last_failure_time = later }, false)
    else (cb, true)

-- `now` is read by the timeout test, `later` by the assignment that re-arms the clock.
unfoldable pub should_block : ℕ → ℕ → CircuitBreaker → CircuitBreaker × Bool
unfolding block_in
should_block now later cb = block_in cb.state now later cb

unfoldable pub success : CircuitBreaker → CircuitBreaker
unfolding transition_locked
success cb = record (transition_locked closed cb) { failures = 0 }

count_failure : ℕ → CircuitBreaker → CircuitBreaker
unfolding transition_locked
count_failure now cb =
    let counted = record cb { failures = cb.failures + 1 } in
    if leb cb.threshold counted.failures
    then record (transition_locked opened counted) { last_failure_time = now }
    else counted

unfoldable pub failure : ℕ → CircuitBreaker → CircuitBreaker
unfolding transition_locked count_failure
failure now cb =
    if is_state cb.state half_open
    then record (transition_locked opened cb) { last_failure_time = now }
    else count_failure now cb

unfoldable pub is_open : CircuitBreaker → Bool
is_open cb = is_state cb.state opened

pub data BreakerError : Type 0 where
  circuit_open : BreakerError

unfoldable pub err_open : CircuitBreaker → Option BreakerError
unfolding is_open
err_open cb = if is_open cb then some circuit_open else none

-- A call of one of the three methods that change state, with its clock readings.
pub data Call : Type 0 where
  asks : ℕ → ℕ → Call
  succeeds : Call
  fails : ℕ → Call

unfoldable pub step : CircuitBreaker → Call → CircuitBreaker
unfolding should_block success failure
step cb (asks now later) = (should_block now later cb).0
step cb succeeds = success cb
step cb (fails now) = failure now cb

unfoldable pub run : CircuitBreaker → List Call → CircuitBreaker
run cb [] = cb
run cb (c ∷ cs) = run (step cb c) cs
