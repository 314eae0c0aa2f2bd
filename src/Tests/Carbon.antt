-- ===== src/Tests/Carbon.antt =====
-- A run of the carbon client: an intensity is fetched, served from the cache, and fetched again.
use ev_charge_controller.Prelude.{ℕ, ◌+◌, ◌*◌, none, some, List, [], ◌∷◌, arith, All}
use ev_charge_controller.Clock.{Time, second, minute}
use ev_charge_controller.Carbon.{Client, Call, Ask, current, forecast, serve_all}
use ev_charge_controller.Carbon.Freshness.{IsServed, serve_all-IsServed}
use ev_charge_controller.Tests.Slots.{now, today}

abbrev call_at : Time → Call
call_at t = record { now = t; answered = t + second }

abbrev asks : List (Call × Ask)
asks =
    (call_at now, current)
    ∷ (call_at (now + minute), current)
    ∷ (call_at (now + 40 * minute), current)
    ∷ (call_at (now + 41 * minute), forecast now (now + 60 * minute))
    ∷ []

abbrev empty : Client ℕ
empty = record { cached = none; forecast_cached = none }

serve_all-IsServed_example :
    All
      (IsServed (λ t. some t) (λ t. some ev_charge_controller.Tests.Slots.forecast))
      (serve_all (λ t. some t) (λ t. some ev_charge_controller.Tests.Slots.forecast) asks empty)
serve_all-IsServed_example =
    serve_all-IsServed (λ t. some t) (λ t. some ev_charge_controller.Tests.Slots.forecast) asks
      (
        (omega arith, omega arith),
        (
          (omega arith, omega arith),
          ((omega arith, omega arith), ((omega arith, omega arith), tt)),
        ),
      )
