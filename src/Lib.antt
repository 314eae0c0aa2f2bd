-- ===== src/Lib.antt =====
-- Verification library of the charge controller: the Go server under api/ that starts, watches and
-- stops the charging of electric vehicles through smart plugs.
--
-- The parts of the program, how they interact, and the modules that model them:
--   Prelude, Float, FloatLaws, Fixed, Clock, Models: numbers, lists and tests, the arithmetic of
--     float64, Go's time, and the records of api/models. Every definition that computes with
--     float64 is over an instance of Float, and a law of float64 that a proof uses is
--     named in FloatOrder or FloatNonneg. Fixed is a concrete instance, for running the model.
--   Hhmm, Window: times of day as texts, and the window or deadline that they give on a day
--     (parseHHMM, formatTime, resolveWindow, resolveDeadline in api/services/schedule_service.go,
--     withinWindow in api/services/cost_calculator.go).
--   Optimizer: findOptimalStart and findBalancedStart, which choose a half-hour by the carbon
--     forecast. Activation calls them.
--   Estimate: api/chargeestimate/chargeestimate.go, how long a charge takes.
--   Energy: api/services/energy_calculator.go, how far a charge has come.
--   Cost: api/services/cost_calculator.go and validateTariff, what a charge costs.
--   CircuitBreaker: api/tasmota/circuitbreaker.go, which the plug client asks before a request.
--   Activation: CheckAndActivateAll of the ScheduleService and all that it calls. It reaches the
--     charge service through the record Services, as the Go code does through the interface
--     ChargeServiceAdapter, and its own state is the record Scheduler.
--   Plan: the estimates that the same file shows for a schedule. It reads Activation's services and
--     asks the Optimizer.
--   Schedules: the table of schedules (api/repository/schedule.go) and the requests that write it
--     (UpsertByPlugID and UpsertCarbonAware of the ScheduleService).
--   Sessions: the session table (api/repository/charge_session.go) and, in Sessions/Lifecycle,
--     the start, in Sessions/Stop the stop, in Sessions/Cancel the cancellation and the timeout,
--     and in Sessions/Change the change of the target and the deletion of a session
--     (api/services/session_lifecycle_service.go). Sessions/Scheduled fills Services with the
--     start, so the schedules run on the session table.
--   Monitoring: the checks of api/services/session_monitoring_service.go that stop, hold and resume
--     a session. They use Energy, Window, Optimizer and Sessions/Stop.
--   Readings: the storing of power readings by the same file.
--   Run: the operations of Sessions and Monitoring as the steps of one state machine.
--   Lwt: api/mqtt/lwt.go, which takes a plug offline and cancels its session, as a run of events, with
--     the configuration of a plug that comes online (api/services/plug_initializer.go).
--   Mqtt: the topics (api/mqtt/parser.go), the plug cache (api/mqtt/plug_cache.go), and the power
--     confirmations (api/mqtt/dispatcher.go and api/mqtt/publisher.go).
--   Manual: what api/services/charge_session_service.go does when a relay is switched by hand, with
--     the query of Lwt and the start and stop of Sessions.
--   Carbon: the caches of api/carbonintensity/carbonintensity.go.
--   Tests: runs of the model on concrete inputs.
--
-- A function that changes state takes the state and returns the new one. A pointer that may be nil
-- is an Option, an error is a constructor of a result type or `none`, and the clock, the database
-- identifiers and the answers of the plugs are arguments. Identifiers are numbers, with 0 for
-- the empty text. A Time counts nanoseconds from Go's zero Time.
--
-- Bounds and fuel: the loop of findOptimalStart runs once per half-hour from now's to the latest start,
-- and `rounds` is that number; that it is enough is part of the proof. ProjectPercent bisects 64
-- times, as the code does. Durations are not bounded by int64: the times of the program are far
-- below it. Subtractions of times are on ℕ where the code's guards make them non-negative or where
-- only the comparison with a later time uses the result; in Plan and Activation the latest start
-- is the end of the window less an estimated duration, which is far shorter than the time since
-- the zero Time.
--
-- Concurrency: a function that holds a lock is one step. The Run steps read and write without another
-- step in between, except that they may be given a session that was read before. The target check of a
-- session with a hold point or a target of 100% is not a step of Run: it writes a status without a
-- guard after a wait without the lock. In Lwt a timer runs out and its function runs as two steps, and in
-- Mqtt the message loop and the waiting publisher take separate steps, in any order.
--
-- Not modelled: network and file access, the decoding of JSON, SQL beyond the statements of the session table,
-- the schedule table and the readings, errors of the
-- database driver, passwords and tokens, notifications and log lines, and the web interface.
-- They decide nothing that the modelled code computes. The answers of the forecast service and
-- of the plugs are parameters.
pub mod Prelude
pub mod Float
pub mod FloatLaws
pub mod Fixed
pub mod CircuitBreaker
pub mod Hhmm
pub mod Clock
pub mod Window
pub mod Models
pub mod Energy
pub mod Optimizer
pub mod Estimate
pub mod Cost
pub mod Activation
pub mod Sessions
pub mod Monitoring
pub mod Run
pub mod Lwt
pub mod Mqtt
pub mod Manual
pub mod Carbon
pub mod Plan
pub mod Readings
pub mod Schedules
pub mod Tests
