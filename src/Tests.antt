-- ===== src/Tests.antt =====
-- Runs of the model on concrete inputs.
mod Breaker
mod Times
mod Charge
mod Slots
mod Money
mod Starts
mod Watch
mod Endings
mod Plugs
mod Carbon
mod Plans
mod Tables
mod Storing
