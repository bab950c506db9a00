-- ===== src/Tests.antt =====
-- Small runs of the models, and the theorems applied to concrete inputs.
mod Data
mod Cpus
mod Rules
mod Cached
mod Rates
mod Reported
mod Edits
mod Served
mod Added
mod Rounds
mod Started
