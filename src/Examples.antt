-- ===== src/Examples.antt =====
-- Tests of the components on concrete inputs, and each theorem at an input that meets its
-- hypotheses.
mod Signals
mod Routes
mod Throttling
mod Deliveries
mod Alerts
mod Grouping
mod Clients
mod Chains
mod Places
mod Stores
mod Waiting
mod Hidden
mod Configs
