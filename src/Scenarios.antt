-- ===== src/Scenarios.antt =====
-- Concrete monitors, queues and executions.
mod Machines
mod Engines
mod Queues
mod Executions
mod Helpers
mod Rollbacks
