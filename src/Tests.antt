-- ===== src/Tests.antt =====
-- Runs of the models at small inputs, and the theorems applied to such inputs.
mod Throttle
mod Llm
mod Routes
mod Workflow
mod Leases
mod Login
mod Orchestrator
mod NetPolicy
mod Accounts
mod Bridge
mod Scheduler
mod Chunks
