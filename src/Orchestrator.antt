-- ===== src/Orchestrator.antt =====
-- backend/app/services/orchestrator.py: the life of a task, from its submission to its end.
pub mod Classifier
pub mod State
pub mod Dispatch
pub mod Submit
pub mod Leases
