-- ===== src/Workflow.antt =====
-- backend/app/services/workflow.py and the definitions of backend/app/schemas/workflow.py.
pub mod Template
pub mod Definition
pub mod Execution
pub mod Runs
pub mod Entry
pub mod Leases
