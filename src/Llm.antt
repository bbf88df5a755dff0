-- ===== src/Llm.antt =====
-- backend/app/llm: the provider-independent LLM layer.
pub mod NetPolicy
pub mod Endpoints
pub mod Errors
pub mod Retries
pub mod Accounts
pub mod Routing
pub mod Management
pub mod Gateway
pub mod TaskBridge
