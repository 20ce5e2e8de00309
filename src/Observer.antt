-- ===== src/Observer.antt =====
-- adapters/mesh_llm.py: the observation of a status endpoint, which grants no authority.
pub mod Payload
pub mod Project
pub mod Timeout
pub mod Url
pub mod Observe
pub mod Readers
pub mod Escapes
pub mod Boundary
pub mod Endpoint
pub mod Unread
