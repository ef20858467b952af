-- ===== src/Policy.antt =====
-- runtime_policy.py: the runtime identity and the hardening policy of challenge containers.
pub mod Errors
pub mod Forms
pub mod Identity
pub mod Image
pub mod Endpoint
pub mod Daemon
pub mod Network
pub mod RateKey
pub mod Hardening
