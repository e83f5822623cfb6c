-- ===== src/Contracts.antt =====
-- src/contracts: the canonical envelopes, their validation and the error codes.
pub mod Errors
pub mod Checks
pub mod Validation
pub mod Identifiers
