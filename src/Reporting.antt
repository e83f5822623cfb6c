-- ===== src/Reporting.antt =====
-- src/reporting-evidence: the reports on a subject, the evidence that they gather, and their review.
pub mod Types
pub mod Payloads
pub mod Durable
pub mod Commands
pub mod Service
