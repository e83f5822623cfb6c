-- ===== src/Work.antt =====
-- src/work: the tasks of a mission, their life and their dependencies, and the service that runs their commands.
pub mod Types
pub mod Payloads
pub mod Durable
pub mod Commands
pub mod Service
