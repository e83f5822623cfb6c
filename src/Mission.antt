-- ===== src/Mission.antt =====
-- src/mission: the missions of an organization, their life as a state machine, and the service that runs
-- its commands.
pub mod Types
pub mod Payloads
pub mod Repository
pub mod Durable
pub mod Commands
pub mod Service
