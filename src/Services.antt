-- ===== src/Services.antt =====
-- src/*/service.ts and src/*/repository.ts: what the services of the aggregates have in common. Each of them
-- answers a command that it has recorded from its record, checks the authority, changes one entity and
-- commits the entity, an event and the record of the operation together.
pub mod Envelopes
pub mod Store
pub mod Calls
pub mod Replay
pub mod Emitted
pub mod Fields
pub mod Durable
pub mod Keyed
pub mod Publication
pub mod Samples
mod Tests
