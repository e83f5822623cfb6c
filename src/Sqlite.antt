-- ===== src/Sqlite.antt =====
-- src/infrastructure/sqlite/database.ts: the tables of the store and the transactions over them.
pub mod Table
pub mod Keys
pub mod Instants
pub mod StoredEvent
pub mod Outbox
pub mod Inbox
pub mod Store
pub mod Readiness
