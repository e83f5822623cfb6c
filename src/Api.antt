-- ===== src/Api.antt =====
-- src/api/query.ts: the query parameters of the collections and histories, and the cursors of their pages.
pub mod Query
pub mod Cursor
pub mod Bounds
mod Tests
