-- ===== src/Lib.antt =====
-- The core of ONYX: the event store on SQLite with its transactional outbox and inbox, the two loops that
-- work on them, and the services of the aggregates.
--
-- Parts, and the files of the repository that they model:
--   Json, Json.Host            src/shared/canonical-json.ts, JSON values and the runtime that is a parameter
--   Contracts.Errors           src/contracts/errors.ts; a throw is the `err` of a `Result`
--   Contracts.Checks           src/contracts/validation.ts, lines 1 to 107
--   Contracts.Validation       src/contracts/validation.ts, lines 109 to 175
--   Contracts.Identifiers      src/shared/identifiers.ts, `uuidV7`
--   Sqlite.Table, Keys         SELECT, UPDATE, ORDER BY and keys, over tables that are lists of rows
--   Sqlite.Instants            the texts of instants by their place in the order of texts
--   Sqlite.StoredEvent         src/infrastructure/sqlite/database.ts, `storedEvent`
--   Sqlite.Outbox              database.ts, `claimOutbox`, `acknowledgeOutbox`, `rejectOutbox`
--   Sqlite.Inbox               database.ts, `claimInbox`, `completeInbox`, `releaseInbox`
--   Sqlite.Store               database.ts, `commit` and the queries of states, events and operations
--   Sqlite.Readiness           database.ts, `readiness`; in Standing what its counts are counts of
--   Dispatcher                 src/infrastructure/outbox/dispatcher.ts
--   Worker                     src/infrastructure/outbox/worker.ts
--   Processor                  src/infrastructure/inbox/processor.ts
--   Admission                  src/infrastructure/http/admission.ts, without the token bucket
--   HttpBody                   src/infrastructure/http/json-body.ts
--   Services                   what src/*/service.ts, repository.ts and sqlite-repository.ts have in common:
--                              `#authorize`, `#replay`, `#publish`, and the repositories in memory and on SQLite
--   Mission.Types              src/mission/types.ts, and `toMissionView` of src/mission/repository.ts
--   Mission.Payloads           src/mission/validation.ts
--   Mission.Repository         src/mission/repository.ts, the entities of the shared repository
--   Mission.Commands           src/mission/service.ts, what each command asks for, changes and publishes
--   Mission.Service            src/mission/service.ts, `execute`, `#replay`, `#loadForMutation`, `#publish`
--   Mission.Durable            src/mission/sqlite-repository.ts, and a mission as a JSON value
--   Work.Types, Payloads       src/work/types.ts, validation.ts, and `toTaskView` of src/work/repository.ts
--   Work.Commands, Service     src/work/service.ts
--   Work.Durable               src/work/sqlite-repository.ts, and a task as a JSON value
--   Reporting.Types, Payloads  src/reporting-evidence/types.ts, validation.ts, repository.ts
--   Reporting.Commands, Service
--                              src/reporting-evidence/service.ts
--   Reporting.Durable          src/reporting-evidence/sqlite-repository.ts, and a report as a JSON value
--   Application                src/api/application.ts, the two services on one SQLite store
--   Api                        src/api/query.ts; base64url is a parameter
--
-- Interaction: `commit` writes an aggregate, its event, the operation and the outbox row in one transaction;
-- the dispatcher claims outbox rows, publishes them, and acknowledges or rejects each; the processor at the
-- consumer's end claims a receipt of the inbox, handles the event, and completes or releases the receipt.
--
-- A service reads and writes through a repository, which its theorems take as a parameter with the laws
-- `IsRecording` and `IsKeyed`; the repository in memory and the one on SQLite meet them. The work service also
-- takes `requireMission` as a parameter, which the application fills with the mission service, and the
-- reporting service takes `requireSubject`, which is not modelled. The steps that the source repeats in each of
-- its command methods are one definition over the type of the command, with a table for what differs. The
-- worker calls the dispatcher, whose results are the inputs of its turns.
--
-- A transaction is a function from the tables to a result: an exception is an `err`, and leaves the tables
-- as they were. Each call of the database runs by itself, since it is synchronous and its transactions are
-- BEGIN IMMEDIATE; what interleaves is the sequence of calls, which is a list (`OutboxCall`, `InboxCall`).
-- What other workers do while a publication or a handler is awaited is a list of such calls, an input of the
-- model. Times are milliseconds, as naturals. Those that a clock gives are valid dates; the ends of leases and
-- the instants of retries are computed, and beyond `max_time`, the last time of a `Date`, they throw as
-- `toISOString()` does. The order of texts is that of times within the years 0 to 9999 only. JavaScript numbers
-- that the code checks to be integers are naturals. Every loop is structural, over rows or messages; there is
-- no fuel.
--
-- Not modelled: the defaults that `#load` of a service gives to the fields that an older state lacks (`??=` in
-- src/work/service.ts and its like), so a stored state has all its fields; the text of stored JSON (a column
-- holds the value, and `encode_mission` and its like stand for JSON.stringify and JSON.parse on a state), JSON.stringify, localeCompare,
-- node:crypto and Date.parse (the fields of `Host`), the columns that default to CURRENT_TIMESTAMP, SQLite
-- itself beyond its tables, keys and checks, and the other services, routes and tools of the repository.
pub mod Prelude
pub mod Json
pub mod Contracts
pub mod Services
pub mod Sqlite
pub mod Dispatcher
pub mod Processor
pub mod Mission
pub mod Work
pub mod Application
pub mod Worker
pub mod Api
pub mod Reporting
pub mod HttpBody
pub mod Admission
