-- ===== src/Lib.antt =====
-- The compliance backend DPDPOS: a verification library for its core workflows.
--
-- The program (src/ of the repository) is an Express API with background workers over PostgreSQL.
-- Each module of src/modules has a service, which checks a request and runs a transaction, and a
-- repository, which builds the queries; a service announces what it did by rows of the outbox
-- table, written in the same transaction, from which a relay feeds the workers. A violation that
-- is created so leads to a remediation task; both live through a state machine of statuses, and
-- both are written under an optimistic lock.
--
-- Files:
--   Prelude      shared notation, lists, texts as sequences of UTF-16 code units, dates as
--                milliseconds, fields of an update that are left out, null or given, and doubles
--                (Doubles).
--   Shared       src/shared: application errors (errors/app-error.ts, error-map.ts), the request
--                context, tenant conditions (repository/base.repository.ts); the transaction
--                manager (src/infrastructure/database/transaction-manager.ts); lookups of users; the
--                permissions and system roles (constants/permissions.ts in Permissions), the guard of
--                routes and the check of role permissions (Guards), and what they let through
--                (Catalog, Presets).
--   Database     the client of the database as an interface with the laws that it documents
--                (Table), one table per Prisma model that the services use (Prisma), the
--                conditional write of the optimistic lock (Versioned), reads held to a tenant
--                (ByTenant), and a table kept as a list (ListTable, Rows), which shows that the
--                laws can hold and on which everything runs.
--   Outbox       src/events: names of events, payloads and the writer of outbox rows (Events), claims
--                and marks of rows (Claims), and a tick of the relay (Relay); then proofs: Locks,
--                Delivery, and over any sequence of operations Attempts and Exclusion. ListQuery
--                chooses rows of an outbox that is a list.
--   Remediation  src/modules/remediation: Lifecycle (the state machine), Types (records, requests,
--                responses), Repository, Inputs (what an operation computes without the database)
--                and Service (the operations); then proofs: Writes, Effects and Creation (what one
--                operation does to the task table), Runs (requests one after another, on what
--                their checks read before), Verification, Dedupe, Deliveries, Redelivery, Locking
--                and Graph.
--   Violations   src/modules/violations in the same files; Closing has the two ways to CLOSED.
--   Rights       src/modules/rights: the state machine with the deadlines, the records, the
--                repository and the service of requests; Resolution has what closed requests carry.
--   Assessments  src/modules/assessments: the library of controls (Controls), the engine that rates
--                them (Engine, Control) and scores them (Evaluation), and in Questionnaire the
--                questions of every stage and industry, their stages (Catalog) and the check of
--                required answers (Answers); then proofs: Corroboration, Score, Grouping, Required.
--   Validations  src/modules/validations: the rules and their registry, and what outcomes mean.
--   Framework    src/modules/framework/domain/templates.ts: the templates, their selection for a profile
--                (Selection), what a selection holds together (Links), and the roadmap (Roadmap).
--   Evidence     src/modules/evidence/domain/evidence-lifecycle.ts.
--   Vendors      src/modules/vendors/domain/risk-calculator.ts (Scorecard) and its bounds (Bounds).
--   Examples     a database of lists on which the theorems are applied, and tests.
--
-- Names follow the source in lower case with underscores: `createFromViolationCreated` is
-- `create_from_violation_created`; `create`, `update` and `close` of a service are `create_task`,
-- `update_task`, `close_task` and `create_violation`, `update_violation`, `close_violation`. An
-- asynchronous function that may throw is a function into `Result`, with the state threaded
-- through it. The services read outside the transaction in which they write, so that an operation
-- takes two states: the one that its checks read and the one that its transaction meets. `Run` in
-- Remediation.Runs is a sequence of requests that keeps the states it has been in: the checks of a
-- request read any one of them, its transaction meets the last one, so that the spans between checks
-- and transaction may nest or cross. All checks of a request read the same state. A transaction that
-- throws leaves the state as it was. What an operation takes from the clock and the generator of
-- identifiers is an argument, `Call`; one operation takes one time for all its calls of `new Date()`.
--
-- Fuel: `decimal`, which writes a number in digits, has n + 1 rounds for n, which are enough since
-- each divides by ten; `scale_from`, which looks for the scale of a double, has 1074 doublings, which
-- are all that the exponent of a double allows.
--
-- Parameters: which rows a claim of the outbox takes, where it may take several or another session
-- holds some, is the choice of the database (`OutboxQuery`, with the laws that SELECT ... FOR UPDATE
-- SKIP LOCKED documents), the event bus is a function from a claimed event to an error or none, and
-- which calls of the database throw in a tick of the relay is a parameter too (`Faults`). The clock of
-- the application and that of the database are two numbers (`Clock`). Shares that the source computes
-- with floating point are computed with doubles (Prelude.Doubles: those not negative and below 2^53,
-- rounded to the nearest, a tie to the even one); a confidence, which is only read, is a number of
-- millionths.
--
-- Not modelled: log lines, HTTP, validation of request bodies (the request types hold what the
-- schemas let through), authentication, the queue and the registration of workers, the regular
-- expressions that find the key of an industry in free text (the key is given), the erasure workflow
-- of src/modules/rights, the services of src/modules/assessments and src/modules/validations around
-- the engine and the rules, and the modules of the program that no file above names. Ordering of a
-- listing is the client's.
pub mod Examples
pub mod Prelude
pub mod Shared
pub mod Database
pub mod Outbox
pub mod Remediation
pub mod Violations
pub mod Rights
pub mod Vendors
pub mod Validations
pub mod Assessments
pub mod Framework
pub mod Evidence
