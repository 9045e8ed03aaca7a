-- ===== src/Lib.antt =====
-- The backend of the inspection platform (Go, under backend/): the logic of its services as
-- functions on explicit state, and what they keep.
--
-- Parts. The service packages under backend/internal share one PostgreSQL database; a mobile client
-- collects inspections offline and sends them in batches. backend/internal/dict keeps the
-- dictionary of problem types and statuses and the versioned configuration, which clients pull by
-- ETag. backend/internal/sync ingests a batch in one transaction with a savepoint per item.
-- backend/internal/media hands out upload credentials, confirms an upload against the object store,
-- derives the smaller tiers in a worker and flags uploads that were never finished.
-- backend/internal/inspection starts and ends the sessions of a patrol. backend/internal/problem
-- keeps the problems and the append-only log of their processing. backend/internal/export builds
-- spreadsheets in a worker and streams the progress of a job. backend/internal/rbac binds users to
-- roles and roles to paths, and lets a request pass or not; backend/internal/user administers the
-- accounts; backend/internal/server limits the attempts to log in. backend/internal/auth opens
-- sessions with single-use refresh tokens that Redis holds.
--
-- Files.
-- - Common: tests on numbers and texts, lists, results, tables as lists of rows, unique and serial
--   keys, the order of a query. Common/Outcome holds `with_tx` and `with_savepoint`, the two
--   functions of backend/internal/platform/db/tx.go.
-- - Dict: backend/internal/dict. Defs has the rows and the text that is hashed (model.go), Repo one
--   function per statement (repo.go), Service one function per operation (service.go), Config the
--   configuration. Fresh has the contract between items and stored hashes, Items what a deletion
--   does, Config/History, Config/Etag and Config/RoundTrip the laws of the configuration.
-- - Sync: backend/internal/sync. Defs has the rows and results, Items the four handlers (Requests,
--   Inserts and Handlers below it), Batch the function `Process`; Sound and Keeps the integrity of
--   the tables, Isolation, Replay, Again and Results what the answers mean.
-- - Media: backend/internal/media. Keys has the object keys (keys.go), Defs the rows and the
--   capture states (state.go), Service the three operations of service.go, Worker the derivation
--   and the reaper (worker.go, reaper.go); Forward, Confirm, Replay and Derived what they keep.
-- - Auth: backend/internal/auth. Refresh has the store of tokens (refresh.go), Service login,
--   refresh, logout and the change of a password (service.go); SingleUse and Sessions what they
--   promise.
-- - Problem: backend/internal/problem. Defs has the rows and how they are read, Service the
--   operations that write, Queries those that read many rows (service.go); Audit and Runs the
--   processing log as an audit trail, Outcomes what a creation and an update report, Pages, Selected,
--   Scan and Logs what is read, Handlers the handlers (handler.go).
-- - Httpx: backend/internal/httpx. Paging has the page of a list query (pagination.go), Codes the
--   status of an error code (errors.go).
-- - Export: backend/internal/export. Defs has the job row and the filters (model.go), Service the
--   statements and the request (service.go), Builders the reports (build_problem.go,
--   build_inspection.go, build_projectstats.go), Worker the run of a job (worker.go), Stream the
--   events (sse.go); Keeps, Runs, Outcomes, Pages and Ends what they keep and how they end.
-- - Rbac: backend/internal/rbac. Rules has the table casbin_rule with the adapter (adapter.go) and
--   the enforcer (enforcer.go), Service the roles and permissions (service.go), Gate the middleware
--   (middleware.go); Exact and Access what an assignment leaves and who passes.
-- - Server: backend/internal/server/middleware. Limit has the limiter (ratelimit.go), Window its
--   bound.
-- - User: backend/internal/user. Accounts has the operations of service.go, Names the uniqueness of
--   names.
-- - Inspection: backend/internal/inspection. Defs has the rows and how they are read, Service the
--   start and the finish of a session, Queries the list and the trajectory (service.go), Runs what
--   a session has.
-- - Tests: the theorems at concrete states.
--
-- Correspondence. A Go method that runs SQL is a function from the tables to the tables and a
-- result; the constraints and indexes that a statement meets are written out from
-- backend/db/migrations. Columns that no modelled code reads, such as the time stamps of a row, are
-- left out. Errors of the database that no constraint explains are inputs: `fail i` says whether
-- the i-th call of an operation fails, so that a statement over all `fail` covers every error path.
-- Serial ids are natural numbers, and the rows of a table stand in the order of their ids, unless a
-- theorem says otherwise. Numbers that a client sends to the ingest are within the range of their
-- columns, and so is the version of a dictionary type, which SQL counts; the version of a
-- configuration, which the code counts on an `int32`, wraps around. UUIDs, instants and the bits of
-- a float are numbers.
--
-- Parameters. SHA-256 in hexadecimal is `digest`; the EWKB encoder and PostGIS's validity test are
-- `encode` and `valid_geom`; for media, the text of a UUID, `strings.ToLower`, the answers of the
-- object store and of the STS issuer, the image code and fresh UUIDs are parameters; for sessions,
-- the database's `lower`, bcrypt, the roles of the enforcer, the signer of access tokens and the
-- random source; for problems, the EWKB decoder; for inspections, the EWKB and JSON codecs,
-- `ST_MakeLine` and `ST_Length`, whose lengths are of a type of their own; for exports, the JSON
-- and time decoders, the spreadsheet library, the queue and the object store; for accounts, bcrypt
-- and the database's `lower` and `ILIKE`; for access, the token parser and the policy engine, whose
-- copy of the rules in memory is taken to agree with their table. A theorem that needs anything of
-- a parameter, such as that a new token is not the old one, says so.
--
-- Bounds. Every loop of the code is a recursion on a list, but for the paging loop of a report:
-- `write_pages` has one unit of fuel for each page, and `build_list` gives it one more than there
-- are rows, which is enough since every page but the last has rows. `digits_from` and
-- `decimal_from` take one step of fuel per digit and are given the number plus one, which is more
-- than its digits.
--
-- Not modelled: the handlers of the other packages and the routes, projects and tasks, the
-- statistics, the listings of the dictionary, generated code, thin wrappers of third-party clients,
-- the image code, the gaps that suppressed and rolled-back inserts leave in a sequence, and
-- concurrency between transactions, which the database isolates.
pub mod Common
pub mod Dict
pub mod Sync
pub mod Media
pub mod Auth
pub mod Problem
pub mod Export
pub mod Rbac
pub mod Httpx
pub mod Inspection
pub mod Server
pub mod User
pub mod Tests
