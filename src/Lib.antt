-- ===== src/Lib.antt =====
-- A model of the core of ProxyCore's Go services, the control plane of a DNS and reverse proxy
-- appliance, and of what they guarantee.
--
-- An installation has a durable identity: a topology role (standalone, primary, primary with nodes,
-- node, stale primary), two leadership generations and a cluster key. Its service caches the stored
-- row and changes both together. Configuration revisions are applied by jobs, which a worker
-- claims, applies and finishes; the jobs are rows of a SQLite table, whose clock columns are texts
-- that sort as the times do. A node is enrolled by way of drafts, which a bounded cache keeps; what
-- the API stores of zones and proxies is validated first; a checker asks for newer releases.
--
-- Files and the code they model:
--   Jobs: apps/api/internal/worker/jobs/jobs.go, the life cycle of a job (Transition, IsTerminal).
--   Timestamp: apps/api/internal/sqlitedb/timestamp.go (EncodeTimestamp, DecodeTimestamp); a key is
--     a list of bytes, an int64 an integer in range, a uint64 a number below 2^64.
--   Identifiers: the ids of apps/api/internal/domain/identity.go (NewInstallationID, IsValid).
--   Topology: apps/api/internal/cluster/state.go and the roles and generations of
--     apps/api/internal/domain/identity.go (Transition, AllowedTransitions, Next).
--   Identity: apps/api/internal/identity. Identity.antt is types.go, Identity/Store sqlite_store.go
--     with the transaction of sqlitedb/write.go, Identity/Retire sqlite_topology.go,
--     Identity/Service service.go and topology.go, Identity/Enrollment enrollment.go.
--   Store: apps/api/internal/worker/store. Store.antt is job.go, Store/Patch and Store/Ops are
--     store.go, Store/Enqueue is enqueue.go, Store/Table the SQL on lists of rows.
--   Apply: apps/api/internal/worker/apply/apply.go. Apply.antt has the surfaces of the orchestrator
--     as a record of operations on a world, Apply/Phases the phases and the rollback, and
--     Apply/Attempt execute and Apply. Apply/Observed puts any surroundings behind a control that
--     writes down the requests it receives, so that what control is asked is read from its own log.
--   Drafts: apps/api/internal/enrollment/draft_cache.go, the cache of enrollment drafts (Put,
--     GetByID, GetBySelector, AttachPrimaryCA, AttemptSecrets, DeleteByID, Len) and its evictions.
--   Domain: apps/api/internal/domain. Domain/Names and Domain/Records are dns.go, Domain/Proxies
--     proxy.go, Domain/Forwarding the resolver pools, forwarding rules and stream routes of both,
--     Domain/Values the JSON values, Domain/Addresses what net.ParseIP accepts, Domain/Snapshots
--     snapshot.go (StableStringify, ChecksumSnapshot).
--   Update: apps/api/internal/update/checker.go. Update/Versions has the semantic versions, Update
--     the checker: lookup is its part before and its part after the call of the API.
--   Poller: apps/api/internal/worker/poller/poller.go (PollOnce) and ReconcileApplied of
--     worker/apply/apply.go, on Store and Apply together: a world is the tables and the rest.
--   Base holds the Boolean tests, lists, maps, texts, results and integers that the parts share;
--     Examples applies the theorems to concrete inputs.
--
-- A table is a list of rows, and a statement a function on it. A transaction keeps all changes of
-- its callback or none. Failures of the database are an input: a list says of the calls to come
-- whether they fail, and a transaction that fails anywhere inside is one that fails. The clock, the
-- fresh identifiers and encoding/json are inputs too. The mutex of the identity service makes each
-- method one step, so a history of calls is a list; so does the lock of the cache of drafts. A Go
-- map is an association list, and a text of the validators the list of its code points, with the
-- case tables of Unicode beyond ASCII as a parameter. The loop of evictions has as much fuel as the
-- cache has entries, and the loop over the groups of an IPv6 address 8, as many as there can be;
-- strconv.Itoa has 20 digits, more than an int64 needs. All other recursion is structural.
--
-- Not modelled: HTTP, TLS, Docker, files, rendering, migrations and cryptography, which are I/O
-- or library calls; the endless loop of the poller; the encoding of snapshot envelopes, which the
-- drafts only copy; the writing of candidate files; contexts and their cancellation; log lines;
-- the texts of errors; the zeroing of secrets; enrollment tokens and the bootstrap exchange; the
-- lease around the callback of a certificate renewal; overflow of the lease arithmetic in
-- RecoverStale.
pub mod Base
pub mod Jobs
pub mod Timestamp
pub mod Topology
pub mod Identifiers
pub mod Identity
pub mod Store
pub mod Apply
pub mod Drafts
pub mod Domain
pub mod Update
pub mod Poller
pub mod Examples
