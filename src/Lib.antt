-- ===== src/Lib.antt =====
-- ZeroAgent-Scan (EndpointGuard): an agentless scanner of endpoints. A gateway in the customer's
-- network leases host tasks from the API's job queue, probes the hosts, and reports; the API stores
-- the results, evaluates compliance rules on a host's snapshot, compares it to the snapshot before,
-- and alerts. Users sign in with token pairs, and roles decide what they may do.
--
-- Parts, and the files that model them (paths from the repository's root):
--   Queue             apps/api/internal/queue/job_queue.go. The queue is a record of two maps; each
--                     method is a function from queue to queue (`EnqueueJob` is `enqueue_job`,
--                     `LeaseBatch` `lease_batch`, `CompleteTask` `complete_task`, `FailTask`
--                     `fail_task`, `ReclaimExpiredLeases` `reclaim_expired_leases`, `GetJob` `get_job`).
--                     The mutex makes a method one step. Entries has the records, the
--                     children Bounds to Protocol the proofs; Protocol states the queue as
--                     the gateways use it, a step relation.
--   Auth.Roles        apps/api/internal/auth/rbac.go: the table of permissions and its queries.
--   Auth.Store        apps/api/internal/auth/repository.go: the in-memory store. Three Go maps hold
--                     pointers to one session, so the sessions stand in a heap and the maps hold
--                     addresses. Index is the agreement of maps and heap.
--   Auth.Sessions     apps/api/internal/auth/session.go: `IssueTokenPair` is `issue_token_pair`,
--                     `RefreshToken` `refresh_token`, which uses the store. Rotation has its proofs.
--   Auth.Tokens       apps/api/internal/auth/jwt.go: `GenerateToken` is `generate_token`, `VerifyToken`
--                     `verify_token`, over JSON, base64 and HMAC as parameters. Signed has the proofs.
--   Auth.Guards       apps/api/internal/auth/middleware.go and stepup.go: each guard is a function from
--                     the request and its context to a denial or the context that it passes on.
--   Server            apps/api/cmd/server/main.go: the table of the protected routes, and `serve`, the chain
--                     of guards over Auth.Guards and the rate limit of Middleware. Access and Fallback
--                     have the proofs.
--   Compliance        apps/api/internal/compliance: Values and Logic are jsonlogic.go (`evalNode` is
--                     `eval_node`, `applyOperator` `apply_operator`), Engine and Hosts engine.go and
--                     the host part of repository.go. `evaluate_host` evaluates each rule by
--                     `evaluate_expression` and saves the result by `save_evaluations`.
--                     Catalog has the frameworks and the rules of repository.go, Summary its
--                     `GetTenantSummary`. Connectives, Paths, Scoring, Catalog.Listed and
--                     Summary.Tenants have the proofs.
--   Fleet             apps/api/internal/repository: the shared store of the API behind one mutex
--                     (repository.go, keyset.go). Records is its state, a record of maps and the
--                     audit log; Tiers has the endpoints and their rollout tiers, Snapshots the host
--                     snapshots, Jobs the scan jobs with the simulated scan and `CancelScanJob` of
--                     apps/api/internal/handlers/handlers.go, Audit the log and the health of the
--                     alerts, Queries the read methods. Cursors is `EncodeCursor` and `DecodeCursor`,
--                     Paging the algorithm that `ListSnapshotsKeyset` and `ListAuditLogsKeyset` share
--                     (`list_keyset`). Their children have the proofs; Refinement states the
--                     snapshots as a function from IDs.
--   Retention         apps/api/internal/retention/engine.go, a client of Fleet: Buckets groups the old
--                     snapshots of a host by week, Retention has the two loops, Execution is `Execute`
--                     and DryRun `DryRun`. Recent, Archival, Latest and Checkpoints are proofs, as are
--                     Forecast and, on the orders and the sums that it is about, Orders and Numbers.
--   Middleware        apps/api/internal/middleware/ratelimit.go: a bucket of tokens for each client, `Allow`
--                     is `allow`, a round of `cleanupLoop` `cleanup`. Tokens are counted exactly. Budget,
--                     Passed and Waiting have the proofs.
--   Drift             apps/api/internal/drift: Snapshots (of apps/api/internal/models/snapshot.go),
--                     Differ and Sections are differ.go (`DiffSnapshots` is `diff_snapshots`), Alerts
--                     is alerts.go. The events of the differ are what the alert rules match.
--                     Coverage and Losses have the proofs on the differ.
--   Vulnscan          apps/api/internal/vulnscan: Versions is `CompareVersions` of matcher.go, Ranges
--                     `checkVersionBounds`, `ParseCPE23String` and `MatchesCPE`. Findings is the store of
--                     findings in repository.go, two maps of addresses in a heap (`UpsertFinding` is
--                     `upsert_finding`), Findings.Queries its `QueryFindings`; Index, Upsert, Ranking,
--                     Answers and Complete have the proofs. Feeds has the caches of repository.go, Cpes is
--                     cpe.go (`ExtractHostCPEs`; Printed proves that its texts read back), Engine
--                     `ScanSnapshot` of engine.go over all of these, Seen, Flags and Paired its
--                     proofs.
--   Scanner           apps/gateway/internal/scanner: Limiter is ratelimiter.go, each half of `Acquire`
--                     and `Release` a step that others can come between; Retries is the part of
--                     workerpool.go that tries one host (`processTaskWithRetry`,
--                     `calculateBackoff`), and Attempts has the proofs. Pool is `Execute` and
--                     `workerRoutine` of that file, a step for each operation on a channel;
--                     Accounts has the proofs on the results, Progress those on the bounds and the
--                     return, Cancelled those on a feeder that goes at `ctx.Done()`, and Totals the
--                     sums that they use.
--   Prelude           helpers: integers, maps as association lists, lists, Boolean tests, and Go's
--                     `strings` and `strconv` as far as the sources call them.
--   Examples          tests on concrete inputs, and the theorems applied to such inputs.
--
-- Conventions. The clock, the keys that `uuid` and `crypto/rand` draw, the order in which Go runs
-- through a map, and the code of other packages (JSON, hashing, signing, the probe of a host,
-- `float64`) are parameters, where a law of theirs is needed as a record that has it (base64 in
-- Fleet.Cursors). A Go map is an association list, which a deleted key of some maps stays in with
-- `none`. A nil pointer is `none`. Where what a theorem says could depend on the order in which a call
-- runs through a map, that order is an argument of the call (`order` in Queue, Fleet.Snapshots,
-- Retention and Compliance.Summary) and the theorem is for every order; elsewhere it is that of the
-- association list, which is arbitrary; `sort.Slice` of Retention is a parameter, of which a theorem
-- assumes that it reorders, or that it sorts. Errors are constructors or the text of the error. Times
-- and durations are integers of nanoseconds; only the backoff of the worker pool is computed modulo
-- 2^64, the other numbers are not bounded, but a cursor holds an instant of 64 bits. `ToLower`,
-- `ToUpper` and `TrimSpace` know ASCII only. Amounts that Go holds as `float64` and that have a unit
-- are counted in it: the tokens of a bucket in Middleware, CVSS scores in tenths.
--
-- Fuel. `attempts` of Scanner.Retries has the number of rounds left as fuel, which
-- `process_task_with_retry` sets to one more than the retries, the number of rounds of the Go loop. The
-- digits of n are printed with n + 1 units, the sort by exchanges takes one round for each item, and
-- `walk` of Fleet.Paging.Walk one page more than there are items. All other functions are structural
-- recursion.
--
-- Not modelled: network and database access, HTTP handlers, the other middleware, cryptography,
-- configuration and metrics; the clients and the worker of vulnscan; the one-time passwords and
-- the sign-in of auth; the store of drift events; readiness; the seed data; the dashboard.
pub mod Prelude
pub mod Queue
pub mod Auth
pub mod Server
pub mod Compliance
pub mod Scanner
pub mod Fleet
pub mod Retention
pub mod Middleware
pub mod Drift
pub mod Vulnscan
pub mod Examples
