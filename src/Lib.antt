-- ===== src/Lib.antt =====
-- Verification of the multi-tenancy package of this repository (directory src).
--
-- The package gives an AdonisJS application tenants with plans, quotas and Stripe billing. A quota
-- is a counter in Redis that a Lua script raises within the limit of the tenant's plan. The plan
-- is chosen by the host, by a row of a table behind a cache, or by default. Stripe's webhooks
-- assign plans: the controller writes a ledger row and enqueues a job, the job fetches the event
-- and dispatches it to the handler of its type, and the handlers keep a mirror of subscriptions
-- and assign plans through the quota service. A request passes the tenant guard and the quota
-- middleware, which consumes from the quota service. Bootstrappers set up the context of a tenant
-- around a piece of work, and hooks run before and after the phases of its life. The tenant of a
-- request is resolved once, by a chain of resolvers that read the host, the path, headers or data,
-- and is looked up in the host's repository. Models whose rows share a table are scoped to the
-- tenant in context. Isolation drivers give each tenant a schema, a database or rows of shared
-- tables. Backups of a tenant are kept by retention tiers, and dumps are split into statements and
-- imported in one transaction. Tracked usage is collected in buckets and reported to Stripe in
-- batches. Webhooks of a tenant are delivered with retries, and users of a tenant may sign in
-- through an OpenID provider. An admin acts as a user of a tenant with a signed token of a session.
--
-- Parts and files:
--   Prelude: names of the standard library, Boolean tests, lists.
--   Store: a keyed store with its laws (a Redis keyspace, a table of the database, the cache), a
--     parameter of every model; Store/Memory is an instance.
--   Exceptions: src/exceptions. Exception is all that the code throws, M is code with a state that
--     may throw. Exceptions/Billing: billing_exception.ts.
--   Tenant: what src/types/contracts.ts says of a tenant.
--   Resilience: src/services/resilience_service.ts; run is `run`, with its try and catch.
--   Quota: src/services/quota_service.ts, its configuration and state. Quota/Plans: getPlanFor,
--     assignPlan, getAssignedPlan, clearAssignedPlan, getLimit, resolveStorageMode. Quota/Counters:
--     QUOTA_CONSUME_LUA, track, consume, check, getUsage, setUsage. Quota/Reset: reset, snapshot.
--     Quota/Enforcement, Consumption, Assignment, Resolution, Usage: the theorems.
--   Billing: src/services/billing and src/models/satellites, its data and state. Billing/Redaction:
--     redact.ts. Billing/Sync: syncSubscription of src/services/billing_service.ts.
--     Billing/Outcome, Dispatch: stripe_event_dispatcher.ts. Billing/Ledger:
--     src/jobs/process_stripe_event_job.ts, and retrieveEvent. Billing/Webhook:
--     src/controllers/stripe_webhook_controller.ts, and a run of deliveries, attempts and dead
--     letters. Billing/Frames, Lifecycle, Delivery, Attempts, Mirror, Replay, Dunning, Privacy: the
--     theorems.
--   Bootstrappers: src/services/bootstrapper_registry.ts, run_scoped is `runScoped`; Scope and
--     Registration: the theorems. Hooks: src/services/hook_registry.ts; Phases: the theorems.
--   Middleware/Guard: src/middleware/tenant_guard_middleware.ts and enforce_quota_middleware.ts;
--     Admission: the theorems.
--   Scoping: src/models/scoping.ts; act and fetch are what a caller does with a scoped model;
--     Isolation: the theorems.
--   Identifier: src/services/isolation/identifier.ts. Resolvers: src/services/resolvers, Builtins
--     the five resolvers and Registry the chain. Request: src/extensions/request.ts. Identifier/
--     Safety, Resolvers/Hosts, Request/Memo and Request/Legacy: the theorems.
--   Middleware/Routes: universal_middleware.ts, central_only_middleware.ts and
--     custom_domain_middleware.ts; Domains: the theorems. Middleware/RateLimit:
--     rate_limit_middleware.ts over the sorted sets of Redis; Window and History: the theorems.
--   Backup: src/services/backup_service.ts. Backup/Retention: backup_retention_service.ts; Plan,
--     Listed and Purge: the theorems.
--   SqlSplitter: src/utils/sql_splitter.ts, splitSqlStatements; Rounds: progress of the loop;
--     Segments: SQL described apart from the machine; Reading and Scripts: what is made of it.
--     SqlSplitter/Tagged: splitSqlStatementsTagged, with the blocks of COPY; Dumps: its theorem.
--   SqlImport: src/services/sql_import_service.ts; Rewrite: the change of the schema's name;
--     Postgres: the laws of the connection; Applied, Preview: the theorems.
--   Isolation: the names and configuration of src/services/isolation. Isolation/Connections: the
--     pool of connections; Drivers: schema_pg_driver.ts and database_pg_driver.ts; RowScope:
--     rowscope_pg_driver.ts; Registry: registry.ts. Identifiers, Names, Bound, Routing,
--     Separation: the theorems.
--   Metering: reportUsage of billing_service.ts and src/jobs/report_usage_batch_job.ts.
--     Metering/Bridge: src/listeners/usage_auto_bridge_listener.ts; Audit, Minutes, Batches: the
--     theorems.
--   Webhooks: src/services/webhook_service.ts; Backoff and Attempts: the theorems.
--   Sso: src/services/sso_service.ts; Callback: the theorems.
--   Impersonation: src/services/impersonation_service.ts; Sessions: the theorems.
--   Memory, Samples and Tests modules: instances of the interfaces, and the theorems on concrete
--     inputs.
--
-- Correspondence: a method is a function on the World of its component, of the environment Env
-- (configuration, clock, what Redis, Stripe and the queue answer). A promise that rejects is a
-- throw, and what was written before stays written. Numbers are natural numbers without a bound;
-- `Infinity` as a limit is the constructor infinite. Times are instants, in seconds for billing,
-- in milliseconds elsewhere, and stored times are in one zone. Recursion is on lists, strings and
-- counts, and on fuel in three places: the loop of the splitter has a round for each code unit of
-- the text, since each round reads one or more; the retries of webhooks have ten chunks of ten
-- deliveries, since the query takes a hundred at most; the printing of a number in decimal has a
-- step for each unit of it and uses one for each digit.
--
-- Redis answers a call in one of four ways: the package is absent, the command works, the
-- connection fails before the command, or after it was applied (lost). The pipeline of the rate
-- limit may also have each of its commands answered with an error. PostgreSQL makes an identifier
-- of the name of a schema or a database, which it may cut.
--
-- Not modelled: failures of the database where a file does not say so, failures of the cache of
-- plans, the lifetime of cache entries, two jobs on one event at the same time, log lines other than those that report trouble,
-- and the parts of the package that have no file above: the clone service, the circuit breaker,
-- read replicas, redirects between domains, health and metrics, the admin API and the commands,
-- the customers and the checkout of the billing service, the migrations of the drivers and the
-- driver for tests in SQLite, and the receiver's side of a webhook's signature. The conditions of a
-- query on a scoped model are joined by `and`. The instant of a request is both score and name of
-- its member in a sorted set. Message texts of exceptions are shortened where they name ids.
pub mod Prelude
pub mod Store
pub mod Exceptions
pub mod Tenant
pub mod Resilience
pub mod Quota
pub mod Billing
pub mod Bootstrappers
pub mod Hooks
pub mod Metering
pub mod Middleware
pub mod Scoping
pub mod Identifier
pub mod Isolation
pub mod Resolvers
pub mod Request
pub mod Backup
pub mod SqlSplitter
pub mod SqlImport
pub mod Impersonation
pub mod Webhooks
pub mod Sso
