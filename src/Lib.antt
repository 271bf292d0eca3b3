-- ===== src/Lib.antt =====
-- A verification library for the session, login, audit and access core of the backend.
--
-- The program is an Express service on PostgreSQL (Prisma) and Redis. This library models the code
-- that decides who is logged in, for which tenant and may do what, the audit trail, and the guards
-- on outside calls.
--
-- - Prelude: numbers, lists, options and Boolean tests that all parts share.
-- - Auth.Data is the state: the tables of prisma/schema.prisma that src/modules/auth works on, the
--   outgoing email jobs and audit rows, the errors and their status codes. UUIDs, raw tokens, hashes
--   and signed tokens are numbers that are only compared; times are milliseconds. Auth.Monad threads
--   the state through calls that may throw.
-- - Auth.Users and Auth.Repository: src/modules/users/user.repository.ts,
--   src/modules/auth/auth.repository.ts and src/shared/utils/token-blacklist.ts, a function for each
--   statement on the database.
-- - Auth.Refresh, Auth.Sessions, Auth.Recovery, Auth.Login: src/modules/auth/auth.service.ts.
--   Auth.Mfa: mfa.service.ts and mfa.repository.ts beside it.
-- - Auth.Interleaving: `refresh` cut at its awaits, with any number of requests, logins and
--   revocations in any order. Auth.History: whole calls, one after the other. Auth.Families has the
--   invariant of the session table, Auth.TableSteps and
--   Auth.RevocationSteps how each call changes that table.
-- - LoginAttempts: src/shared/security/login-attempt-tracker.ts, in memory and on Redis.
-- - UserAgent: src/shared/utils/user-agent.ts.
-- - AuditChain: src/modules/audit/audit.repository.ts, the hash chain of the audit log. The loop of
--   the verification runs on fuel; as many turns as there are rows are enough on any table.
-- - Breaker: src/shared/reliability/circuit-breaker.ts, with calls that overlap.
-- - Access: src/shared/security/permissions.ts and the guards that use it.
-- - Reliability: src/shared/reliability/bulkhead.ts, retry.ts and idempotency.middleware.ts, the last
--   cut at its awaits and on the lock of the next part.
-- - Lock: src/shared/concurrency/distributed-lock.ts.
-- - Cache: src/shared/utils/cache.ts. The value that a read would fetch is an argument.
-- - Gate: how a request enters. Gate.Request: src/shared/middlewares/auth.middleware.ts,
--   src/shared/tenant/tenant.middleware.ts and src/shared/utils/jwt.ts; it calls Gate.Keys
--   (src/modules/api-keys), Gate.Tenants (src/modules/tenants and src/shared/tenant) and Gate.Limits
--   (src/shared/security/api-key-gateway.ts, rate-limit-tiers.ts). Its state is the database of
--   Auth.Data with the tables of keys and tenants, and Redis. Gate.Blacklist has the job that cleans the
--   blacklist.
-- - Export: src/shared/utils/export.ts, the text of a CSV file, and a reader for it.
-- - Outbound: src/shared/security/ssrf-guard.ts. The parser of URLs and the lookup of names are
--   arguments.
-- - Federation: logins that others vouch for. Federation.Oauth: src/modules/auth/oauth.service.ts,
--   Federation.Sso: sso.service.ts and sso.repository.ts. The state is the database of Auth.Data with
--   the tables of links and connections, and the one-time keys in Redis. Google, GitHub, openid-client
--   and Redis are arguments.
-- - Pagination: src/shared/pagination.ts, with skip and take on a list.
-- - Products: src/modules/products. The state is the tables of products and upgrade logs, and what
--   goes out: cleared caches of lists and webhooks. Products.Races cuts an upgrade between its read
--   and its update.
-- - ExportJobs: src/modules/exports. What a run of a job makes is an argument.
--
-- What a call draws from outside is an argument: `Env` has the clock, read once per call, and the
-- random values; `Crypto` has sha256, bcrypt, jsonwebtoken, the cipher of secrets and otplib; `Redis`
-- has the commands of the tracker, each of which may fail. But for the loop above no fuel
-- is used: definitions are structural, and a request of Auth.Interleaving ends after at most five
-- steps.
--
-- Not modelled: the routers and the rest of the middleware chain, which is wiring of Express; the
-- services for events, users and privacy, which mostly pass queries on to Prisma; timeouts, whose
-- timers run beside the call; the tags of src/shared/cache/cache-manager.ts; queues, mails, webhooks
-- and whatever else only calls a service outside; the datasets and renderers of exports; the
-- transaction of a tenant's request, but for what its abort undoes of an export, and the row-level
-- policies of PostgreSQL behind it. Email jobs and audit rows are taken to be written.
pub mod Prelude
pub mod UserAgent
pub mod LoginAttempts
pub mod Auth
pub mod Breaker
pub mod AuditChain
pub mod Access
pub mod Reliability
pub mod Lock
pub mod Cache
pub mod Gate
pub mod Federation
pub mod Pagination
pub mod Products
pub mod ExportJobs
pub mod Export
pub mod Outbound
