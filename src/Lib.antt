-- ===== src/Lib.antt =====
-- MDM: a mobile device management platform. This library models the core of its TypeScript
-- services: what they decide, what they write to the database, and what they answer.
--
-- The program's parts and the files that model them:
--   services/admin-api/src/db/schema.ts                    Schema
--   services/admin-api/src/middleware/error-handler.ts     Http
--   services/admin-api/src/services/dynamic-groups.ts      DynamicGroups (Rules, Membership)
--   services/admin-api/src/routes/groups.ts                Groups (Routes)
--   services/admin-api/src/routes/api-keys.ts              ApiKeys (Routes)
--   services/admin-api/src/middleware/auth.ts              ApiKeys (Authentication), Sessions (Store, Checks)
--   services/admin-api/src/middleware/rate-limiter.ts      RateLimiter (Window)
--   services/admin-api/src/middleware/sanitize.ts          Sanitize (Filter, Walk)
--   services/admin-api/src/routes/roles.ts                 Roles (Routes)
--   services/admin-api/src/routes/commands.ts              Commands (Service)
--   services/admin-api/src/services/device-service.ts      Commands (Service)
--   services/admin-api/src/routes/scim.ts                  Scim (Auth, Patches, Routes)
--   services/admin-api/src/services/auth-service.ts        Login (Tokens, Passwords, Service)
--   services/audit-service/src/services/siem-forwarder.ts  Siem (Forwarder)
--   services/audit-service/src/services/audit-service.ts   Audit (Query, Writing, Export, Partitions)
--   services/audit-service/src/subscribers/audit-subscriber.ts   Audit (Subscriber)
--   services/admin-api/src/routes/geofences.ts             Geofences (Routes, Handlers)
--   services/admin-api/src/services/ldap-service.ts        Ldap (Users)
--   services/report-service/src/services/scheduler.ts      Reports (Queue, Schedules)
--   services/report-service/src/routes/schedules.ts        Reports (Schedules)
--   services/report-service/src/jobs/report-worker.ts      Reports (Worker)
--   services/admin-api/src/services/policy-service.ts      Policies (Service)
--   services/admin-api/src/middleware/rbac.ts              Rbac (Cache, Permissions)
--   services/notification-service/src/services/webhook-service.ts  Webhooks (Delivery)
--   services/report-service/src/services/exporters/csv-exporter.ts  Csv (Exporter)
--   services/app-service/src/services/app-service.ts       Apps (Model, Service)
--
-- The group routes call the service of dynamic groups when a group is created, updated or
-- re-evaluated; every handler gets its caller from the authentication and answers through the
-- error handler. `requirePermission` fills the cache of permissions that the role routes clear, and
-- a logout revokes the sessions that the authentication asks for. The app service reads the
-- memberships that the group routes write. The audit subscriber writes its batches by the audit
-- service, and the routes for schedules keep the queue whose jobs the report worker takes.
-- The other files of a folder hold the lemmas and theorems on its model. Base is shared: Boolean
-- tests, lists over native numbers, results, texts as lists of UTF-16 code units, and tables.
-- Examples holds tests and concrete instances.
--
-- How code corresponds to definitions. A function or handler is a function with its name in snake
-- case, of its input and of the database (`Db T`), which gives its reply and the database behind
-- it. A handler starts behind its Zod schema, so bodies are records of parsed values; `undefined`
-- and `null` are told apart where the code does (`Given`). An exception is an error value, and the
-- writes before it stay. What is not code of this repository is a parameter: a table of PostgreSQL
-- is an interface (`Base.Table`) whose laws say how many rows each query finds after a statement,
-- the answer to a raw query is a function of the database and the text, and SHA-256, random parts,
-- ids and times are arguments. Redis is an interface that may lose entries (`Rbac.Cache`) or, where
-- the code keeps sets and expiring keys, tables of rows that hold the time of their expiry; its
-- commands run at the time that the code has read. Web tokens and password digests are interfaces
-- (`Login`), the queue of BullMQ and its parser of cron patterns are an interface (`Reports.Queue`), and an endpoint of a webhook is a function from the attempt to its answer. Tables kept
-- in lists meet the laws (`list_table-IsLawful`).
-- A statement on a table does not fail in the model unless a parameter says so or, for users of
-- SCIM, the unique index on their addresses. Handlers run one at a time: interleavings of two
-- requests are not modelled, save for the SIEM forwarder and the audit subscriber, whose flushes are
-- cut at their `await`.
-- Ids are numbers, of which the code only asks whether they are equal. Numbers of the code (depths,
-- versions, times) are far below 2^53, so they are natural numbers. Loops are structural recursion
-- over the lists that the code walks through; the attempts of a webhook run on fuel of
-- `MAX_RETRIES`, after which the last one has been made.
--
-- Not modelled: the user interface, the typed clients, the services in other languages, the channels
-- of notifications, the admin routes of single statements (compliance, certificates, enrollment,
-- kiosk), the reads that only page and sort, the groups and the history of a synchronization with
-- LDAP, and calls of libraries for SAML, OIDC, S3 and mail.
pub mod ApiKeys
pub mod Apps
pub mod Audit
pub mod Base
pub mod Commands
pub mod Csv
pub mod DynamicGroups
pub mod Examples
pub mod Geofences
pub mod Groups
pub mod Http
pub mod Ldap
pub mod Login
pub mod Policies
pub mod RateLimiter
pub mod Rbac
pub mod Reports
pub mod Roles
pub mod Sanitize
pub mod Schema
pub mod Scim
pub mod Sessions
pub mod Siem
pub mod Webhooks
