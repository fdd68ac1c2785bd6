-- ===== src/Lib.antt =====
-- The API service of Xpace (services/api): a workspace service for meetings, chat and files, with
-- role administration, incident management and billing. It is one Go package,
-- services/api/internal/httpapi, of HTTP handlers over a PostgreSQL database, and a few background
-- workers. A handler checks the caller's permission, reads its input, and runs one transaction.
--
-- How it is modelled. The tables that a component reads and writes are a record of lists of rows, and
-- a handler is a function from that record to its answer and the record it leaves. Times are natural
-- numbers, and the clock and the identifiers that the database generates are arguments. Which calls
-- of the database fail is the argument `down`, a test on a short name for each statement, so that a
-- theorem over all `down` is about every point at which a connection can be lost; a failure before
-- the commit leaves the tables as they were, as the deferred rollback does. Constraints of the schema
-- (services/api/migrations) are written where a statement can violate them. UUIDs are natural numbers.
-- Code of other packages is an argument: the hash functions, JSON decoding, the calendar.
--
-- The modules:
--   Prelude     lists, texts and Boolean tests that all parts share
--   Http        answers, the caller, the audit log: helpers.go, audit.go, roles.go, auth.go
--   RateLimit   the request limiter in front of every handler: security.go
--   Rbac        roles, custom roles and `hasPermission`, which all handlers ask: roles.go, rbac.go
--   Incidents   incidents of a workspace: incidents.go (Incidents, Incidents.Edit); alerts that open and resolve them:
--               alertmanager_webhook.go (Incidents.Alerts); the worker that escalates those nobody
--               acknowledged: incident_escalation_worker.go (Incidents.Escalation)
--   Billing     subscriptions and invoices: billing.go (Billing, Billing.Webhook,
--               Billing.Cancellation), billing_xendit_webhook.go (Billing.Xendit), and the test of a
--               running subscription in plans.go (Billing.Period)
--   Meetings    participants of a meeting: moderation, leaving, and the rounds that compare them with
--               the realtime server: participants.go, realtime_moderation.go, lifecycle.go
--               (Meetings), and participants.go again (Meetings.Presence)
--               The worker that ends meetings longer than the plan allows:
--               meeting_duration_worker.go (Meetings.Duration)
--   Auth        signing in and out: auth.go (Auth), sessions.go (Auth.Sessions), the signed cookie:
--               token_signing.go (Auth.Tokens), the second factor: mfa.go (Auth.Totp, Auth.Mfa), and
--               password hashes: services/api/internal/auth/password.go (Auth.Passwords)
--   Governance  retention policies, legal holds and the run that applies them: governance.go
--               (Governance, Governance.Retention), governance_worker.go (Governance.Worker)
--   Chat        the hub that passes the events of a conversation on: chat_hub.go
--   Drive       files and folders: drive.go (Drive), their versions (Drive.Versions), and the removal
--               of deleted files, which governance and the listing of the drive call (Drive.Cleanup)
--   Recordings  recording a meeting: recordings.go (Recordings, Recordings.Control), under the policy
--               of meeting_policy.go (Meetings.Policy)
--   Plans       the entitlements of a plan and the quotas: plans.go
-- Handlers have the names of the Go functions in snake case. No definition uses fuel: the loops of
-- the code run over lists, and so do those of the model.
--
-- Not modelled: handlers that only read; creating and joining a meeting, the handlers of
-- chat, SCIM, OIDC, onboarding and data exports; the web client; texts of notices, metadata of audit
-- events, and columns that no modelled code reads.
pub mod Auth
pub mod Billing
pub mod Chat
pub mod Drive
pub mod Governance
pub mod Http
pub mod Incidents
pub mod Meetings
pub mod Plans
pub mod Prelude
pub mod RateLimit
pub mod Rbac
pub mod Recordings
