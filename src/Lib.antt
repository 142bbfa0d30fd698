-- ===== src/Lib.antt =====
-- Vibefy assesses applications against a published rubric, certifies those that pass, watches them
-- afterwards, and sells the assessments. This library models the parts of its TypeScript that
-- decide: what an application scores, when a badge is given, suspended or restored, whether an
-- assessment may run and at what cost, which requests a run may send to somebody else's server, and
-- what has to be deleted or answered by when.
--
-- How the parts work together. A run of the engine sends each request through the scope guard
-- (Engine.Scope) and pays for each model call out of its cost meter (Engine.Cost). Its findings are
-- scored by the rubric (Rubric.Scoring), against a definition that the registry has validated
-- (Rubric.Registry). An organisation may hold the result against its own bar (Policy). Later
-- results are compared with earlier ones (Monitoring.Drift), and the comparison decides whether a
-- badge comes down (Monitoring.Regression). Between assessments the worker asks each certified
-- address whether it still answers (Monitoring.Liveness, Monitoring.Liveness.Sweep), as often as
-- the plan says (Monitoring.Schedule). The plan is what has been bought
-- (Billing.Entitlements.Plan), and it decides whether the next assessment may run
-- (Billing.Entitlements). What was asked for waits in a table from which the workers take it, each
-- transaction a step (Worker.Queue). What has been paid arrives as events of a payment provider,
-- which are delivered more than once, recorded once and then applied (Billing.Webhooks). A badge
-- that was earned is signed, so that anybody can check it against the published keys without asking
-- (Badge): a sweep of the worker issues it to the applications that have earned it, and another
-- takes it down and puts it up again (Worker.Badges). A workspace may take its records out in a
-- file (Workspace.AuditExport). What a customer reads of an assessment depends on what was paid
-- (Report.Redact), and the public searches the certified applications in a directory whose order is
-- not for sale (Directory.Query). Governance holds the stop on spending, the deadlines of data
-- subjects' requests, the deletion of evidence, and what a reviewer is shown before deciding on an
-- assessment (Governance.Triage).
--
-- Files and sources:
--   Rubric/Types, Registry, Scoring: packages/rubric/src/types.ts, rubric.ts, scoring.ts
--   Monitoring/Types, Drift, Regression, Schedule, Liveness: the files of packages/monitoring/src of
--     those names
--   Monitoring/Liveness/Sweep: sweepLiveness of apps/worker/src/monitoring.ts
--   Policy/Evaluate: packages/policy/src/evaluate.ts and types.ts
--   Billing/Entitlements: packages/billing/src/entitlements.ts; its Usage: usage.ts
--   Billing/Webhooks: packages/billing/src/webhooks.ts. Its Types: provider.ts and the tables of the
--     migrations 20260822120000_billing_events.sql and 20260822095000_commerce_and_cost.sql; Rows and
--     Apply: what each kind of change writes; Deliver: applyBillingEvent in its transaction
--     (writeAsService of apps/web/lib/sql.ts) and the answer of apps/web/app/api/stripe/webhook/route.ts
--   Badge/Payload, Sign: packages/badge/src/payload.ts, sign.ts and keys.ts; Badge/Json: the texts that
--     JSON.stringify writes for them, with a reader
--   Governance/Requests, Spend, Retention, Triage: the files of packages/governance/src of those names
--   Engine/Cost, Scope: packages/engine/src/runtime/cost.ts and scope.ts
--   Worker/Queue: apps/worker/src/queue.ts
--   Worker/Badges: apps/worker/src/badge.ts. Types: the rows; Candidates: findIssuanceCandidates; Slug:
--     slugify; Issue: validityMonthsFor, issueBadgeFor and sweepBadgeIssuance; Lifecycle:
--     sweepBadgeLifecycle; Events: the sweeps over time, with the statements on badges of
--     apps/worker/src/monitoring.ts and the decisions of apps/web/app/review/badge-actions.ts
--   Workspace/AuditExport: packages/workspace/src/audit-export.ts; its Csv is a reader of RFC 4180
--   Directory/Types, Query: packages/directory/src/types.ts and rank.ts
--   Report/Redact: packages/report/src/redact.ts, with the types of types.ts that it uses
--   Prelude: what the others share: tests and conditionals, lists, maps in insertion order, a stable
--     sort, results that may be errors, integers, doubles, dates
-- A function keeps its name, in lower case with underscores: scoreAssessment is score_assessment.
-- The modules below the one of a source file hold the theorems about it, and Tests the examples.
--
-- Numbers. Scores are natural numbers in units of 1/10000 of a point, in which the rubric's
-- weights, penalties and multipliers are whole, and in tenths of a point in Directory; where the
-- last place of a double decides, in Badge, Worker.Badges and Governance.Triage, they are doubles,
-- exactly as the language computes them (Prelude/Double); money is in cents or picodollars, time in
-- milliseconds, the rate bucket in units of 1/60000 of a request. Sums and products are exact
-- there, where the code computes in floating point, the refill of the rate bucket and the wait for
-- it among them, which the code can get wrong in the last place; rounding is written out as the
-- code does it. A figure that may arrive as NaN or missing is a data type with those cases. Numbers
-- below zero are integers (Prelude/Int).
--
-- Loops are recursion over the list that the code walks, so nothing runs on fuel but the search for
-- the spacing of a double, which is given more steps than a double has exponents.
--
-- Transactions. The transaction of a delivery (Billing.Webhooks.Deliver) works on a copy of the
-- tables, which an error hands on as far as it was written, and commit or rollback decides which
-- copy others see. Elsewhere a transaction is one step. failRequest of the queue has none: its
-- update is written by the table that its select has seen.
--
-- Parameters. localeCompare, which depends on the machine's collation, is a parameter of the drift
-- comparison, of the directory and of the order of a report's findings. The folding of case and
-- accents and the test for white space are parameters of the directory. The platform's URL parser
-- and its changes of case and white space are the record Platform of Engine/Scope. The rows of a
-- query are arguments. What a provider's event means (interpret) and what the database refuses of a
-- row, but for the two constraints that are written out, are parameters of Billing.Webhooks;
-- Ed25519, the reading of a key and the platform's reading of a date are parameters of Badge, and
-- with them the months of a calendar, the origin of an address, random characters, the maximum that
-- a rubric publishes and app_is_authorised_for_testing of Worker.Badges; the queries, JSON and
-- SHA-256 are parameters of Workspace.AuditExport. Messages for people are constructors with the
-- values that the sentence quotes, or left out where the file says so.
--
-- Not modelled: the drivers of browsers, models, mail and payment providers, cryptography itself,
-- rendering, the web, mobile and extension interfaces, SQL migrations but for the tables that the
-- code writes and the two queries that have a second spelling in code, and the alerts that the
-- worker raises.
pub mod Prelude
pub mod Rubric
pub mod Monitoring
pub mod Policy
pub mod Billing
pub mod Governance
pub mod Engine
pub mod Worker
pub mod Badge
pub mod Workspace
pub mod Directory
pub mod Report
