-- ===== src/Lib.antt =====
-- Verification of the revenue recovery engine (backend/internal).
--
-- The program finds payments that are about to be lost, opens a recovery case for each, decides
-- what to do about it, and does it through a durable queue. A case (backend/internal/domain) is a
-- state machine with a version. For a case, the decision pipeline reads a context, filters the
-- actions that are eligible, ranks them by a model's predictions, and puts the best through the
-- economic gate and the policy. The store (backend/internal/store) commits the decision, its
-- schedule, the move of the case and the audit events in one transaction. Workers
-- (backend/internal/orchestrator) claim schedules under a lease, check everything again, call the
-- provider and record the result. Across cases, a portfolio is ranked and a budget is spent.
--
-- Files, and the code that each models:
--   Base         what the files share: the tests on numbers and texts, 64-bit integers with their
--                wrap-around (Int), lists (Lists), `sort.Slice` as a stable sort (Sort), and
--                `time.Time` as nanoseconds since year 1 with the saturating `Sub` (Clock)
--   Domain       domain/state_machine.go (States), events.go (Events), entities.go (Entities,
--                Actions); Lifecycle has the theorems of the transition table
--   Context      the records of context/context.go, and the parameters for what comes from outside
--   Gate         economicgate/gate.go
--   Policy       policy/policy.go: `history` and `inQuietHours` (History), the checks of `Evaluate`
--                in their order (Rules), its verdict (Tally); Approval and Safety have the theorems
--   Eligibility  eligibility/eligibility.go: what `Evaluate` calls (Rules), its `switch` and its
--                loop (Partition), and its agreement with the policy (Agreement)
--   Optimizer    optimizer/optimizer.go, `Rank` (Candidate, Ranking); Keys and Best have the theorems
--   Portfolio    portfolio/portfolio.go, `Rank`
--   Budget       budget/budget.go, `Allocate`
--   Store        store/postgres.go (Cases), decisions.go and decision_workflow.go (Decisions),
--                workflow.go (Queue, Execution, Observation), on the tables and the transactions
--                of Tables and Rows; operations.go (Reviews), promises.go (Promises, with Checks and
--                Outcomes), responses.go (Responses), attribution.go (Attributions),
--                integrations.go (Webhooks, PaymentLinks); Lifecycle, Ensures, Operations, Work,
--                Audit and Retries have the lemmas
--   Operations   operations/service.go: `AuthorizeApproval` (Approval), `List` (Queue) and `Review`;
--                Lifecycle, Guards and Repeats are about `ApplyHumanReview`, and
--                Authority about `Review`
--   Promises     promises/promises.go: `Extract` (Texts), and the service
--   Responses    responses/service.go
--   Attribution  attribution/service.go; Effects, Course and Evidence are about `AttributeRecovery`
--   Recovery     recovery/service.go; Commits, Interleaving and Runs have the histories of the database
--   Worker       orchestrator/orchestrator.go: `RunOnce`, `RunObservationOnce` and `Decide`
--   Executor     executor/executor.go: the registry and its executors; Links has the creation of a
--                payment link in integrations/razorpay/client.go, Journeys is about what becomes
--                of it
--   Checkout     detection/checkout.go, Validate of contracts.go, and the table of checkouts of
--                store/integrations.go; Trusted is about what a leak is made from
--   Models       modelregistry/service.go over store/model_registry.go, with `Create` in Creation;
--                Latest, Activation and Histories are about the one active model of a type
--   Webhook      integrations/razorpay/webhook.go: `NormalizeWebhook` (Payload) and `Ingest`;
--                Duplicates and Repeats are about what is received twice
--   Tests        the theorems at concrete inputs
--
-- State and operations. A database is a record of tables. An operation of the store is a function
-- from a database to a new one or an error, and an error leaves the old one: the transaction rolls
-- back. A statement of the source is one step of the function (`lock_case` for SELECT … FOR UPDATE,
-- `update_case_if` for an UPDATE whose affected rows are checked). Transactions run one after the
-- other; `Recovery.Runs.Run` is any sequence of those that touch the cases, their schedules,
-- decisions, executions, events, promises, responses, reviews and attributions, and includes the
-- transitions of the service, which read in one transaction and write in a later one. The tables of
-- webhooks, payment links, checkouts and models are written by other operations. Identifiers,
-- the clock, the models, the provider, the operations on floats, and the JSON and time-zone
-- libraries are arguments.
--
-- There is no fuel: every loop of the modelled code runs over a list and is structural recursion.
-- 64-bit arithmetic wraps around where the source computes with int64; counts, versions, sequence
-- numbers and times are unbounded natural numbers.
--
-- Not modelled: failures of the database itself, row locks that are held elsewhere (SKIP LOCKED),
-- JSON payloads, the computation of the context, the queries of the review queue and its metrics,
-- the detection of failed subscriptions, the profiles of merchants, and the HTTP layer.
pub mod Base
pub mod Domain
pub mod Context
pub mod Gate
pub mod Operations
pub mod Promises
pub mod Attribution
pub mod Executor
pub mod Checkout
pub mod Models
pub mod Responses
pub mod Webhook
pub mod Optimizer
pub mod Policy
pub mod Eligibility
pub mod Portfolio
pub mod Budget
pub mod Store
pub mod Recovery
pub mod Worker
pub mod Tests
