-- ===== src/Lib.antt =====
-- Rescue: the circular-logistics API. A customer's job (a failed delivery, a bulky return, surplus)
-- is triaged, quoted, offered to carriers, assigned to the first that accepts, done, and paid for.
--
-- How the parts interact: every route and worker of apps/api/src acts through one store. A method of
-- the store checks its guards, writes the new state, appends to the event stream and the audit log,
-- and puts a message in the outbox for each event that has a topic. The contracts fix the statuses
-- and their transitions, the eligibility rules say which carriers an offer may go to.
--
-- The files:
--   Prelude      names and lemmas that the rest share: Boolean tests, lists, tables (a JavaScript Map
--                keyed by ids, in insertion order), integers, a stable sort
--   Contracts    packages/contracts/src: Job is job.ts (job_transitions, can_transition), Money is
--                money.ts, Ops is ops.ts, Commerce, Provider and Auth the files of those names;
--                Errors is apps/api/src/lib/errors.ts
--   Outbox       apps/api/src/lib/outbox.ts: which event is published, and under which key
--   Store        apps/api/src/store/memory.ts and types.ts. State is the private methods
--                (recordEvent, recordAudit, visible, requireJob); Jobs, Quotes, Offers, Providers,
--                Evidence, Queue (the outbox), Ledger, Idempotency (with retention) and People
--                (erasePerson, recordSuggestion) the public ones; Calls is a history of them. The
--                others hold proofs
--   Eligibility  apps/api/src/lib/eligibility.ts, all of it
--   Dispatch     apps/api/src/lib/dispatch.ts, all of it, with the maps provider as a parameter
--   Payments     apps/api/src/lib/payments.ts: what a ledger adds up to
--   Worker       apps/api/src/worker: Payments is payments.ts (the money handlers), Notices is
--                handlers.ts, Drain is worker.ts (one pass, and composeHandlers). The others hold
--                proofs
--   Api          apps/api/src/plugins and apps/api/src/routes: Header and Idempotency are
--                plugins/idempotency.ts, Auth is plugins/auth.ts; Jobs, Quotes, Offers, Evidence and
--                Providers (with privacy.ts) are the routes of those names, Guards what they share, Storage is
--                apps/api/src/lib/storage.ts. The others hold proofs
--   System       apps/api/src/app.ts: requests, sweeps and passes of the worker on one store.
--                Permissions is the table of who may use which endpoint, apart from the code
--
-- A function is named as in the source (acceptOffer is accept_offer) and takes the arguments of the
-- source, its clock reading as `now`. A method is a function from the state to a result and the state
-- after it, which comes back after a throw too, with what was written before it. Guards stand in the
-- order of the source. Calls run one at a time: a method of the in-memory store does not wait in the
-- middle, but for transitionJob, acceptOffer and fallbackAssignment, which first wait for the lock of
-- their job; the lock is not modelled.
--
-- Ids are numbers that are only compared; the generator is a stream of them in the state. Instants
-- are milliseconds. A status of the source is a constructor, and `===` on it compares codes. Money is
-- whole cents. Weights are grams, lengths centimetres, volumes cubic centimetres, and distances whole
-- kilometres, exact where the source computes with floats. An outbox key is the list of parts that
-- the source joins by `|`. Audit metadata is not kept.
--
-- A handler of the worker acts on a world: the store, the calls that went to the payment gateway,
-- and the notifications that were sent. The gateway and the sender are functions that may answer any
-- call with an error. An endpoint takes the caller that the hook has found and an input that fits its
-- schema, and returns what the store gave it; the JSON text of an answer that is kept for a retry is a
-- parameter, as are the digest and the canonical text of a body. A request reads its clock once, and
-- once more for the record of its answer.
--
-- No definition runs on fuel: the loops are recursions on lists, and the loop of estimateDistanceKm
-- is a recursion on its five rounds.
--
-- Not modelled: the seed and some reads of the store; the timers of the worker; the development
-- payment gateway; triage, retention and the inventory of personal data;
-- the store over a database; the calls of maps, mail, storage, model and identity providers; the
-- checks of inputs by zod; the web application.
pub mod Prelude
pub mod Contracts
pub mod Outbox
pub mod Store
pub mod Eligibility
pub mod Dispatch
pub mod Payments
pub mod Worker
pub mod Api
pub mod System
