-- ===== src/Store.antt =====
-- apps/api/src/store: the persistence port, as the in-memory store implements it.
pub mod Types
pub mod Action
pub mod State
pub mod Jobs
pub mod Quotes
pub mod Offers
pub mod Providers
pub mod Evidence
pub mod People
pub mod Queue
pub mod Ledger
pub mod Idempotency
pub mod Calls
pub mod Frame
pub mod Accepting
pub mod Assignments
pub mod Awards
pub mod Lifecycle
pub mod Logs
pub mod Published
pub mod Publishing
pub mod Silent
pub mod Tests
