-- ===== src/Api.antt =====
-- apps/api/src/plugins and apps/api/src/routes: who calls, that a retry is answered once, and what
-- each endpoint asks for before it changes the store.
pub mod Header
pub mod Auth
pub mod Memberships
pub mod Tenancy
pub mod Idempotency
pub mod Lookup
pub mod Replay
pub mod Overlap
pub mod Guards
pub mod Jobs
pub mod Completion
pub mod Quotes
pub mod Offers
pub mod Storage
pub mod Evidence
pub mod Providers
pub mod Confirming
pub mod Asking
pub mod Offering
