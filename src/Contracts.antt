-- ===== src/Contracts.antt =====
-- packages/contracts/src: the shared vocabulary of the API, one module for each of its files.
pub mod Job
pub mod Auth
pub mod Money
pub mod Commerce
pub mod Provider
pub mod Ops
pub mod Errors
mod Tests
