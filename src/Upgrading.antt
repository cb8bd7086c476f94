-- ===== src/Upgrading.antt =====
-- The maintenance scripts of the Producer contracts.
pub mod Api
pub mod Truffle
pub mod Migration
pub mod Fix
pub mod Upgrade
pub mod Manual
pub mod Migrates
pub mod AllProducers
pub mod Loan
pub mod Results
pub mod Reaches
pub mod Deploys
mod TruffleTests
mod Tests
