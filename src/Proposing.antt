-- ===== src/Proposing.antt =====
-- The scripts that propose, check and execute over the multisig contract.
pub mod Api
pub mod Execute
pub mod Check
pub mod Status
pub mod Register
pub mod Crosschain
pub mod Bounds
pub mod Collect
pub mod Multisig
pub mod Unexecuted
pub mod Direct
pub mod Setup
mod Tests
