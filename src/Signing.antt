-- ===== src/Signing.antt =====
-- The scripts that sign a multisig proposal with the key service: scripts/kms-multisig-signer.js
-- (Signer), scripts/aws-multisig-runner.js (Runner), scripts/kms-contract-caller.js (Caller).
pub mod TxHash
pub mod Signer
pub mod Runner
pub mod Caller
pub mod Signed
pub mod Conditions
pub mod Calling
pub mod Sending
pub mod Simple
mod Tests
