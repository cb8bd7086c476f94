-- ===== src/Kms.antt =====
-- AWS KMS signatures for Ethereum, in two copies of the same conversion: the class AWSKMSSigner of
-- scripts/aws-multisig-runner.js (Runner) and the class KMSHelper of
-- scripts/kms-contract-caller.js (Caller).
pub mod Bytes
pub mod Hex
pub mod Runner
pub mod Caller
pub mod Ethereum
pub mod Components
pub mod Der
pub mod Signature
pub mod Tests
