-- ===== src/MulSig.antt =====
-- The multisig contract, contracts/Governance/MulSig.sol: proposals, signatures, execution after the
-- confirmation period. The contracts that it calls are the interface Peers.
mod State
mod Propose
mod Execute
pub mod Delete
pub mod Effects
pub mod Invariant
pub mod Initialize
pub mod Reach
pub mod Signing
pub mod Executing
pub mod Waiting
pub mod Request
pub mod Threshold
pub mod Tests
pub mod ThresholdTests
unfoldable pub use State.*
unfoldable pub use Propose.*
unfoldable pub use Execute.*
