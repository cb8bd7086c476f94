-- ===== src/Governance.antt =====
-- The contracts that the multisig contract governs: contracts/Governance/ besides MulSig.sol.
pub mod Parameters
pub mod Ranges
pub mod Calls
pub mod Discount
pub mod Treasury
pub mod Tokens
pub mod Dapps
pub mod Roles
pub mod Grants
pub mod Contracts
pub mod Answers
pub mod Executed
pub mod Tests
pub mod RoleTests
