-- ===== src/Proposing/Unexecuted.antt =====
-- What scripts/register-dapp-multisig.js never does.
use smart_contracts.Web3
