-- ===== src/Lib.antt =====
-- The scripts around the smart contracts of Treasurenet, and the multisig contract that they drive.
--
-- A proposal is made, signed and executed in the multisig contract; the scripts do this from outside.
-- The parts, and where they are modelled:
--
-- - contracts/Governance/MulSig.sol: MulSig. The storage is the record MulSig; a call is a function
--   from the storage, the context (sender and time) and the world of the other contracts to a result
--   of the type Tx, which is a new storage or a revert. State has the data, Propose the six
--   proposeTo… functions and signTransaction, Execute executeProposal, deleteProposals and
--   transactionDetails, Initialize the setup and its views. Request has the six proposals as one
--   operation, Reach all transactions as a step relation. The contracts that it calls
--   are the interface Peers. A word keeps its bound: a checked addition reverts.
-- - contracts/Governance/ParameterInfo.sol, Governance.sol, CrosschainTokens.sol and Roles.sol, and
--   the dapps of contracts/Treasure/Producer.sol: Governance, the children Parameters, Treasury,
--   Tokens, Roles and Dapps. Contracts fills the interface Peers with them; access control is
--   OpenZeppelin's, the interface AccessApi. A mapping keyed by a hash is keyed by the text that is
--   hashed.
-- - scripts/aws-multisig-runner.js (AWSKMSSigner) and scripts/kms-contract-caller.js (KMSHelper): Kms.
--   Runner and Caller are the two readers of DER signatures, Ethereum the address and the search for
--   the recovery value, Der, Components and Signature the proofs. A buffer is a list of bytes.
-- - scripts/aws-multisig-runner.js (MultisigRunner), scripts/kms-contract-caller.js (ContractCaller)
--   and scripts/kms-multisig-signer.js (MultisigSigner): Signing, the children Runner, Caller and
--   Signer; TxHash is the search for a transaction's hash in an error message. Simple is
--   scripts/simple-multisig-call.js.
-- - scripts/manual-upgrade-producers.js, scripts/upgrade-via-proxyadmin.js and
--   scripts/fix-mulsig-addresses.js: Upgrading, the children Manual, Upgrade and Fix. Truffle has the
--   migrations of one contract in scripts/upgrade/, Migration the one of all producers, and Loan
--   scripts/upgrade-tcashloan.js.
-- - scripts/deploy/utils.js: Deployments, the file of a network with its entries.
-- - the other scripts of scripts/deploy/: Deploying, the children Core (base.js), Producers, Cash
--   (tcash.js and wunit_wtcash.js), Ustn, Crosschain and Single (bid.js and tokenlocker.js) over the
--   shared Steps. Each reads the addresses that the ones before it left in the file of the network.
--   Pipeline is the order in which package.json runs them.
-- - scripts/execute-proposal.js, scripts/check-proposal.js, scripts/register-dapp-node.js,
--   scripts/register-dapp-multisig.js and scripts/setup-crosschain-tokens.js: Proposing, the children
--   Execute, Check, Register, Multisig and Crosschain; Direct is scripts/direct-register-dapp.js and
--   Setup scripts/execute-setup-crosschain-tokens.js.
-- - scripts/check-permissions.js, scripts/find-proxyadmin.js, scripts/check-proxy-admin.js,
--   scripts/verify-mulsig-address.js, scripts/diagnose-upgrade-issue.js and
--   scripts/debug-proposal-data.js: Diagnosing. They read only; a result holds what is logged.
--
-- A script is a function of the type Script (module Script): from a world to an outcome and a new
-- world. The outcome is a value, a thrown message, or the code of process.exit, which no catch sees.
-- A for loop that pushes results is Script.Loop.each. Script.Chain has the rules for a script that
-- returns with a condition on its result and on the world. Web3 has the interface of the node and of the
-- multisig contract behind its ABI; ReadsContract says that the views answer from the state of the
-- contract, and names of fields that the scripts read and the ABI does not have are absent there.
-- Base has texts (lists of character codes), lists over the native numbers, and tests.
--
-- The loops are structural. The two recursions on fuel are delete_loop, whose fuel is the length of
-- the list as in the source, and decimal_digits, with 78 digits, enough for every number below
-- 2 ^ 256. A gas estimate times 1.2, 1.3 or 1.5 is computed in tenths, which agrees with the
-- double product below 2 ^ 50. Messages that are only logged are left out, and so are the warnings
-- on the network's id and on balances.
--
-- Not modelled: DAO and the contracts outside contracts/Governance/, scripts/update-workflow-options.js,
-- scripts/tasks.sh, and the construction of the clients from their configuration. AWS KMS, web3,
-- hardhat, truffle, hashing, ASN.1, the file system, JSON, timers and the clock are interfaces: records
-- that the definitions take as parameters.
pub mod Base
pub mod Script
pub mod Kms
pub mod MulSig
pub mod Governance
pub mod Web3
pub mod Signing
pub mod Upgrading
pub mod Deployments
pub mod Deploying
pub mod Proposing
pub mod Diagnosing
