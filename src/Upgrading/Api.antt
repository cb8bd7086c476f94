-- ===== src/Upgrading/Api.antt =====
-- What the maintenance scripts of the Producer contracts share: the contracts behind their ABIs,
-- and the list of results.
use smart_contracts.Base.{ℕ, Bool, Text, codes}
use smart_contracts.Script.{Script}
use smart_contracts.Web3.{Receipt}

-- How the round of one kind ended.
pub data Status : Type 0 where
  success : Text → ℕ → Status
  skipped : Text → Status
  failed : Text → Status

-- An element of `results`.
pub record Report : Type 0 where
  pub kind : Text
  pub status : Status

abbrev pub report : Text → Status → Report
report kind status = record { kind = kind; status = status }

abbrev pub sent_report : Text → Receipt → Report
sent_report kind receipt = report kind (success receipt.transaction_hash receipt.gas_used)

-- Files, accounts, and the contract Roles.
pub record SetupApi (W : Type 0) : Type 0 where
  -- `loadContractABI`: a file that cannot be read ends the process.
  pub load_abi : Text → Script W (Unit {0})
  -- `web3.eth.accounts.privateKeyToAccount`, and its place in the wallet
  pub add_account : Text → Script W (Unit {0})
  pub foundation_manager : Script W Text
  pub has_role : Text → Text → Script W Bool
  -- a timer of so many milliseconds
  pub sleep : ℕ → W → W

-- The Governance contract and the Producer contracts.
pub record ProducerApi (W : Type 0) : Type 0 where
  -- `getTreasureByKind(kind)`, its first component
  pub producer_of : Text → Script W Text
  pub get_mul_sig_contract : Text → Script W Text
  pub estimate_set_mul_sig_contract : Text → Text → Script W ℕ
  -- with the gas and its price
  pub set_mul_sig_contract : Text → Text → ℕ → ℕ → Script W Receipt

-- The contract ProxyAdmin.
pub record ProxyAdminApi (W : Type 0) : Type 0 where
  pub owner : Script W Text
  pub get_proxy_implementation : Text → Script W Text
  pub estimate_upgrade : Text → Text → Script W ℕ
  pub upgrade : Text → Text → ℕ → ℕ → Script W Receipt

abbrev pub zero_address : Text
zero_address = codes "0x0000000000000000000000000000000000000000"
