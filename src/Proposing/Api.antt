-- ===== src/Proposing/Api.antt =====
-- The contracts, accounts and timers that the proposal scripts use, behind web3.
use smart_contracts.Base.{ℕ, Bool, Option, List, Text}
use smart_contracts.Script.{Script}
use smart_contracts.Web3.{Receipt}

-- The nine parameters of `proposeToSetCrosschainToken`.
pub record CrosschainParams : Type 0 where
  pub token : Text
  pub source_erc20 : Text
  pub source_crosschain : Text
  pub source_chain_id : ℕ
  pub target_erc20 : Text
  pub target_crosschain : Text
  pub target_chain_id : ℕ
  pub fee : ℕ
  pub chain_id : ℕ

pub record ChainApi (W : Type 0) : Type 0 where
  -- `loadContractABI`: a file that cannot be read ends the process.
  pub load_abi : Text → Script W (Unit {0})
  -- The address of a private key, which goes into the wallet.
  pub add_account : Text → Script W Text
  -- Roles
  pub foundation_manager : Script W Text
  pub has_role : Text → Text → Script W Bool
  pub role_member_count : Text → Script W ℕ
  pub role_member : Text → ℕ → Script W Text
  pub role_member_array : Text → Script W (List Text)
  -- Governance
  pub producer_of : Text → Script W Text
  pub fm_threshold : Script W ℕ
  -- MulSig
  pub pending_proposals : Script W (List ℕ)
  -- the id in the event `RegisterDApp`
  pub propose_to_register_dapp : Text → Text → Text → Text → Script W ℕ
  pub propose_to_set_crosschain_token : CrosschainParams → Text → Script W Receipt
  pub sign_transaction : ℕ → Text → Script W Receipt
  pub estimate_execute_proposal : ℕ → Text → Script W ℕ
  -- with the sender, and the gas and its price where they are given
  pub execute_proposal : ℕ → Text → Option ℕ → Option ℕ → Script W Receipt
  -- CrosschainTokens, the first component of the answer
  pub crosschain_token_by_chain_id : Text → ℕ → Script W Text
  -- a timer of so many milliseconds
  pub sleep : ℕ → W → W
  -- `evm_increaseTime` and `evm_mine`
  pub increase_time : ℕ → Script W (Unit {0})
  pub mine : Script W (Unit {0})
