-- ===== src/Signing/Signer.antt =====
-- The class MultisigSigner of scripts/kms-multisig-signer.js.
use smart_contracts.Base.{ℕ, Bool, Option, none, some, leb, if◌then◌else◌, Text, codes}
use smart_contracts.Script.{Script, pure, throw, exit_with, try_catch, rethrow, ◌>>=◌, ◌>>◌}
use smart_contracts.Web3.{Receipt, TxData, NodeApi, MulSigApi}
use smart_contracts.Web3.Gas.{gas_with_buffer}
use smart_contracts.Signing.TxHash.{includes, find_hash}

-- `CONFIG`, `awsConfig` and the third-party signer @web3-kms-signer.
pub record Config : Type 0 where
  pub chain_id : ℕ
  pub multisig_contract : Text
  pub proposal_id : ℕ
  pub aws_account : Text

pub record WalletApi (W : Type 0) : Type 0 where
  -- `signer.signTransaction({ keyId }, txData)`
  pub sign_transaction : TxData → Script W Text
  -- `provider.getPublicKey({ KeyId })`
  pub get_public_key : Script W Text

pub record GasInfo : Type 0 where
  pub final_gas : ℕ
  pub adjusted_gas_price : ℕ

-- The result of a send: the receipt, or the hash of a transaction that is not mined yet.
pub data Sent : Type 0 where
  mined : Receipt → Sent
  pending : Text → Sent

pub record Status : Type 0 where
  pub signature_count : ℕ
  pub already_signed : Bool

module _ {W : Type 0} (config : Config) (node : NodeApi W) (api : MulSigApi W)
    (wallet : WalletApi W) where
  unfoldable pub get_ethereum_address : Script W Text
  get_ethereum_address =
      rethrow "Failed to get Ethereum address: " (do wallet.get_public_key; pure config.aws_account)

  unfoldable pub calculate_gas_parameters : Script W ℕ → Script W GasInfo
  calculate_gas_parameters estimate = rethrow "Gas calculation failed: " (do
    gas_estimate ← estimate
    gas_price ← node.get_gas_price
    pure (record { final_gas = gas_with_buffer 12 gas_estimate; adjusted_gas_price = gas_price }))

  unfoldable pub create_and_sign_transaction : Text → Text → GasInfo → Text → Script W Text
  create_and_sign_transaction contract_address method_data gas_info sender = do
    nonce ← node.get_transaction_count sender
    wallet.sign_transaction (record {
      nonce = nonce;
      gas_price = gas_info.adjusted_gas_price;
      gas = gas_info.final_gas;
      to = contract_address;
      value = 0;
      call_data = method_data;
    })

  -- The `catch`: a timeout that names the transaction's hash is a pending transaction.
  unfoldable pub on_send_error : Text → Script W Sent
  on_send_error message =
      if includes (codes "Transaction was not mined within") message
      then elim (find_hash message) [ none ↦ throw message | some hash ↦ pure (pending hash) ]
      else throw message

  unfoldable pub send_transaction : Text → Script W Sent
  send_transaction signed_tx =
      try_catch (do receipt ← node.send_signed_transaction signed_tx; pure (mined receipt))
        on_send_error

  unfoldable pub check_signature_status : Script W Status
  check_signature_status = do
    signature_count ← api.get_signature_count config.proposal_id
    already_signed ← api.has_already_signed config.proposal_id config.aws_account
    pure (record { signature_count = signature_count; already_signed = already_signed })

  -- Steps 3 to 7 of `signMultisigProposal`.
  unfoldable pub sign_and_send : Script W Sent
  sign_and_send = do
    gas_info ←
        calculate_gas_parameters
          (api.estimate_sign_transaction config.proposal_id config.aws_account)
    signed_tx ←
        create_and_sign_transaction config.multisig_contract
          (api.encode_sign_transaction config.proposal_id) gas_info config.aws_account
    result ← send_transaction signed_tx
    check_signature_status
    pure result

  -- The network's id is only compared for a warning. `none` is the early `return`.
  unfoldable pub sign_multisig_proposal : Script W (Option Sent)
  sign_multisig_proposal = do
    node.net_id
    status ← check_signature_status
    if status.already_signed
        then pure none
        else if leb 2 status.signature_count
        then pure none
        else (sign_and_send >>= λ result. pure (some result))

  -- `main`: an error ends the process with code 1.
  unfoldable pub main : Script W (Unit {0})
  main = try_catch (sign_multisig_proposal >>= λ _. pure tt) (λ _. exit_with 1)
