-- ===== src/Signing/Simple.antt =====
-- scripts/simple-multisig-call.js: prepares the signing transaction, and sends nothing. A
-- `Promise.all` is the chain of its calls in their order.
use smart_contracts.Base.{ℕ, Option, none, some, if◌then◌else◌, Text}
use smart_contracts.Script.{Script, pure, exit_with, try_catch, ◌>>=◌, ◌>>◌}
use smart_contracts.Web3.{TxData, NodeApi, MulSigApi}
use smart_contracts.Web3.Gas.{gas_with_buffer}

-- `CONFIG`
pub record Config : Type 0 where
  pub chain_id : ℕ
  pub multisig_contract : Text
  pub proposal_id : ℕ
  pub aws_account : Text

module _ {W : Type 0} (config : Config) (node : NodeApi W) (api : MulSigApi W) where
  -- `txData`
  unfoldable pub prepare : Script W TxData
  prepare = do
    nonce ← node.get_transaction_count config.aws_account
    gas_price ← node.get_gas_price
    estimate ← api.estimate_sign_transaction config.proposal_id config.aws_account
    pure (record {
      nonce = nonce;
      gas_price = gas_price;
      gas = gas_with_buffer 12 estimate;
      to = config.multisig_contract;
      value = 0;
      call_data = api.encode_sign_transaction config.proposal_id;
    })

  -- The transaction that is printed: none for an account that has signed.
  unfoldable pub main : Script W (Option TxData)
  main =
      try_catch
        (do
          node.net_id
          api.get_signature_count config.proposal_id
          signed ← api.has_already_signed config.proposal_id config.aws_account
          if signed then pure none else prepare >>= λ tx. pure (some tx))
        (λ _. exit_with 1)
