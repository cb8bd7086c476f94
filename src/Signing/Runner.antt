-- ===== src/Signing/Runner.antt =====
-- The class MultisigRunner of scripts/aws-multisig-runner.js, and what AWSKMSSigner does with a
-- transaction.
use smart_contracts.Base.{
  ℕ, Bool, true, false, not, ◌&&◌, ◌||◌, Option, none, some, [], ◌++◌, leb, if◌then◌else◌, Text,
  codes, text_eq, same_address, slice, drop,
}
use smart_contracts.Script.{Script, pure, throw, exit_with, try_catch, rethrow, ensure, ◌>>=◌, ◌>>◌}
use smart_contracts.Web3.{Receipt, TxData, NodeApi, MulSigApi, excute_time_or_zero}
use smart_contracts.Kms.Ethereum.{
  KmsApi, CryptoApi, hex_prefixed, get_public_key, get_ethereum_address, sign_message_hash,
}

-- `CONFIG`
pub record Config : Type 0 where
  pub access_key_id : Text
  pub secret_access_key : Text
  pub key_id : Text
  pub contract_address : Text
  pub proposal_id : ℕ
  pub aws_account : Text

pub record AccountsApi (W : Type 0) : Type 0 where
  -- `web3.eth.accounts.signTransaction(tx, key)`, its field `messageHash`
  pub message_hash : TxData → Text → Script W Text
  -- `web3.utils.keccak256`
  pub keccak256 : Text → Text

-- The fields of `signedTxData`.
pub record SignedTxData : Type 0 where
  pub message_hash : Text
  pub v : Text
  pub r : Text
  pub s : Text
  pub raw_transaction : Text

pub record Status : Type 0 where
  pub already_signed : Bool
  pub current_count : ℕ

-- `0x` and 64 zeros: the key of the throw-away signature that gives the hash.
abbrev pub zero_key : Text
zero_key = codes "0x0000000000000000000000000000000000000000000000000000000000000000"

module _ {W : Type 0} (config : Config) (kms : KmsApi W) (crypto : CryptoApi) (node : NodeApi W)
    (accounts : AccountsApi W) (api : MulSigApi W) where
  unfoldable pub sign_transaction : TxData → Script W SignedTxData
  sign_transaction tx = rethrow "Transaction signing failed: " (do
    tx_hash ← accounts.message_hash tx zero_key
    signature ← sign_message_hash kms crypto tx_hash
    pure (record {
      message_hash = tx_hash;
      v = slice 130 132 signature;
      r = slice 0 66 signature;
      s = hex_prefixed (slice 66 130 signature);
      raw_transaction = signature;
    }))

  unfoldable pub test_kms_basics : Script W Bool
  test_kms_basics =
      try_catch
        (do
          get_public_key kms crypto
          get_ethereum_address kms crypto
          kms.sign (drop 2 (accounts.keccak256 (codes "Hello World")))
          pure true)
        (λ _. pure false)

  -- It gathers the transaction, and then always throws.
  unfoldable pub sign_and_send_multisig_transaction : Script W Receipt
  sign_and_send_multisig_transaction = rethrow "Multisig signing failed: " (do
    kms_ok ← test_kms_basics
    ensure kms_ok (codes "KMS basic functionality test failed")
    node.get_transaction_count config.aws_account
    node.get_gas_price
    api.estimate_sign_transaction config.proposal_id config.aws_account
    throw (codes "Please complete signing with your existing AWS KMS flow"))

  unfoldable pub validate_config : Script W (Unit {0})
  validate_config = do
    ensure
        (not (
          text_eq config.access_key_id []
          || text_eq config.secret_access_key []
          || text_eq config.key_id []))
        (codes
          "AWS configuration missing. Please set environment variables: AWS_ACCESS_KEY_ID, AWS_SECRET_ACCESS_KEY, AWS_KMS_KEY_ID")
    rethrow "Network connection failed: " node.net_id
    rethrow "AWS verification failed: " (do
      derived ← get_ethereum_address kms crypto
      ensure (same_address derived config.aws_account) (
          codes "AWS account mismatch! Expected: "
          ++ config.aws_account
          ++ codes ", Got: "
          ++ derived))

  -- The storage is not read; what is left of the check is a call of `getSignatureCount`, and its
  -- failure is only logged.
  unfoldable pub verify_proposal_safety : Script W (Unit {0})
  verify_proposal_safety =
      try_catch (api.get_signature_count config.proposal_id >>= λ _. pure tt) (λ _. pure tt)

  unfoldable pub check_signature_status : Script W Status
  check_signature_status = rethrow "Signature status check failed: " (do
    signed ← api.has_already_signed config.proposal_id config.aws_account
    count ← api.get_signature_count config.proposal_id
    pure (record { already_signed = signed; current_count = count }))

  -- `none`: the user is told to sign by hand.
  unfoldable pub sign_proposal : Script W (Option Receipt)
  sign_proposal = rethrow "Proposal signing failed: " (do
    node.get_transaction_count config.aws_account
    node.get_gas_price
    api.estimate_sign_transaction config.proposal_id config.aws_account
    try_catch (sign_and_send_multisig_transaction >>= λ receipt. pure (some receipt))
        (λ _. pure none))

  -- `canExecute`. `proposalDetails.executed` is undefined, and its negation true.
  unfoldable pub check_execution_conditions : Script W Bool
  check_execution_conditions = rethrow "Execution condition check failed: " (do
    count ← api.get_signature_count config.proposal_id
    details ← api.transaction_details config.proposal_id
    current_time ← node.now
    pure (leb 2 count && leb (excute_time_or_zero details) current_time))

  -- The result is what the last check reports.
  unfoldable pub run : Script W Bool
  run =
      try_catch
        (do
          validate_config
          try_catch verify_proposal_safety (λ _. pure tt)
          status ← check_signature_status
          if status.already_signed then pure none else sign_proposal
          check_execution_conditions)
        (λ _. exit_with 1)
