-- ===== src/Signing/Caller.antt =====
-- The class ContractCaller of scripts/kms-contract-caller.js.
use smart_contracts.Base.{ℕ, List, ◌++◌, Text, codes, same_address, drop, take}
use smart_contracts.Script.{Script, pure, exit_with, try_catch, rethrow, ensure, ◌>>=◌, ◌>>◌}
use smart_contracts.Web3.{Receipt, TxData, NodeApi}
use smart_contracts.Web3.Gas.{gas_with_buffer}
use smart_contracts.Kms.Ethereum.{KmsApi, CryptoApi, get_ethereum_address, der_to_eth_signature}

-- The argument of `callContractMethod`; `method_params` is the list of its `uint256` parameters.
pub record CallParams : Type 0 where
  pub contract_address : Text
  pub method_signature : Text
  pub method_params : List ℕ
  pub from_address : Text

pub record SignedTransaction : Type 0 where
  pub message_hash : Text
  pub raw_transaction : Text

-- web3's accounts, hashes and ABI.
pub record AccountsApi (W : Type 0) : Type 0 where
  pub sign_transaction : TxData → Text → Script W SignedTransaction
  pub keccak256 : Text → Text
  -- `web3.eth.abi.encodeParameters(['uint256'], params)`
  pub encode_parameters : List ℕ → Text
  -- `web3.eth.estimateGas({ to, data, from })`
  pub estimate_gas : Text → Text → Text → Script W ℕ

pub data CallResult : Type 0 where
  success : Receipt → CallResult
  failure : Text → CallResult

abbrev pub zero_key : Text
zero_key = codes "0x0000000000000000000000000000000000000000000000000000000000000000"

module _ {W : Type 0} (kms : KmsApi W) (crypto : CryptoApi) (node : NodeApi W)
    (accounts : AccountsApi W) where
  -- The first four bytes of the hash of the signature, and the encoded parameters.
  unfoldable pub method_data : CallParams → Text
  method_data params =
      take 10 (accounts.keccak256 params.method_signature)
      ++ drop 2 (accounts.encode_parameters params.method_params)

  unfoldable pub build_transaction_data : CallParams → Script W TxData
  build_transaction_data params = do
    let encoded = method_data params
    nonce ← node.get_transaction_count params.from_address
    gas_price ← node.get_gas_price
    gas_estimate ← accounts.estimate_gas params.contract_address encoded params.from_address
    pure (record {
      nonce = nonce;
      gas_price = gas_price;
      gas = gas_with_buffer 12 gas_estimate;
      to = params.contract_address;
      value = 0;
      call_data = encoded;
    })

  -- `signTransactionHash`, of the class KMSHelper.
  unfoldable pub sign_transaction_hash : Text → Script W (List ℕ)
  sign_transaction_hash message_hash =
      rethrow "KMS signing failed: " (kms.sign (drop 2 message_hash))

  -- The signature of the key service is handed to web3 as the key of the second signing.
  unfoldable pub sign_transaction : TxData → Script W Text
  sign_transaction tx = do
    temp ← accounts.sign_transaction tx zero_key
    der_signature ← sign_transaction_hash temp.message_hash
    eth_signature ← der_to_eth_signature kms crypto der_signature temp.message_hash
    signed ← accounts.sign_transaction tx eth_signature
    pure signed.raw_transaction

  unfoldable pub call_contract_method : CallParams → Script W CallResult
  call_contract_method params =
      try_catch
        (do
          kms_address ← get_ethereum_address kms crypto
          ensure (same_address kms_address params.from_address) (
              codes "Address mismatch: KMS="
              ++ kms_address
              ++ codes ", expected="
              ++ params.from_address)
          tx ← build_transaction_data params
          raw ← sign_transaction tx
          receipt ← node.send_signed_transaction raw
          pure (success receipt))
        (λ message. pure (failure message))

  unfoldable pub exit_on_failure : CallResult → Script W (Unit {0})
  exit_on_failure (success receipt) = pure tt
  exit_on_failure (failure message) = exit_with 1

  unfoldable pub main : CallParams → Script W (Unit {0})
  main params = try_catch (call_contract_method params >>= exit_on_failure) (λ _. exit_with 1)
