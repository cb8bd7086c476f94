-- ===== src/Signing/Tests.antt =====
-- Runs of the signing scripts with a key service and a node that always answer.
use smart_contracts.Base.{
  ℕ, ◌≡◌, ◌≢◌, refl, true, false, Option, none, [], ◌∷◌, ◌==◌, ==_ne, if◌then◌else◌, arith, Text,
  codes, length, slice,
}
use smart_contracts.Script.{ok, err}
use smart_contracts.MulSig
use smart_contracts.MulSig.{MulSig}
use smart_contracts.MulSig.Tests.{managers, by, with_proposal, signed_twice, adding}
use smart_contracts.Kms.Bytes.{Bytes}
use smart_contracts.Kms.Ethereum.{hex_prefixed, sign_message_hash, get_public_key}
use smart_contracts.Kms.Tests.{kms, crypto, address, signature, parse_run, signature_run}
use smart_contracts.Web3.{Receipt, TxData, NodeApi, MulSigApi}
use smart_contracts.Web3.Samples.{receipt, node, address_of, api, api_reads}
use smart_contracts.Signing.TxHash.{
  is_hex_digit, hex_digits, strip_prefix, includes, hash_here, find_hash,
}
use smart_contracts.Signing.Signer
use smart_contracts.Signing.Runner
use smart_contracts.Signing.Caller
use smart_contracts.Signing.Signed.{IsEthereumSignature, sign_message_hash_ethereum}
use smart_contracts.Signing.Conditions.{check_execution_conditions_ignores_time}
use smart_contracts.Signing.Calling.{call_contract_method_fails}
use smart_contracts.Signing.Sending.{HasHash, send_transaction_pending}

message_run : sign_message_hash kms crypto (codes "0x01") tt ≡ (ok signature, tt)
unfolding sign_message_hash
message_run = ground (arith, parse_run, signature_run)

sign_message_hash_ethereum_example : (r s : Bytes) × (v : ℕ) × IsEthereumSignature signature r s v
sign_message_hash_ethereum_example =
    sign_message_hash_ethereum kms crypto (codes "0x01") signature tt tt message_run

abbrev config : Runner.Config
config = record {
  access_key_id = codes "id";
  secret_access_key = codes "secret";
  key_id = codes "key";
  contract_address = codes "0x09";
  proposal_id = 0;
  aws_account = address;
}

abbrev accounts : {W : Type 0} → Runner.AccountsApi W
accounts = record {
  message_hash = λ tx key w. (ok (codes "0x01"), w);
  keccak256 = λ t. codes "0x02";
}

abbrev tx : TxData
tx = record {
  nonce = 3;
  gas_price = 1;
  gas = 60000;
  to = codes "0x09";
  value = 0;
  call_data = codes "0xaa";
}

abbrev signed : Runner.SignedTxData
signed = record {
  message_hash = codes "0x01";
  v = slice 130 132 signature;
  r = slice 0 66 signature;
  s = hex_prefixed (slice 66 130 signature);
  raw_transaction = signature;
}

abbrev unit_api : MulSigApi (Unit {0})
unit_api = record {
  get_signature_count = λ id w. (ok 2, w);
  has_already_signed = λ id a w. (ok false, w);
  transaction_details = λ id w. (ok (MulSig.transaction_details id (with_proposal adding)), w);
  estimate_sign_transaction = λ id a w. (ok 50000, w);
  encode_sign_transaction = λ id. codes "0xaa";
}

transaction_run :
    Runner.sign_transaction config kms crypto node accounts unit_api tx tt ≡ (ok signed, tt)
unfolding Runner.sign_transaction
transaction_run = ground (arith, message_run)

abbrev signer : Signer.Config
signer = record {
  chain_id = 5570;
  multisig_contract = codes "0x09";
  proposal_id = 0;
  aws_account = address;
}

abbrev wallet : {W : Type 0} → Signer.WalletApi W
wallet = record {
  sign_transaction = λ tx w. (ok (codes "0xbb"), w);
  get_public_key = λ w. (ok (codes "0x04"), w);
}

abbrev no_receipt : Option Receipt
no_receipt = none

-- The contract is the world, and every address of the list of managers a foundation manager.
abbrev peers : MulSig.Peers MulSig
peers = record {
  has_role = λ w role a. MulSig.contains managers a;
  fm_threshold = λ w. 2;
  get_treasure_by_kind = λ w kind. MulSig.done (7, 8);
  grant_role = λ role a w. MulSig.done w;
  revoke_role = λ role a w. MulSig.done w;
  add_treasure = λ name a b w. MulSig.done w;
  set_platform_config = λ name n w. MulSig.done w;
  set_price_discount_config = λ c w. MulSig.done w;
  register_dapp_connect = λ a t p w. MulSig.done w;
  set_crosschain_token = λ c w. MulSig.done w;
}

check_execution_conditions_ignores_time_example :
    (Runner.check_execution_conditions config kms crypto node accounts api
        (with_proposal signed_twice)
      ≡ (ok true, with_proposal signed_twice))
    × (MulSig.execute_proposal peers 0
          (by 1 100)
          (with_proposal signed_twice)
          (with_proposal signed_twice)
        ≡ MulSig.revert (codes "executeTime not meet"))
unfolding MulSig.get_signature_count
check_execution_conditions_ignores_time_example =
    check_execution_conditions_ignores_time config kms crypto node accounts api peers (λ w. w)
      address_of api_reads 100 (by 1 100) (with_proposal signed_twice) refl (omega arith) refl
      (omega arith)

-- web3's accounts: a key that is not 0x and 64 digits is refused.
abbrev strict : Caller.AccountsApi (Unit {0})
strict = record {
  sign_transaction = λ tx key w.
      if length key == 66
      then (ok (record { message_hash = codes "0x01"; raw_transaction = codes "0xbb" }), w)
      else (err (codes "Private key must be 32 bytes long"), w);
  keccak256 = λ t. codes "0x0102030405";
  encode_parameters = λ ps. codes "0x01";
  estimate_gas = λ a d f w. (ok 50000, w);
}

strict_refuses :
    (tx : TxData) (key : Text) (w : Unit {0})
    → length key ≢ 66
    → (m : Text) × (strict.sign_transaction tx key w ≡ (err m, w))
strict_refuses tx key w other =
    (codes "Private key must be 32 bytes long", rw (==_ne (length key) 66 other) refl)

abbrev call : Caller.CallParams
call = record {
  contract_address = codes "0x09";
  method_signature = codes "signTransaction(uint256)";
  method_params = 1 ∷ [];
  from_address = address;
}

call_contract_method_fails_example :
    Caller.call_contract_method kms crypto node strict call tt ≢ (ok (Caller.success receipt), tt)
call_contract_method_fails_example =
    call_contract_method_fails kms crypto node strict strict_refuses call receipt tt tt

abbrev slow_hash : Text
slow_hash = codes "0x0123456789abcdef0123456789ABCDEF0123456789abcdef0123456789ABCDEF"

abbrev slow_message : Text
slow_message =
    codes
      "Transaction was not mined within 50 blocks. Transaction Hash: 0x0123456789abcdef0123456789ABCDEF0123456789abcdef0123456789ABCDEF."

abbrev slow_node : NodeApi (Unit {0})
slow_node = record node { send_signed_transaction = λ tx w. (err slow_message, w) }

pending_run :
    Signer.send_transaction signer slow_node unit_api wallet (codes "0xbb") tt
    ≡ (ok (Signer.pending slow_hash), tt)
unfolding Signer.send_transaction Signer.on_send_error includes find_hash hash_here hex_digits
    is_hex_digit strip_prefix codes
pending_run = refl

send_transaction_pending_example :
    (message : Text) × (slow_node.send_signed_transaction (codes "0xbb") tt ≡ (err message, tt))
    × (includes (codes "Transaction was not mined within") message ≡ true)
    × HasHash message slow_hash
send_transaction_pending_example =
    send_transaction_pending signer slow_node unit_api wallet (codes "0xbb") slow_hash tt tt
      pending_run
