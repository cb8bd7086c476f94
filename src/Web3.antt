-- ===== src/Web3.antt =====
-- What the scripts use of web3: the node, and the multisig contract behind its ABI. Every call may
-- throw, and acts on the world.
pub mod Gas
pub mod Samples
use smart_contracts.Base.{ℕ, Bool, false, ltb, Option, none, some, ◌≡◌, Text}
use smart_contracts.Script.{Script, ok}
use smart_contracts.MulSig
use smart_contracts.MulSig.{MulSig, Address}

-- The fields of a receipt that the scripts read.
pub record Receipt : Type 0 where
  pub transaction_hash : Text
  pub block_number : ℕ
  pub gas_used : ℕ

-- The fields of a transaction that the scripts build.
pub record TxData : Type 0 where
  pub nonce : ℕ
  pub gas_price : ℕ
  pub gas : ℕ
  pub to : Text
  pub value : ℕ
  pub call_data : Text

-- `web3.eth` and `web3.eth.net`.
pub record NodeApi (W : Type 0) : Type 0 where
  pub net_id : Script W ℕ
  pub block_number : Script W ℕ
  pub get_gas_price : Script W ℕ
  pub get_transaction_count : Text → Script W ℕ
  pub get_balance : Text → Script W ℕ
  pub send_signed_transaction : Text → Script W Receipt
  -- `Date.now() / 1000`, rounded down
  pub now : Script W ℕ

-- `contract.methods` of the multisig contract. `transactionDetails` answers with the tuple of the
-- ABI, of which the scripts read the name and, by the key `excuteTime`, nothing: the field of the
-- ABI is `executeTime`.
pub record MulSigApi (W : Type 0) : Type 0 where
  pub get_signature_count : ℕ → Script W ℕ
  pub has_already_signed : ℕ → Text → Script W Bool
  pub transaction_details : ℕ → Script W MulSig.ProposalResponse
  pub estimate_sign_transaction : ℕ → Text → Script W ℕ
  -- `signTransaction(id).encodeABI()`
  pub encode_sign_transaction : ℕ → Text

-- `details.excuteTime`: the answer has no such key.
unfoldable pub excute_time : MulSig.ProposalResponse → Option ℕ
excute_time details = none

-- `Number(details.excuteTime || 0)`
unfoldable pub excute_time_or_zero : MulSig.ProposalResponse → ℕ
unfolding excute_time
excute_time_or_zero details = elim (excute_time details) [ none ↦ 0 | some t ↦ t ]

-- `parseInt(details.excuteTime) > time`: with no such key it is a comparison with `NaN`.
unfoldable pub excute_time_exceeds : MulSig.ProposalResponse → ℕ → Bool
unfolding excute_time
excute_time_exceeds details time = elim (excute_time details) [ none ↦ false | some t ↦ ltb time t ]

-- The views answer from the contract's state, and change nothing. `address_of` is the address that
-- a text stands for.
pub record ReadsContract {W : Type 0} (api : MulSigApi W) (contract : W → MulSig)
    (address_of : Text → Address) : Type 0 where
  pub reads_count :
      (id : ℕ) (w : W)
      → api.get_signature_count id w ≡ (ok (MulSig.get_signature_count id (contract w)), w)
  pub reads_signed :
      (id : ℕ) (a : Text) (w : W)
      → api.has_already_signed id a w
        ≡ (ok (MulSig.has_already_signed id (address_of a) (contract w)), w)
  pub reads_details :
      (id : ℕ) (w : W)
      → api.transaction_details id w ≡ (ok (MulSig.transaction_details id (contract w)), w)
