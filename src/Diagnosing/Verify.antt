-- ===== src/Diagnosing/Verify.antt =====
-- scripts/verify-mulsig-address.js: whether the Producer contracts hold the multisig contract's
-- address.
use smart_contracts.Base.{
  ℕ, Bool, ◌||◌, Option, none, some, List, [], if◌then◌else◌, Text, codes, text_eq,
}
use smart_contracts.Script.{Script, pure, exit_with, try_catch, lift, ◌>>=◌, ◌>>◌}
use smart_contracts.Script.Loop.{each}
use smart_contracts.Signing.TxHash.{includes}
use smart_contracts.Proposing.Check.{indices}
use smart_contracts.Upgrading.Api.{zero_address}
use smart_contracts.Upgrading.Fix.{treasure_kinds}
use smart_contracts.Diagnosing.Api.{ReadApi, address_of_word}

-- `CONFIG`
pub record Config : Type 0 where
  pub mulsig_address : Text
  pub executor_address : Text

-- Governance and a Producer at an address.
pub record VerifyApi (W : Type 0) : Type 0 where
  -- the first component of `getTreasureByKind(kind)`
  pub producer_of : Text → Script W Text
  pub get_storage_at : Text → ℕ → Script W Text
  -- `registerDAppConnect(name, payee).call({ from })`
  pub call_register : Text → Text → Text → Text → Script W (Unit {0})
  -- its call data, and the estimate of a call of them by an address
  pub encode_register : Text → Text → Text → Script W Text
  pub estimate_gas : Text → Text → Text → Script W ℕ

-- A slot that is not empty, read as an address, and whether that is the multisig contract's.
pub record Slot : Type 0 where
  pub slot : ℕ
  pub word : Text
  pub address : Text
  pub is_mulsig : Bool

-- How the call from the multisig contract ends, and where it fails that of the executor.
pub data CallResult : Type 0 where
  succeeded : CallResult
  reached : CallResult
  also_succeeded : CallResult
  not_set : CallResult
  different : Text → CallResult

pub data KindReport : Type 0 where
  no_producer : KindReport
  unreadable : Text → KindReport
  unchecked : Text → KindReport
  checked : List (Option Slot) → CallResult → KindReport

-- The estimate of the direct call, where it was made.
pub data Estimate : Type 0 where
  not_asked : Estimate
  estimated : ℕ → Estimate
  refused : Text → Estimate
  failed : Text → Estimate

pub record Verification : Type 0 where
  pub kinds : List KindReport
  pub direct : Estimate

abbrev pub empty_word : Text
empty_word = codes "0x0000000000000000000000000000000000000000000000000000000000000000"

abbrev pub test_payee : Text
test_payee = codes "0x1234567890123456789012345678901234567891"

-- `address && address !== '0x000…'`
unfoldable pub is_absent : Text → Bool
is_absent a = text_eq a [] || text_eq a zero_address

module _ {W : Type 0} (config : Config) (read : ReadApi W) (api : VerifyApi W) where
  unfoldable pub read_slot : Text → ℕ → Script W (Option Slot)
  read_slot producer slot = do
    word ← api.get_storage_at producer slot
    if text_eq word empty_word then pure none else (do
      address ← lift (read.to_checksum_address (address_of_word word))
      mulsig ← lift (read.to_checksum_address config.mulsig_address)
      pure (
          some (record {
            slot = slot;
            word = word;
            address = address;
            is_mulsig = text_eq address mulsig;
          })))

  unfoldable pub call_as_executor : Text → Script W CallResult
  call_as_executor producer =
      try_catch
        (api.call_register producer (codes "TestDApp") test_payee config.executor_address
          >> pure also_succeeded)
        (λ message. pure (
          if includes
            (codes "Error happened while trying to execute a function inside a smart contract")
            message
          then not_set
          else different message))

  unfoldable pub call_as_mulsig : Text → Script W CallResult
  call_as_mulsig producer =
      try_catch
        (api.call_register producer (codes "TestDApp") test_payee config.mulsig_address
          >> pure succeeded)
        (λ message.
          if includes (codes "empty dapp name") message
            || includes (codes "dapp already registered") message
          then pure reached
          else call_as_executor producer)

  -- The ten first slots, and the call.
  unfoldable pub check_producer : Text → Script W KindReport
  check_producer producer =
      try_catch
        (do
          slots ← each (read_slot producer) (indices 10 0)
          result ← call_as_mulsig producer
          pure (checked slots result))
        (λ message. pure (unchecked message))

  unfoldable pub verify_kind : Text → Script W KindReport
  verify_kind kind =
      try_catch
        (do
          producer ← api.producer_of kind
          if is_absent producer then pure no_producer else check_producer producer)
        (λ message. pure (unreadable message))

  unfoldable pub estimate_direct : Text → Script W Estimate
  estimate_direct producer = do
    call_data ← api.encode_register producer (codes "OtterStreamTest") test_payee
    try_catch
        (api.estimate_gas config.mulsig_address producer call_data >>= λ n. pure (estimated n))
        (λ message. pure (refused message))

  unfoldable pub test_direct : Script W Estimate
  test_direct =
      try_catch
        (do
          producer ← api.producer_of (codes "OIL")
          if is_absent producer then pure not_asked else estimate_direct producer)
        (λ message. pure (failed message))

  unfoldable pub verify_mul_sig_addresses : Script W Verification
  verify_mul_sig_addresses =
      try_catch
        (do
          read.add_account
          read.load_abi (codes "Governance")
          read.load_abi (codes "Producer")
          kinds ← each verify_kind treasure_kinds
          direct ← test_direct
          pure (record { kinds = kinds; direct = direct }))
        (λ _. exit_with 1)
