-- ===== src/Proposing/Direct.antt =====
-- scripts/direct-register-dapp.js: tries to register a dapp without a proposal.
use smart_contracts.Base.{
  Bool, true, false, not, [], ◌||◌, Option, none, some, ◌++◌, if◌then◌else◌, Text, codes, text_eq,
  same_address,
}
use smart_contracts.Script.{Script, pure, throw, exit_with, try_catch, ◌>>=◌, ◌>>◌}
use smart_contracts.Web3.{Receipt}
use smart_contracts.Upgrading.Api.{zero_address}

-- `CONFIG`
pub record Config : Type 0 where
  pub private_key : Text
  pub treasure_kind : Text
  pub dapp_name : Text
  pub payee_address : Text

-- The wallet, Governance, and the Producer at an address.
pub record DirectApi (W : Type 0) : Type 0 where
  pub add_account : Text → Script W Text
  -- `loadContractABI`: a file that cannot be read ends the process.
  pub load_abi : Text → Script W (Unit {0})
  -- the first component of `getTreasureByKind(kind)`
  pub producer_of : Text → Script W Text
  pub owner : Text → Script W Text
  -- `keccak256(encodePacked(name, payee))`
  pub dapp_id : Text → Text → Script W Text
  pub get_dapp_payee : Text → Text → Script W Text
  -- `registerDAppConnect` and `registerDAppConnectAdmin`, with their sender
  pub register_dapp_connect : Text → Text → Text → Text → Script W Receipt
  pub register_dapp_connect_admin : Text → Text → Text → Text → Script W Receipt
  pub get_storage_at : Text → Text → Script W Text

-- How the direct call ended: the dapp was registered before, it is now, or the call failed.
pub data Attempt : Type 0 where
  already : Text → Attempt
  registered : Text → Text → Attempt
  refused : Text → Attempt

-- What the script learns: the owner's test, the attempt, whether the admin method worked, and
-- whether the contract looks upgradeable. After `already` it looks no further.
pub record Result : Type 0 where
  pub is_owner : Option Bool
  pub attempt : Attempt
  pub admin : Bool
  pub upgradeable : Option Bool

module _ {W : Type 0} (config : Config) (api : DirectApi W) where
  unfoldable pub check_owner : Text → Text → Script W (Option Bool)
  check_owner producer account =
      try_catch (api.owner producer >>= λ owner. pure (some (same_address owner account)))
        (λ _. pure none)

  -- The payee under the dapp's id, where it is registered.
  unfoldable pub existing_payee : Text → Text → Script W (Option Text)
  existing_payee producer id =
      try_catch (api.get_dapp_payee producer id >>= λ payee. pure (some payee)) (λ _. pure none)

  unfoldable pub call_directly : Text → Text → Text → Option Text → Script W Attempt
  call_directly producer account id (some payee) = pure (already payee)
  call_directly producer account id none = do
    receipt ← api.register_dapp_connect producer config.dapp_name config.payee_address account
    pure (registered receipt.transaction_hash id)

  unfoldable pub attempt_direct : Text → Text → Script W Attempt
  attempt_direct producer account =
      try_catch
        (do
          id ← api.dapp_id config.dapp_name config.payee_address
          payee ← existing_payee producer id
          call_directly producer account id payee)
        (λ message. pure (refused message))

  unfoldable pub attempt_admin : Text → Text → Script W Bool
  attempt_admin producer account =
      try_catch
        (do
          api.register_dapp_connect_admin producer config.dapp_name config.payee_address account
          pure true)
        (λ _. pure false)

  -- The slot of the implementation, compared with an empty word.
  unfoldable pub check_upgradeable : Text → Script W (Option Bool)
  check_upgradeable producer =
      try_catch
        (do
          word ←
              api.get_storage_at producer
                (codes "0x360894a13ba1a3210667c828492db98dca3e2076cc3735a920a3ca505d382bbc")
          pure (
              some (
                not (
                  text_eq word
                    (codes "0x0000000000000000000000000000000000000000000000000000000000000000")))))
        (λ _. pure none)

  unfoldable pub after_attempt : Text → Text → Option Bool → Attempt → Script W Result
  after_attempt producer account is_owner (already payee) =
      pure
        (record { is_owner = is_owner; attempt = already payee; admin = false; upgradeable = none })
  after_attempt producer account is_owner attempt = do
    admin ← attempt_admin producer account
    upgradeable ← check_upgradeable producer
    pure (record {
      is_owner = is_owner;
      attempt = attempt;
      admin = admin;
      upgradeable = upgradeable;
    })

  unfoldable pub direct_register_dapp : Script W Result
  direct_register_dapp =
      try_catch
        (do
          account ← api.add_account config.private_key
          api.load_abi (codes "Governance")
          producer ← api.producer_of config.treasure_kind
          if text_eq producer [] || text_eq producer zero_address
              then throw (codes "Treasure kind \"" ++ config.treasure_kind ++ codes "\" not found")
              else pure tt
          api.load_abi (codes "OilProducer")
          is_owner ← check_owner producer account
          attempt ← attempt_direct producer account
          after_attempt producer account is_owner attempt)
        (λ _. exit_with 1)
