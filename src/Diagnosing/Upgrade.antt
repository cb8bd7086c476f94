-- ===== src/Diagnosing/Upgrade.antt =====
-- scripts/diagnose-upgrade-issue.js: why an upgrade over ProxyAdmin fails.
use smart_contracts.Base.{
  ℕ, Bool, Option, none, some, List, if◌then◌else◌, Text, codes, text_eq, same_address,
}
use smart_contracts.Script.{Script, pure, exit_with, try_catch, ◌>>=◌, ◌>>◌}
use smart_contracts.Script.Loop.{each}
use smart_contracts.Signing.TxHash.{includes}
use smart_contracts.Diagnosing.Api.{ReadApi}

-- `CONFIG`: the proxy and the new implementation of every kind.
pub record Config : Type 0 where
  pub proxy_admin_address : Text
  pub foundation_manager_address : Text
  pub producers : List (Text × Text)

-- ProxyAdmin at its address.
pub record ProxyAdminApi (W : Type 0) : Type 0 where
  pub owner : Script W Text
  pub get_proxy_admin : Text → Script W Text
  pub get_proxy_implementation : Text → Script W Text
  -- `upgrade(proxy, implementation)`: the estimate and the call, by the manager
  pub estimate_upgrade : Text → Text → Script W ℕ
  pub call_upgrade : Text → Text → Script W (Unit {0})
  pub get_balance : Text → Script W ℕ

pub data AdminCheck : Type 0 where
  no_contract : AdminCheck
  owned : Bool → AdminCheck
  failed : Text → AdminCheck

-- The hint that is logged below a failing call or estimate.
pub data Hint : Type 0 where
  reverted : Hint
  not_owner : Hint
  no_funds : Hint
  no_hint : Hint

pub data UpgradeTest : Type 0 where
  no_implementation : UpgradeTest
  passed : ℕ → UpgradeTest
  call_failed : ℕ → Text → Hint → UpgradeTest
  test_failed : Text → Hint → UpgradeTest

-- Whether the admin is the expected one, with the implementation; or the error.
pub data ProxyCheck : Type 0 where
  admin_of : Bool → Text → ProxyCheck
  unreadable : Text → ProxyCheck

pub record Diagnosis : Type 0 where
  pub admin : AdminCheck
  pub proxies : List ProxyCheck
  pub upgrades : List UpgradeTest
  pub balance : ℕ
  pub is_owner : Bool

module _ {W : Type 0} (config : Config) (read : ReadApi W) (api : ProxyAdminApi W) where
  unfoldable pub check_admin : Script W AdminCheck
  check_admin =
      try_catch
        (do
          code ← read.get_code config.proxy_admin_address
          if text_eq code (codes "0x")
              then pure no_contract
              else api.owner >>= λ owner.
                  pure (owned (same_address owner config.foundation_manager_address)))
        (λ message. pure (failed message))

  unfoldable pub check_proxy : Text × Text → Script W ProxyCheck
  check_proxy (proxy, implementation) =
      try_catch
        (do
          admin ← api.get_proxy_admin proxy
          current ← api.get_proxy_implementation proxy
          pure (admin_of (same_address admin config.proxy_admin_address) current))
        (λ message. pure (unreadable message))

  unfoldable pub call_hint : Text → Hint
  call_hint message =
      if includes (codes "revert") message
      then reverted
      else if includes (codes "owner") message
      then not_owner
      else no_hint

  unfoldable pub test_hint : Text → Hint
  test_hint message =
      if includes (codes "execution reverted") message
      then reverted
      else if includes (codes "insufficient funds") message
      then no_funds
      else no_hint

  unfoldable pub try_upgrade : Text → Text → Script W UpgradeTest
  try_upgrade proxy implementation = do
    estimate ← api.estimate_upgrade proxy implementation
    try_catch (api.call_upgrade proxy implementation >> pure (passed estimate))
        (λ message. pure (call_failed estimate message (call_hint message)))

  unfoldable pub test_upgrade : Text × Text → Script W UpgradeTest
  test_upgrade (proxy, implementation) =
      try_catch
        (do
          code ← read.get_code implementation
          if text_eq code (codes "0x")
              then pure no_implementation
              else try_upgrade proxy implementation)
        (λ message. pure (test_failed message (test_hint message)))

  -- Steps 2 to 5.
  unfoldable pub diagnose_further : AdminCheck → Script W Diagnosis
  diagnose_further admin = do
    proxies ← each check_proxy config.producers
    upgrades ← each test_upgrade config.producers
    balance ← api.get_balance config.foundation_manager_address
    owner ← api.owner
    pure (record {
      admin = admin;
      proxies = proxies;
      upgrades = upgrades;
      balance = balance;
      is_owner = same_address owner config.foundation_manager_address;
    })

  -- Without a ProxyAdmin there is nothing to look at.
  unfoldable pub after_admin : AdminCheck → Script W (Option Diagnosis)
  after_admin no_contract = pure none
  after_admin (owned same) = diagnose_further (owned same) >>= λ d. pure (some d)
  after_admin (failed message) = diagnose_further (failed message) >>= λ d. pure (some d)

  unfoldable pub diagnose_upgrade_issue : Script W (Option Diagnosis)
  diagnose_upgrade_issue =
      try_catch (do read.add_account; admin ← check_admin; after_admin admin) (λ _. exit_with 1)
