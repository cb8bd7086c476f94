-- ===== src/Upgrading/Upgrade.antt =====
-- scripts/upgrade-via-proxyadmin.js: upgrades the Producer contracts through their ProxyAdmin.
use smart_contracts.Base.{
  Bool, true, false, not, ◌||◌, List, [], ◌∷◌, if◌then◌else◌, Text, codes, text_eq, same_address,
  length, leb,
}
use smart_contracts.Script.{ok, Script, pure, exit_with, try_catch, ◌>>=◌, ◌>>◌}
use smart_contracts.Script.Loop.{each}
use smart_contracts.Web3.{NodeApi}
use smart_contracts.Web3.Gas.{gas_with_buffer}
use smart_contracts.Upgrading.Api.{
  skipped, failed, Report, report, sent_report, SetupApi, ProducerApi, ProxyAdminApi,
}

-- An entry of `CONFIG.UPGRADES`, with its key.
pub record Entry : Type 0 where
  pub kind : Text
  pub proxy : Text
  pub new_implementation : Text

-- An entry with the flag `needsUpgrade` that the third step gives it.
pub record Checked : Type 0 where
  pub entry : Entry
  pub needs_upgrade : Bool

-- `CONFIG`
pub record Config : Type 0 where
  pub proxy_admin_address : Text
  pub foundation_manager_address : Text
  pub foundation_manager_private_key : Text
  pub upgrades : List Entry

-- What the script ends with: its results, and the flags `functionWorking`.
pub record Summary : Type 0 where
  pub results : List Report
  pub function_working : List Bool

unfoldable pub missing_implementations : List Entry → List Text
missing_implementations [] = []
missing_implementations (e ∷ es) =
    let rest = missing_implementations es in
    if text_eq e.new_implementation [] then e.kind ∷ rest else rest

-- The ABI that belongs to a kind.
unfoldable pub producer_abi : Text → Text
producer_abi kind =
    if text_eq kind (codes "OIL")
    then codes "OilProducer"
    else if text_eq kind (codes "GAS")
    then codes "GasProducer"
    else if text_eq kind (codes "ETH")
    then codes "EthProducer"
    else codes "BtcProducer"

module _ {W : Type 0} (config : Config) (node : NodeApi W) (setup : SetupApi W)
    (admin : ProxyAdminApi W) (api : ProducerApi W) where
  -- Step 3 for one entry: where the implementation cannot be read, an upgrade is needed.
  unfoldable pub check_one : Entry → Script W Checked
  check_one e =
      try_catch
        (do
          current ← admin.get_proxy_implementation e.proxy
          pure (record {
            entry = e;
            needs_upgrade = not (same_address current e.new_implementation);
          }))
        (λ _. pure (record { entry = e; needs_upgrade = true }))

  -- The estimate, the transaction, and the wait of 30 seconds.
  unfoldable pub upgrade_entry : Entry → Script W Report
  upgrade_entry e =
      try_catch
        (do
          estimate ← admin.estimate_upgrade e.proxy e.new_implementation
          price ← node.get_gas_price
          receipt ← admin.upgrade e.proxy e.new_implementation (gas_with_buffer 15 estimate) price
          λ w. (ok (sent_report e.kind receipt), setup.sleep 30000 w))
        (λ message. pure (report e.kind (failed message)))

  -- Step 4 for one entry.
  unfoldable pub upgrade_one : Checked → Script W Report
  upgrade_one c =
      if c.needs_upgrade
      then upgrade_entry c.entry
      else pure (report c.entry.kind (skipped (codes "Already up to date")))

  -- The test of the new function, with the address of the multisig contract.
  unfoldable pub test_function : Entry → Script W Bool
  test_function e =
      try_catch
        (do
          setup.load_abi (producer_abi e.kind)
          api.estimate_set_mul_sig_contract e.proxy
              (codes "0x2c188Cf07c4370F6461066827bd1c6A856ab9B70")
          pure true)
        (λ _. pure false)

  -- Step 5 for one entry: `functionWorking`.
  unfoldable pub verify_one : Entry → Script W Bool
  verify_one e =
      try_catch
        (do
          current ← admin.get_proxy_implementation e.proxy
          if same_address current e.new_implementation then test_function e else pure false)
        (λ _. pure false)

  -- Steps 3 and 4.
  unfoldable pub check_and_upgrade : List Entry → Script W (List Report)
  check_and_upgrade entries = do
    checked ← each check_one entries
    node.net_id
    each upgrade_one checked

  -- Steps 3 to 5.
  unfoldable pub upgrade_all : Script W Summary
  upgrade_all = do
    results ← check_and_upgrade config.upgrades
    working ← each verify_one config.upgrades
    pure (record { results = results; function_working = working })

  unfoldable pub upgrade_via_proxy_admin : Script W Summary
  upgrade_via_proxy_admin =
      try_catch
        (do
          if text_eq config.proxy_admin_address [] then exit_with 1 else pure tt
          if text_eq config.foundation_manager_address []
                || text_eq config.foundation_manager_private_key []
              then exit_with 1
              else pure tt
          if leb 1 (length (missing_implementations config.upgrades)) then exit_with 1 else pure tt
          setup.add_account config.foundation_manager_private_key
          try_catch (node.net_id >> node.block_number >>= λ _. pure tt) (λ _. exit_with 1)
          node.get_balance config.foundation_manager_address
          try_catch (admin.owner >>= λ _. pure tt) (λ _. pure tt)
          upgrade_all)
        (λ _. exit_with 1)
