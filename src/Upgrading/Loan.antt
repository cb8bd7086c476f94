-- ===== src/Upgrading/Loan.antt =====
-- scripts/upgrade-tcashloan.js
use smart_contracts.Base.{ℕ, Option, none, some, Text, codes}
use smart_contracts.Script.{ok, Script, pure, throw, exit_with, try_catch, ◌>>=◌, ◌>>◌}
use smart_contracts.Upgrading.Truffle.{or_else}

-- hardhat with its plugins for upgrades and verification.
pub record HardhatApi (W : Type 0) : Type 0 where
  pub get_contract_factory : Text → Script W (Unit {0})
  pub env : Text → Option Text
  -- `upgrades.upgradeProxy(address, factory)`, the call `deployed()` of what it gives, and the
  -- address of that
  pub upgrade_proxy : Text → Text → Script W (Unit {0})
  pub deployed : Script W (Unit {0})
  pub upgraded_address : Script W Text
  -- `run('verify:verify', …)`
  pub verify : Text → Script W (Unit {0})
  pub sleep : ℕ → W → W

module _ {W : Type 0} (hardhat : HardhatApi W) where
  -- The verification may fail.
  unfoldable pub upgrade_loan : Text → Script W (Unit {0})
  upgrade_loan proxy = do
    hardhat.upgrade_proxy proxy (codes "TCashLoan")
    hardhat.deployed
    address ← hardhat.upgraded_address
    λ w. (ok tt, hardhat.sleep 60000 w)
    try_catch (hardhat.verify address) (λ _. pure tt)

  unfoldable pub main : Script W (Unit {0})
  main = do
    hardhat.get_contract_factory (codes "TCashLoan")
    elim (or_else (hardhat.env (codes "TCASHLOAN_PROXY_ADDRESS")) none) [
      | none ↦
          throw
            (codes "Please set the TCASHLOAN_PROXY_ADDRESS environment variable in the .env file")
      | some proxy ↦ upgrade_loan proxy
    ]

  -- `main().then(() => process.exit(0)).catch((error) => { …; process.exit(1); })`
  unfoldable pub upgrade_tcash_loan_script : Script W (Unit {0})
  upgrade_tcash_loan_script = try_catch (main >> exit_with 0) (λ _. exit_with 1)
