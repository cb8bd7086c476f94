-- ===== src/Upgrading/Manual.antt =====
-- scripts/manual-upgrade-producers.js: deploys new implementations of the Producer contracts.
use smart_contracts.Base.{
  ℕ, ◌||◌, Option, none, some, List, [], ◌∷◌, ◌++◌, if◌then◌else◌, Text, codes, text_eq, slice_last,
}
use smart_contracts.Script.{ok, Script, pure, throw, exit_with, try_catch, ◌>>=◌, ◌>>◌}
use smart_contracts.Script.Loop.{each}
use smart_contracts.Web3.{NodeApi}
use smart_contracts.Web3.Gas.{gas_with_buffer}
use smart_contracts.Upgrading.Api.{SetupApi}
use smart_contracts.Upgrading.Upgrade.{producer_abi}

-- `CONFIG`, with the proxies in the order of their keys.
pub record Config : Type 0 where
  pub foundation_manager_address : Text
  pub foundation_manager_private_key : Text
  pub producer_addresses : List (Text × Text)

-- The build files, the code and storage of contracts, and their creation.
pub record DeployApi (W : Type 0) : Type 0 where
  -- `loadContract`, its bytecode: a file that cannot be read ends the process.
  pub load_contract : Text → Script W Text
  pub get_code : Text → Script W Text
  pub get_storage_at : Text → Text → Script W Text
  pub estimate_deploy : Text → Script W ℕ
  -- The address and the transaction of the new contract.
  pub deploy : Text → ℕ → ℕ → Script W (Text × Text)
  -- The gas that a transaction used.
  pub get_transaction_receipt : Text → Script W ℕ

-- An element of `results`: the implementation that was found, or the error.
pub data Found : Type 0 where
  found : Text → Text → Text → Found
  missing : Text → Text → Text → Found

-- An entry of `deployedImplementations`, `none` for `null`.
pub record Deployment : Type 0 where
  pub kind : Text
  pub implementation : Option Text

abbrev pub deployment : Text → Option Text → Deployment
deployment kind implementation = record { kind = kind; implementation = implementation }

module _ {W : Type 0} (config : Config) (node : NodeApi W) (setup : SetupApi W)
    (api : DeployApi W) where
  -- Step 2 for one proxy: the last 20 bytes of the slot of EIP-1967.
  unfoldable pub check_one : Text × Text → Script W Found
  check_one (kind, proxy) =
      try_catch
        (do
          code ← api.get_code proxy
          if text_eq code (codes "0x")
              then throw (codes "No contract found at proxy address " ++ proxy)
              else pure tt
          slot ←
              api.get_storage_at proxy
                (codes "0x360894a13ba1a3210667c828492db98dca3e2076cc3735a920a3ca505d382bbc")
          pure (found kind proxy (codes "0x" ++ slice_last 40 slot)))
        (λ message. pure (missing kind proxy message))

  -- The creation, its receipt, and the wait of 30 seconds.
  unfoldable pub create : Text → Text → Script W Deployment
  create kind bytecode = do
    estimate ← api.estimate_deploy bytecode
    price ← node.get_gas_price
    (address, hash) ← api.deploy bytecode (gas_with_buffer 15 estimate) price
    api.get_transaction_receipt hash
    λ w. (ok (deployment kind (some address)), setup.sleep 30000 w)

  -- Step 3 for one kind.
  unfoldable pub deploy_one : Text → Script W Deployment
  deploy_one kind =
      try_catch (api.load_contract (producer_abi kind) >>= create kind)
        (λ _. pure (deployment kind none))

  -- Step 4: the deployments that count, whose code is looked at.
  unfoldable pub successful_deployments : List Deployment → Script W (List (Text × Text))
  successful_deployments [] = pure []
  successful_deployments (d ∷ ds) =
      let rest = successful_deployments ds in
      elim d.implementation [
        | none ↦ rest
        | some address ↦
            if text_eq address []
            then rest
            else (do api.get_code address; more ← rest; pure ((d.kind, address) ∷ more))
      ]

  -- The keys of `PRODUCER_ADDRESSES`.
  unfoldable pub kinds : List (Text × Text) → List Text
  kinds [] = []
  kinds (p ∷ ps) = p.0 ∷ kinds ps

  unfoldable pub manual_upgrade : Script W (List (Text × Text))
  manual_upgrade =
      try_catch
        (do
          if text_eq config.foundation_manager_address []
                || text_eq config.foundation_manager_private_key []
              then exit_with 1
              else pure tt
          setup.add_account config.foundation_manager_private_key
          try_catch (node.net_id >> node.block_number >>= λ _. pure tt) (λ _. exit_with 1)
          node.get_balance config.foundation_manager_address
          each check_one config.producer_addresses
          deployed ← each deploy_one (kinds config.producer_addresses)
          successful_deployments deployed)
        (λ _. exit_with 1)
