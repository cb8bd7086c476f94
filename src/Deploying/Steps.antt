-- ===== src/Deploying/Steps.antt =====
-- The steps that the scripts of scripts/deploy/ share. `currentEntry(state)` is the first entry of
-- the state that `record` updates in place, so a later lookup reads the updated state.
use smart_contracts.Base.{
  ℕ, Bool, true, false, if◌then◌else◌, Option, none, some, List, [], ◌∷◌, ◌++◌, Text, codes,
}
use smart_contracts.Script.{ok, err, exit, Script, pure, throw, exit_with, try_catch, ◌>>=◌, ◌>>◌}
use smart_contracts.Deployments.State.{
  State, FileApi, get_paths, load_state, current_entry, resolve_contract, record_contract,
}
use smart_contracts.Deploying.Api.{Arg, HardhatApi}

-- `resolveContract(currentEntry(state), state, key)`
unfoldable pub resolve : State → Text → Option Text
resolve state key = elim (current_entry state) [
  | ok e ↦ resolve_contract e state key
  | err m ↦ none
  | exit c ↦ none
]

-- `{ instance, address, blockNumber, txHash }`
pub record Info (I : Type 0) : Type 0 where
  pub contract : I
  pub address : Text
  pub block : ℕ
  pub tx : Text

-- A deployed contract, and the state that it is recorded in.
pub record Recorded (I : Type 0) : Type 0 where
  pub info : Info I
  pub state : State

-- `!state.entries || state.entries.length === 0`
unfoldable pub has_entries : State → Bool
has_entries state = elim state.entries [
  | none ↦ false
  | some es ↦ elim es [ [] ↦ false | e ∷ rest ↦ true ]
]

module _ {W : Type 0} where
  -- `required.forEach(…)`: the first key that is missing stops the script.
  unfoldable pub require_all : Text → List Text → State → Script W (Unit {0})
  require_all hint [] state = pure tt
  require_all hint (key ∷ keys) state =
      let rest = require_all hint keys state in
      elim (resolve state key) [
        | none ↦ throw (codes "Missing " ++ key ++ codes "; ensure " ++ hint)
        | some address ↦ rest
      ]

  -- `if (!state.entries || …) throw new Error(message)`
  unfoldable pub require_entries : Text → State → Script W (Unit {0})
  require_entries message state = if has_entries state then pure tt else throw message

  -- `main().catch((err) => { …; process.exit(1); })`
  unfoldable pub exit_on_error : {A : Type 0} → Script W A → Script W A
  exit_on_error main = try_catch main (λ _. exit_with 1)

module _ {W I : Type 0} (hardhat : HardhatApi W I) where
  unfoldable pub get_factories : List Text → Script W (Unit {0})
  get_factories [] = pure tt
  get_factories (name ∷ names) = do hardhat.get_contract_factory name; get_factories names

  unfoldable pub deploy_proxy_with_info : Text → List Arg → Option Text → Script W (Info I)
  deploy_proxy_with_info name args initializer = do
    contract ← hardhat.deploy_proxy name args initializer
    block ← hardhat.wait_deployment contract
    address ← hardhat.get_address contract
    pure (record {
      contract = contract;
      address = address;
      block = block;
      tx = hardhat.deployment_hash contract;
    })

  -- `await (await contract.method(...args)).wait()`
  unfoldable pub send_and_wait : I → Text → List Arg → Script W (Unit {0})
  send_and_wait contract method args = do
    hash ← hardhat.send contract method args
    hardhat.wait_for hash

  -- `(await ethers.getSigners())[0].address`
  unfoldable pub first_signer : Script W Text
  first_signer = do
    signers ← hardhat.get_signers
    elim signers [
      | [] ↦ throw (codes "Cannot read properties of undefined (reading 'address')")
      | a ∷ rest ↦ pure a
    ]

module _ {W I : Type 0} (files : FileApi W) (hardhat : HardhatApi W I) where
  -- `getPaths` and `loadState`, with the path.
  unfoldable pub open_state : Script W (Text × State)
  open_state = do
    json ← get_paths files hardhat.network_name
    state ← load_state files json hardhat.network_name
    pure (json, state)

  -- A deployment, and its record.
  unfoldable pub deploy_and_record :
      Text → Text → Text → List Arg → Option Text → State → Script W (Recorded I)
  deploy_and_record json key name args initializer state = do
    info ← deploy_proxy_with_info hardhat name args initializer
    state' ← record_contract files json (some state) key info.address info.block info.tx
    pure (record { info = info; state = state' })
