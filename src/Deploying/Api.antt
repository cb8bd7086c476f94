-- ===== src/Deploying/Api.antt =====
-- What the deployment scripts use of hardhat and of the contracts that they deploy. `I` stands for
-- the instances of contracts.
use smart_contracts.Base.{ℕ, Bool, Option, none, some, List, Text}
use smart_contracts.Script.{Script}

-- An argument of a contract's function; `undefined` is `missing`.
pub data Arg : Type 0 where
  text : Text → Arg
  texts : List Text → Arg
  num : ℕ → Arg
  missing : Arg

abbrev pub arg_of : Option Text → Arg
arg_of none = missing
arg_of (some a) = text a

-- hardhat with its plugin for upgrades, and ethers.
pub record HardhatApi (W I : Type 0) : Type 0 where
  -- `network.name`
  pub network_name : Text
  pub get_contract_factory : Text → Script W (Unit {0})
  -- the contract's name, the arguments, and the initializer or `initializer: false`
  pub deploy_proxy : Text → List Arg → Option Text → Script W I
  -- `deploymentTransaction().hash`, and the block of the receipt that `wait()` brings
  pub deployment_hash : I → Text
  pub wait_deployment : I → Script W ℕ
  pub get_address : I → Script W Text
  -- a contract of this name at an address
  pub attach : Text → Option Text → I
  -- a transaction of the default signer, with its hash, and its `wait()`
  pub send : I → Text → List Arg → Script W Text
  pub wait_for : Text → Script W (Unit {0})
  -- the same of another signer
  pub send_as : Text → I → Text → List Arg → Script W Text
  -- the addresses of `ethers.getSigners()`
  pub get_signers : Script W (List Text)
  -- `ethers.provider.getCode`
  pub get_code : Text → Script W Text
  -- the views of Roles and the owner of a contract
  pub role : I → Text → Script W Text
  pub has_role : I → Text → Text → Script W Bool
  pub owner : I → Script W Text
  -- `ethers.getAddress`, which throws for a text that is no address
  pub to_checksum : Text → Option Text
  -- `process.env`
  pub env : Text → Option Text
