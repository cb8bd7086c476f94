-- ===== src/Diagnosing/Api.antt =====
-- What the scripts that only read use of web3 and of the contracts.
use smart_contracts.Base.{ℕ, ◌-◌, Bool, ◌++◌, Text, codes, drop, length}
use smart_contracts.Script.{Outcome, Script}

pub record ReadApi (W : Type 0) : Type 0 where
  -- the account of the script's private key, in the wallet
  pub add_account : Script W Text
  -- `loadContractABI`: a file that cannot be read ends the process.
  pub load_abi : Text → Script W (Unit {0})
  pub get_storage_at : Text → Text → Script W Text
  pub get_code : Text → Script W Text
  -- the views `admin()` and `implementation()` of a proxy
  pub admin : Text → Script W Text
  pub implementation : Text → Script W Text
  -- `web3.utils.toChecksumAddress`, which throws for a text that is no address
  pub to_checksum_address : Text → Outcome Text

-- The views of Roles.
pub record RolesApi (W : Type 0) : Type 0 where
  pub foundation_manager : Script W Text
  pub get_admin : Script W Text
  pub has_role : Text → Text → Script W Bool
  pub get_role_admin : Text → Script W Text
  pub get_role_member_count : Text → Script W ℕ
  pub get_role_member : Text → ℕ → Script W Text

-- The slots of EIP-1967.
abbrev pub admin_slot : Text
admin_slot = codes "0xb53127684a568b3173ae13b9f8a6016e243e63b6e8ee1178d6a717850b5d6103"

abbrev pub implementation_slot : Text
implementation_slot = codes "0x360894a13ba1a3210667c828492db98dca3e2076cc3735a920a3ca505d382bbc"

-- `0x${word.slice(-40)}`
unfoldable pub address_of_word : Text → Text
address_of_word word = codes "0x" ++ drop (length word - 40) word
