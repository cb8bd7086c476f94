-- ===== src/Upgrading/Truffle.antt =====
-- scripts/upgrade/: what the migrations use of truffle, and the five that upgrade one contract.
use smart_contracts.Base.{
  ℕ, ◌-◌, Bool, true, false, [], ◌&&◌, ◌||◌, Option, none, some, ◌++◌, leb, if◌then◌else◌, Text,
  codes, text_eq, map,
}
use smart_contracts.Script.{Script, pure, throw, try_catch, ◌>>=◌, ◌>>◌}
use smart_contracts.Signing.TxHash.{includes}

pub record TruffleApi (W : Type 0) : Type 0 where
  -- `process.env`
  pub env : Text → Option Text
  -- the address of `(await Contract.deployed())`
  pub deployed : Text → Script W Text
  -- `upgradeProxy(address, Contract, { deployer, force })`, and the address of the result
  pub upgrade_proxy : Text → Text → Bool → Script W Text
  pub force_import : Text → Text → Script W (Unit {0})
  pub append_file : Text → Text → Script W (Unit {0})
  -- `artifacts.require(name)`
  pub require_artifact : Text → Script W (Unit {0})
  -- `Governance.at(address)`, and the first component of its `getTreasureByKind(kind)`
  pub governance_at : Text → Script W (Unit {0})
  pub get_treasure_by_kind : Text → Script W Text
  -- a timer of so many milliseconds
  pub sleep : ℕ → W → W

-- `toUpperCase` on the ASCII letters, of which the names of networks and contracts are made.
unfoldable pub upper_code : ℕ → ℕ
upper_code c = if leb b'a' c && leb c b'z' then c - 32 else c

unfoldable pub to_upper : Text → Text
to_upper = map upper_code

-- How a migration ends: no error leaves it.
pub data Migrated : Type 0 where
  upgraded : Text → Migrated
  no_address : Migrated
  failed : Text → Migrated

-- `a || b`, where an absent text and the empty one do not count.
unfoldable pub or_else : Option Text → Option Text → Option Text
or_else none b = b
or_else (some a) b = if text_eq a [] then b else some a

-- `process.env[`${network.toUpperCase()}_${name}_ADDRESS`] || process.env.${name}_ADDRESS`
unfoldable pub address_from_env : (Text → Option Text) → Text → Text → Option Text
address_from_env env name network =
    or_else (env (to_upper network ++ codes "_" ++ name ++ codes "_ADDRESS"))
      (env (name ++ codes "_ADDRESS"))

-- `!address || address === '' || address.includes('...')`
unfoldable pub no_valid_address : Option Text → Bool
no_valid_address none = true
no_valid_address (some a) = text_eq a [] || includes (codes "...") a

-- The two wordings of the error for no network.
abbrev pub oracle_no_network : Text
oracle_no_network = codes "No network specified, use --network"

abbrev pub tcash_no_network : Text
tcash_no_network = codes "Network not specified; use --network flag"

module _ {W : Type 0} (truffle : TruffleApi W) where
  -- The address of the deployed contract, or one from the environment.
  unfoldable pub current_address : Text → Text → Text → Script W (Option Text)
  current_address name env_name network =
      try_catch (truffle.deployed name >>= λ a. pure (some a))
        (λ _. pure (address_from_env truffle.env env_name network))

  -- The upgrade, and the note of it in a file, which may fail.
  unfoldable pub upgrade_at : Text → Text → Text → Text → Script W Migrated
  upgrade_at name no_network network address = do
    if text_eq network [] then throw no_network else pure tt
    new_address ← truffle.upgrade_proxy address name false
    try_catch
        (truffle.append_file (codes "upgraded_contracts.txt")
          (name ++ codes "=" ++ new_address ++ codes "\n"))
        (λ _. pure tt)
    pure (upgraded new_address)

  unfoldable pub upgrade_address : Text → Text → Text → Option Text → Script W Migrated
  upgrade_address name no_network network none = pure no_address
  upgrade_address name no_network network (some a) =
      if no_valid_address (some a) then pure no_address else upgrade_at name no_network network a

  -- The migration of one contract, with the message for an empty name of the network.
  unfoldable pub upgrade_contract : Text → Text → Text → Text → Script W Migrated
  upgrade_contract name env_name no_network network =
      try_catch
        (do
          address ← current_address name env_name network
          upgrade_address name no_network network address)
        (λ message. pure (failed message))

  unfoldable pub upgrade_oracle : Text → Script W Migrated
  upgrade_oracle = upgrade_contract (codes "Oracle") (codes "ORACLE") oracle_no_network

  unfoldable pub upgrade_tcash : Text → Script W Migrated
  upgrade_tcash = upgrade_contract (codes "TCash") (codes "TCASH") tcash_no_network

  unfoldable pub upgrade_tcash_auction : Text → Script W Migrated
  upgrade_tcash_auction =
      upgrade_contract (codes "TCashAuction") (codes "TCASHAUCTION") tcash_no_network

  unfoldable pub upgrade_tcash_loan : Text → Script W Migrated
  upgrade_tcash_loan = upgrade_contract (codes "TCashLoan") (codes "TCASHLOAN") tcash_no_network

  unfoldable pub upgrade_wtcash : Text → Script W Migrated
  upgrade_wtcash = upgrade_contract (codes "WTCASH") (codes "WTCASH") oracle_no_network

  unfoldable pub force_import_wtcash : Script W (Unit {0})
  force_import_wtcash =
      truffle.force_import (codes "0x5293caC8b36FeDDAB87988F076db441bbb99D144") (codes "WTCASH")
