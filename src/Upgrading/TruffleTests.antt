-- ===== src/Upgrading/TruffleTests.antt =====
-- Migrations on a network that always answers.
use smart_contracts.Base.{ℕ, ◌+◌, ◌≡◌, refl, none, some, codes, if◌then◌else◌, text_eq}
use smart_contracts.Script.{ok, err}
use smart_contracts.Signing.TxHash.{includes, strip_prefix}
use smart_contracts.Upgrading.Truffle.{
  TruffleApi, upgraded, upgrade_contract, upgrade_tcash, address_from_env, or_else, to_upper,
  upper_code, no_valid_address, current_address, upgrade_address, upgrade_at,
}
use smart_contracts.Upgrading.Migration.{treasure_kind, remove_first}

-- No contract is deployed under its name, the environment knows one address for every network, and
-- the world counts the upgrades.
abbrev truffle : TruffleApi ℕ
truffle = record {
  env = λ name. if text_eq name (codes "TCASH_ADDRESS") then some (codes "0x05") else none;
  deployed = λ name w. (err (codes "not deployed"), w);
  upgrade_proxy = λ address name force w. (ok (codes "0x06"), w + 1);
  force_import = λ address name w. (ok tt, w);
  append_file = λ file line w. (err (codes "read-only"), w);
  require_artifact = λ name w. (ok tt, w);
  governance_at = λ address w. (ok tt, w);
  get_treasure_by_kind =
      λ kind w. (if text_eq kind (codes "GAS") then err (codes "no such kind") else ok kind, w);
  sleep = λ ms w. w;
}

-- The network's own variable is not set, so the general one counts; the note in the file fails.
tcash_run : upgrade_tcash truffle (codes "dev") 0 ≡ (ok (upgraded (codes "0x06")), 1)
unfolding upgrade_tcash upgrade_contract current_address upgrade_address upgrade_at address_from_env
    or_else to_upper upper_code no_valid_address includes strip_prefix text_eq codes
tcash_run = refl

oil_kind : treasure_kind (codes "OilProducer") ≡ codes "OIL"
unfolding treasure_kind remove_first strip_prefix to_upper upper_code codes
oil_kind = refl
