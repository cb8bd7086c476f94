-- ===== src/Upgrading/Migrates.antt =====
-- The migrations of scripts/upgrade/ end, and upgrade only what they were pointed at.
use smart_contracts.Base.{◌≡◌, ◌⊎◌, Bool, true, false, Option, some, Text}
use smart_contracts.Script.{ok, err}
use smart_contracts.Script.Ends.{NeverExits}
use smart_contracts.Upgrading.Truffle
use smart_contracts.Upgrading.Truffle.{
  TruffleApi, Migrated, upgraded, no_address, address_from_env, no_valid_address,
}

-- Calls of truffle return or throw: they do not end the process.
pub record TruffleReturns {W : Type 0} (truffle : TruffleApi W) : Type 0 where
  pub deployed_returns : (name : Text) → NeverExits (truffle.deployed name)
  pub upgrade_returns :
      (address name : Text) (force : Bool) → NeverExits (truffle.upgrade_proxy address name force)
  pub append_returns : (file line : Text) → NeverExits (truffle.append_file file line)
  pub artifact_returns : (name : Text) → NeverExits (truffle.require_artifact name)
  pub kind_returns : (kind : Text) → NeverExits (truffle.get_treasure_by_kind kind)

module _ {W : Type 0} (truffle : TruffleApi W) (returns : TruffleReturns truffle) where
  -- The address that the migration goes by in `w`, and the world after asking.
  abbrev pub Chosen : Text → Text → Text → W → Option Text → W → Type 0
  Chosen name env_name network w address w₁ =
      ((a : Text) × (truffle.deployed name w ≡ (ok a, w₁)) × (address ≡ some a))
      ⊎ ((m : Text) × (truffle.deployed name w ≡ (err m, w₁))
          × (address ≡ address_from_env truffle.env env_name network))

  -- What the result of the migration says of the calls that were made.
  abbrev pub Tells : Text → Option Text → W → Migrated → Type 0
  Tells name address w₁ r =
      ((b : Text)
        → r ≡ upgraded b
        → (a : Text) × (w₂ : W) × (address ≡ some a)
          × (no_valid_address address ≡ false)
          × (truffle.upgrade_proxy a name false w₁ ≡ (ok b, w₂)))
      × (r ≡ no_address → no_valid_address address ≡ true)
