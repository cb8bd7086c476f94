-- ===== src/Upgrading/AllProducers.antt =====
-- The migration of scripts/upgrade/producers.js ends with a report for each contract.
use smart_contracts.Base.{◌≡◌, true, false, some, List, [], Text}
use smart_contracts.Script.{ok}
use smart_contracts.Deployments.State.{get, or_text}
use smart_contracts.Upgrading.Truffle.{TruffleApi}
use smart_contracts.Upgrading.Migration
use smart_contracts.Upgrading.Migration.{Report, success, skipped, is_no_proxy, treasure_kind}
use smart_contracts.Upgrading.Migrates.{TruffleReturns}

module _ {W : Type 0} (truffle : TruffleApi W) (returns : TruffleReturns truffle) where
  -- What a report of the migration of the Producer contracts says.
  abbrev pub Described : List (Text × Text) → Text → Report → Type 0
  Described addresses name r =
      (r.contract ≡ name)
      × ((proxy b : Text)
          → r.status ≡ success proxy b
          → (get (treasure_kind name) addresses ≡ some proxy)
            × (is_no_proxy proxy ≡ false)
            × ((w₁ w₂ : W) × (truffle.upgrade_proxy proxy name true w₁ ≡ (ok b, w₂))))
      × ((reason : Text)
          → r.status ≡ skipped reason
          → is_no_proxy (or_text (get (treasure_kind name) addresses) []) ≡ true)
