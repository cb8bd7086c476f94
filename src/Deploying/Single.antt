-- ===== src/Deploying/Single.antt =====
-- scripts/deploy/bid.js and scripts/deploy/tokenlocker.js, which do not look for an entry first.
use smart_contracts.Base.{some, [], ◌∷◌, Text, codes}
use smart_contracts.Script.{Script, pure}
use smart_contracts.Script.Chain.{◌>>=◌, ◌>>◌}
use smart_contracts.Deployments.State.{State, FileApi}
use smart_contracts.Deploying.Api.{HardhatApi}
use smart_contracts.Deploying.Steps.{open_state, get_factories, deploy_and_record, exit_on_error}

module _ {W I : Type 0} (files : FileApi W) (hardhat : HardhatApi W I) where
  unfoldable pub deploy_single : Text → Text → Script W State
  deploy_single key name = do
    opened ← open_state files hardhat
    get_factories hardhat (name ∷ [])
    deployed ←
        deploy_and_record files hardhat opened.0 key name [] (some (codes "initialize")) opened.1
    pure deployed.state

  unfoldable pub bid_script : Script W State
  bid_script = exit_on_error (deploy_single (codes "BID") (codes "Bid"))

  unfoldable pub tokenlocker_script : Script W State
  tokenlocker_script = exit_on_error (deploy_single (codes "TOKENLOCKER") (codes "TokenLocker"))
