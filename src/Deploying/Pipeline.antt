-- ===== src/Deploying/Pipeline.antt =====
-- The deployment of package.json: scripts/tasks.sh runs the steps one after the other, and stops at
-- the first that fails.
use smart_contracts.Script.{Script}
use smart_contracts.Script.Chain.{◌>>◌, Returns}
use smart_contracts.Deployments.State.{State, FileApi}
use smart_contracts.Deploying.Api.{HardhatApi}
use smart_contracts.Deploying.Core.{base_script}
use smart_contracts.Deploying.Producers.{producers_script}
use smart_contracts.Deploying.Cash.{tcash_script}
use smart_contracts.Deploying.Ustn.{ustn_script}
use smart_contracts.Deploying.Crosschain.{crosschain_script}
use smart_contracts.Deploying.Answers.{Answers}

module _ {W I : Type 0} (files : FileApi W) (hardhat : HardhatApi W I) where
  -- `--steps base producers tcash ustn crosschain`
  unfoldable pub deploy_steps : Script W State
  deploy_steps = do
    base_script files hardhat
    producers_script files hardhat
    tcash_script files hardhat
    ustn_script files hardhat
    crosschain_script files hardhat
