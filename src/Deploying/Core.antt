-- ===== src/Deploying/Core.antt =====
-- scripts/deploy/base.js
use smart_contracts.Base.{none, List, [], ◌∷◌, Text, codes}
use smart_contracts.Script.{Script, pure}
use smart_contracts.Script.Chain.{◌>>=◌, ◌>>◌}
use smart_contracts.Deployments.State.{State, FileApi, start_new_entry}
use smart_contracts.Deploying.Api.{text, num, HardhatApi}
use smart_contracts.Deploying.Steps.{
  open_state, get_factories, deploy_and_record, send_and_wait, exit_on_error,
}

abbrev pub base_contracts : List Text
base_contracts =
    codes "DAO" ∷ codes "MulSig" ∷ codes "Roles" ∷ codes "ParameterInfo" ∷ codes "Oracle" ∷ []

module _ {W I : Type 0} (files : FileApi W) (hardhat : HardhatApi W I) where
  unfoldable pub deploy_base : Script W State
  deploy_base = do
    opened ← open_state files hardhat
    let json = opened.0
    state ← start_new_entry files opened.1 hardhat.network_name
    get_factories hardhat base_contracts
    dao ← deploy_and_record files hardhat json (codes "DAO") (codes "DAO") [] none state
    mul_sig ←
        deploy_and_record files hardhat json (codes "MULSIG") (codes "MulSig") [] none dao.state
    roles ←
        deploy_and_record files hardhat json (codes "ROLES") (codes "Roles") [] none mul_sig.state
    parameter_info ←
        deploy_and_record files hardhat json (codes "PARAMETER_INFO") (codes "ParameterInfo") []
          none roles.state
    oracle ←
        deploy_and_record files hardhat json (codes "ORACLE") (codes "Oracle") [] none
          parameter_info.state
    send_and_wait hardhat dao.info.contract (codes "initialize")
        (text (codes "DAO") ∷ num 2 ∷ num 10 ∷ [])
    send_and_wait hardhat parameter_info.info.contract (codes "initialize")
        (text mul_sig.info.address ∷ [])
    send_and_wait hardhat oracle.info.contract (codes "initialize") (text roles.info.address ∷ [])
    pure oracle.state

  unfoldable pub base_script : Script W State
  base_script = exit_on_error deploy_base
