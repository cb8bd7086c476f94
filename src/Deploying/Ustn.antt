-- ===== src/Deploying/Ustn.antt =====
-- scripts/deploy/ustn.js
use smart_contracts.Base.{none, List, [], ◌∷◌, Text, codes}
use smart_contracts.Script.{Script, pure}
use smart_contracts.Script.Chain.{◌>>=◌, ◌>>◌}
use smart_contracts.Deployments.State.{State, FileApi}
use smart_contracts.Deploying.Api.{text, arg_of, HardhatApi}
use smart_contracts.Deploying.Steps.{
  resolve, open_state, require_entries, require_all, get_factories, deploy_and_record,
  exit_on_error,
}

abbrev pub ustn_contracts : List Text
ustn_contracts = codes "USTN" ∷ codes "USTNAuction" ∷ codes "USTNFinance" ∷ []

abbrev pub ustn_required : List Text
ustn_required = codes "ROLES" ∷ codes "ORACLE" ∷ codes "PARAMETER_INFO" ∷ []

module _ {W I : Type 0} (files : FileApi W) (hardhat : HardhatApi W I) where
  -- The three transactions at the end are sent and not waited for.
  unfoldable pub deploy_ustn : Script W State
  deploy_ustn = do
    opened ← open_state files hardhat
    let json = opened.0
    require_entries (codes "Missing dependencies; run previous steps.") opened.1
    get_factories hardhat ustn_contracts
    require_all (codes "previous steps completed") ustn_required opened.1
    let roles = arg_of (resolve opened.1 (codes "ROLES"))
    let oracle = arg_of (resolve opened.1 (codes "ORACLE"))
    let parameter_info = arg_of (resolve opened.1 (codes "PARAMETER_INFO"))
    ustn ← deploy_and_record files hardhat json (codes "USTN") (codes "USTN") [] none opened.1
    auction ←
        deploy_and_record files hardhat json (codes "USTN_AUCTION") (codes "USTNAuction") [] none
          ustn.state
    finance ←
        deploy_and_record files hardhat json (codes "USTN_FINANCE") (codes "USTNFinance") [] none
          auction.state
    hardhat.send auction.info.contract (codes "initialize")
        (roles ∷ text ustn.info.address ∷ text finance.info.address ∷ [])
    hardhat.send finance.info.contract (codes "initialize")
        (roles ∷ parameter_info ∷ oracle ∷ text ustn.info.address ∷ text auction.info.address ∷ [])
    hardhat.send ustn.info.contract (codes "initialize")
        (roles ∷ oracle ∷ text auction.info.address ∷ text finance.info.address ∷ [])
    pure finance.state

  unfoldable pub ustn_script : Script W State
  ustn_script = exit_on_error deploy_ustn
