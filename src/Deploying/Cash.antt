-- ===== src/Deploying/Cash.antt =====
-- scripts/deploy/tcash.js and scripts/deploy/wunit_wtcash.js
use smart_contracts.Base.{none, some, List, [], ◌∷◌, Text, codes}
use smart_contracts.Script.{Script, pure}
use smart_contracts.Script.Chain.{◌>>=◌, ◌>>◌}
use smart_contracts.Deployments.State.{State, FileApi}
use smart_contracts.Deploying.Api.{text, texts, arg_of, HardhatApi}
use smart_contracts.Deploying.Steps.{
  resolve, open_state, require_entries, require_all, get_factories, deploy_and_record,
  send_and_wait, first_signer, exit_on_error,
}

abbrev pub tcash_contracts : List Text
tcash_contracts =
    codes "TCash"
    ∷ codes "WTCASH"
    ∷ codes "WUNIT"
    ∷ codes "TCashLoan"
    ∷ codes "TCashAuction"
    ∷ codes "TATManager"
    ∷ []

abbrev pub tcash_required : List Text
tcash_required = codes "ROLES" ∷ codes "ORACLE" ∷ codes "TAT" ∷ []

module _ {W I : Type 0} (files : FileApi W) (hardhat : HardhatApi W I) where
  -- The operators' contracts WTCASH and WUNIT, with no operator.
  unfoldable pub deploy_wrapped : Text → State → Script W State
  deploy_wrapped json state = do
    wtcash ←
        deploy_and_record files hardhat json (codes "WTCASH") (codes "WTCASH") (texts [] ∷ [])
          (some (codes "initialize")) state
    wunit ←
        deploy_and_record files hardhat json (codes "WUNIT") (codes "WUNIT") (texts [] ∷ [])
          (some (codes "initialize")) wtcash.state
    pure wunit.state

  unfoldable pub deploy_tcash : Script W State
  deploy_tcash = do
    opened ← open_state files hardhat
    let json = opened.0
    require_entries (codes "No deployment entry; run base and producers.") opened.1
    get_factories hardhat tcash_contracts
    require_all (codes "base and producers steps completed") tcash_required opened.1
    let roles = arg_of (resolve opened.1 (codes "ROLES"))
    let oracle = arg_of (resolve opened.1 (codes "ORACLE"))
    signer ← first_signer hardhat
    tcash ←
        deploy_and_record files hardhat json (codes "TCASH") (codes "TCash") (text signer ∷ [])
          (some (codes "initialize")) opened.1
    wrapped ← deploy_wrapped json tcash.state
    tat_manager ←
        deploy_and_record files hardhat json (codes "TAT_MANAGER") (codes "TATManager") (roles ∷ [])
          (some (codes "initialize")) wrapped
    loan ←
        deploy_and_record files hardhat json (codes "TCASH_LOAN") (codes "TCashLoan") [] none
          tat_manager.state
    auction ←
        deploy_and_record files hardhat json (codes "TCASH_AUCTION") (codes "TCashAuction")
          (roles ∷ text tcash.info.address ∷ text loan.info.address ∷ [])
          (some (codes "initialize")) loan.state
    send_and_wait hardhat tcash.info.contract (codes "setRoles") (roles ∷ [])
    send_and_wait hardhat tcash.info.contract (codes "setOracle") (oracle ∷ [])
    pure auction.state

  unfoldable pub tcash_script : Script W State
  tcash_script = exit_on_error deploy_tcash

  unfoldable pub wunit_wtcash_script : Script W State
  wunit_wtcash_script = exit_on_error (do
    opened ← open_state files hardhat
    require_entries (codes "No deployment entry; run base first.") opened.1
    get_factories hardhat (codes "WTCASH" ∷ codes "WUNIT" ∷ [])
    deploy_wrapped opened.0 opened.1)
