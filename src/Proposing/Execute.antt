-- ===== src/Proposing/Execute.antt =====
-- scripts/execute-proposal.js
use smart_contracts.Base.{ℕ, ◌-◌, ◌&&◌, some, ◌++◌, ltb, if◌then◌else◌, Text, codes}
use smart_contracts.Script.{Script, pure, throw, exit_with, try_catch, ensure, ◌>>=◌, ◌>>◌}
use smart_contracts.Web3.{Receipt, NodeApi, MulSigApi, excute_time_or_zero}
use smart_contracts.Web3.Gas.{gas_with_buffer}
use smart_contracts.Signing.TxHash.{includes}
use smart_contracts.Kms.Hex.{decimal}
use smart_contracts.Proposing.Api.{ChainApi}

-- `CONFIG`
pub record Config : Type 0 where
  pub proposal_id : ℕ
  pub executor_address : Text
  pub executor_private_key : Text

module _ {W : Type 0} (config : Config) (node : NodeApi W) (mulsig : MulSigApi W)
    (chain : ChainApi W) where
  -- An error of `check_time` that tells of the time is thrown again, every other one is logged.
  unfoldable pub on_check_error : Text → Script W (Unit {0})
  on_check_error message =
      if includes (codes "execution time not reached") message then throw message else pure tt

  unfoldable pub check_time : Script W (Unit {0})
  check_time =
      try_catch
        (do
          details ← mulsig.transaction_details config.proposal_id
          current_time ← node.now
          let execution_time = excute_time_or_zero details
          if ltb 0 execution_time && ltb current_time execution_time
              then throw (
                  codes "Proposal execution time not reached. Need to wait "
                  ++ decimal (execution_time - current_time)
                  ++ codes " more seconds.")
              else pure tt)
        on_check_error

  -- The estimate, the price, the transaction, and the count that is left.
  unfoldable pub send_execution : Script W Receipt
  send_execution = do
    estimate ← chain.estimate_execute_proposal config.proposal_id config.executor_address
    price ← node.get_gas_price
    receipt ←
        chain.execute_proposal config.proposal_id config.executor_address
          (some (gas_with_buffer 12 estimate)) (some price)
    mulsig.get_signature_count config.proposal_id
    pure receipt

  -- The executor's role and the number of signatures.
  unfoldable pub check_status : Script W (Unit {0})
  check_status = do
    role ← chain.foundation_manager
    permitted ← chain.has_role role config.executor_address
    ensure permitted
        (codes "Address " ++ config.executor_address ++ codes " is not a foundation manager")
    count ← mulsig.get_signature_count config.proposal_id
    if ltb count 2
        then throw (
            codes "Proposal "
            ++ decimal config.proposal_id
            ++ codes " doesn't have enough signatures ("
            ++ decimal count
            ++ codes "/2)")
        else pure tt

  unfoldable pub execute_proposal : Script W Receipt
  execute_proposal =
      try_catch
        (do
          chain.add_account config.executor_private_key
          chain.load_abi (codes "MulSig")
          chain.load_abi (codes "Roles")
          check_status
          check_time
          send_execution)
        (λ _. exit_with 1)
