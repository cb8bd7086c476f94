-- ===== src/Upgrading/Fix.antt =====
-- scripts/fix-mulsig-addresses.js: sets the multisig contract's address in every Producer.
use smart_contracts.Base.{
  ◌||◌, none, some, List, [], ◌∷◌, ◌++◌, if◌then◌else◌, Text, codes, text_eq, same_address,
}
use smart_contracts.Script.{ok, Script, pure, exit_with, try_catch, ensure, ◌>>=◌, ◌>>◌}
use smart_contracts.Script.Loop.{each}
use smart_contracts.Web3.{NodeApi}
use smart_contracts.Web3.Gas.{gas_with_buffer}
use smart_contracts.Upgrading.Api.{
  skipped, failed, Report, report, sent_report, SetupApi, ProducerApi, zero_address,
}

-- `CONFIG`
pub record Config : Type 0 where
  pub mulsig_address : Text
  pub foundation_manager_address : Text
  pub foundation_manager_private_key : Text

-- What the verification logs for one kind.
pub data Verdict : Type 0 where
  absent : Verdict
  correct : Verdict
  incorrect : Text → Verdict
  unknown : Text → Verdict

abbrev pub treasure_kinds : List Text
treasure_kinds = codes "OIL" ∷ codes "GAS" ∷ codes "ETH" ∷ codes "BTC" ∷ []

module _ {W : Type 0} (config : Config) (node : NodeApi W) (setup : SetupApi W)
    (api : ProducerApi W) where
  -- The estimate, the transaction, and the wait of 15 seconds.
  unfoldable pub set_address : Text → Text → Script W Report
  set_address kind producer = do
    estimate ← api.estimate_set_mul_sig_contract producer config.mulsig_address
    price ← node.get_gas_price
    receipt ←
        api.set_mul_sig_contract producer config.mulsig_address (gas_with_buffer 13 estimate) price
    λ w. (ok (sent_report kind receipt), setup.sleep 15000 w)

  -- A producer that is there: a failing read means that it was not upgraded.
  unfoldable pub fix_producer : Text → Text → Script W Report
  fix_producer kind producer = do
    current ← try_catch (api.get_mul_sig_contract producer >>= λ a. pure (some a)) (λ _. pure none)
    elim current [
      | none ↦ pure (report kind (failed (codes "Contract not upgraded")))
      | some address ↦
          if same_address address config.mulsig_address
          then pure (report kind (skipped (codes "Already correct")))
          else set_address kind producer
    ]

  -- A round of the loop over the kinds.
  unfoldable pub fix_one : Text → Script W Report
  fix_one kind =
      try_catch
        (do
          producer ← api.producer_of kind
          if text_eq producer zero_address
              then pure (report kind (skipped (codes "Producer not found")))
              else fix_producer kind producer)
        (λ message. pure (report kind (failed message)))

  -- A round of the verification.
  unfoldable pub verify_one : Text → Script W Verdict
  verify_one kind =
      try_catch
        (do
          producer ← api.producer_of kind
          if text_eq producer zero_address then pure absent else (do
            current ← api.get_mul_sig_contract producer
            pure (
                if same_address current config.mulsig_address then correct else incorrect current)))
        (λ message. pure (unknown message))

  -- The network's id and the balance are only compared for warnings.
  unfoldable pub fix_mul_sig_addresses : Script W (List Report)
  fix_mul_sig_addresses =
      try_catch
        (do
          if text_eq config.foundation_manager_address []
                || text_eq config.foundation_manager_private_key []
              then exit_with 1
              else pure tt
          setup.add_account config.foundation_manager_private_key
          try_catch (node.net_id >> node.block_number >>= λ _. pure tt) (λ _. exit_with 1)
          node.get_balance config.foundation_manager_address
          setup.load_abi (codes "Governance")
          setup.load_abi (codes "Producer")
          setup.load_abi (codes "Roles")
          role ← setup.foundation_manager
          permitted ← setup.has_role role config.foundation_manager_address
          ensure permitted (
              codes "Address "
              ++ config.foundation_manager_address
              ++ codes " does not have FOUNDATION_MANAGER role")
          results ← each fix_one treasure_kinds
          each verify_one treasure_kinds
          pure results)
        (λ _. exit_with 1)
