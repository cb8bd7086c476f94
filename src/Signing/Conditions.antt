-- ===== src/Signing/Conditions.antt =====
-- What the signing scripts conclude from the multisig contract's state.
use smart_contracts.Base.{ℕ, ◌≤◌, ◌<◌, ◌≡◌, true, le→leb, arith, Text, codes}
use smart_contracts.Script.{ok, Script}
use smart_contracts.MulSig
use smart_contracts.MulSig.{MulSig, Address}
use smart_contracts.MulSig.Executing.{execute_proposal_early}
use smart_contracts.Kms.Ethereum.{KmsApi, CryptoApi}
use smart_contracts.Web3
use smart_contracts.Web3.{NodeApi, MulSigApi, ReadsContract}
use smart_contracts.Signing.Signer
use smart_contracts.Signing.Runner

module _ {W : Type 0} (config : Runner.Config) (kms : KmsApi W) (crypto : CryptoApi)
    (node : NodeApi W) (accounts : Runner.AccountsApi W) (api : MulSigApi W) where
  -- With a clock and a contract that answer, the runner calls a proposal executable as soon as two
  -- have signed, also before the time at which the contract lets a foundation manager execute it.
  pub check_execution_conditions_ignores_time :
      (peers : MulSig.Peers W) (contract : W → MulSig) (address_of : Text → Address)
      → ReadsContract api contract address_of
      → (time : ℕ) (ctx : MulSig.Ctx) (w : W) → node.now w ≡ (ok time, w)
      → 2 ≤ MulSig.get_signature_count config.proposal_id (contract w)
      → peers.has_role w MulSig.foundation_manager ctx.sender ≡ true
      → ctx.timestamp < ((contract w).proposals config.proposal_id).execute_time
      → (Runner.check_execution_conditions config kms crypto node accounts api w ≡ (ok true, w))
        × (MulSig.execute_proposal peers config.proposal_id ctx w (contract w)
            ≡ MulSig.revert (codes "executeTime not meet"))
  unfolding Runner.check_execution_conditions Web3.excute_time_or_zero Web3.excute_time
  check_execution_conditions_ignores_time peers contract address_of reads time ctx w clock two role
        early =
      (
        (let counted = reads.reads_count config.proposal_id w in
            let detailed = reads.reads_details config.proposal_id w in
            let enough = le→leb _ _ two in ground arith),
        execute_proposal_early peers config.proposal_id ctx w (contract w) role early,
      )
