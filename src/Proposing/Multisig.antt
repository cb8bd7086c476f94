-- ===== src/Proposing/Multisig.antt =====
-- scripts/register-dapp-multisig.js: the registration of a dapp as a truffle migration. Its accounts
-- are those of the node, and every manager can sign.
use smart_contracts.Base.{
  ℕ, zero, suc, ◌-◌, ◌+◌, Bool, false, not, ◌||◌, none, some, List, [], ◌∷◌, ltb, if◌then◌else◌,
  Text, codes, text_eq, length,
}
use smart_contracts.Script.{Script, pure, throw, try_catch, ◌>>=◌, ◌>>◌}
use smart_contracts.MulSig
use smart_contracts.Web3.{NodeApi, MulSigApi, excute_time}
use smart_contracts.Upgrading.Api.{zero_address}
use smart_contracts.Proposing.Api.{ChainApi}
use smart_contracts.Proposing.Register.{min_of}

-- The constants of the script, and the parameter `network`.
pub record Config : Type 0 where
  pub treasure_kind : Text
  pub dapp_name : Text
  pub payee_address : Text
  pub network : Text

-- How the script ended: an early `return`, a proposal, an execution, or an error that was logged.
pub data Ending : Type 0 where
  stopped : Ending
  proposed : ℕ → Ending
  executed : ℕ → Ending
  failed : Text → Ending

module _ {W : Type 0} (config : Config) (is_address : Text → Bool) (node : NodeApi W)
    (mulsig : MulSigApi W) (chain : ChainApi W) where
  -- Whether the kind has a producer; an error is logged, and ends the script as well.
  unfoldable pub treasure_exists : Script W Bool
  treasure_exists =
      try_catch
        (chain.producer_of config.treasure_kind >>= λ producer.
          pure (not (text_eq producer zero_address)))
        (λ _. pure false)

  -- One round of the signing loop.
  unfoldable pub sign_manager : ℕ → Text → Script W (Unit {0})
  sign_manager id manager = do
    signed ← mulsig.has_already_signed id manager
    if signed
        then pure tt
        else (chain.sign_transaction id manager >> mulsig.get_signature_count id >> pure tt)

  -- The loop over the first `n` managers, of which there are at least `n`.
  unfoldable pub sign_first : ℕ → ℕ → List Text → Script W (Unit {0})
  sign_first id zero managers = pure tt
  sign_first id (suc n) [] = pure tt
  sign_first id (suc n) (m ∷ ms) = sign_manager id m >> sign_first id n ms

  -- `proposalDetails.excuteTime.toNumber()`, of a field that the answer does not have.
  unfoldable pub execution_time : MulSig.ProposalResponse → Script W ℕ
  execution_time details = elim (excute_time details) [
    | none ↦ throw (codes "Cannot read properties of undefined (reading 'toNumber')")
    | some t ↦ pure t
  ]

  -- The clock of a development network is moved; another one is not waited for.
  unfoldable pub advance : ℕ → ℕ → Script W (Unit {0})
  advance time now =
      if ltb now time
      then if text_eq config.network (codes "development")
          || text_eq config.network (codes "ganache")
        then chain.increase_time (time - now + 1) >> chain.mine
        else pure tt
      else pure tt

  unfoldable pub wait_and_execute : ℕ → Text → Script W Ending
  wait_and_execute id proposer = do
    details ← mulsig.transaction_details id
    now ← node.now
    time ← execution_time details
    advance time now
    chain.execute_proposal id proposer none none
    pure (executed id)

  unfoldable pub is_test_network : Bool
  is_test_network =
      text_eq config.network (codes "development")
      || text_eq config.network (codes "test")
      || text_eq config.network (codes "ganache")

  unfoldable pub propose : Text → List Text → Script W Ending
  propose proposer managers = do
    id ←
        chain.propose_to_register_dapp config.treasure_kind config.dapp_name config.payee_address
          proposer
    threshold ← chain.fm_threshold
    if is_test_network
        then (sign_first id (min_of (length managers) threshold) managers
            >> wait_and_execute id proposer)
        else pure (proposed id)

  unfoldable pub with_managers : List Text → Script W Ending
  with_managers [] = pure stopped
  with_managers (m ∷ ms) = propose m (m ∷ ms)

  unfoldable pub register : Script W Ending
  register = do
    found ← treasure_exists
    if found
        then (do
          role ← chain.foundation_manager
          managers ← chain.role_member_array role
          with_managers managers)
        else pure stopped

  unfoldable pub register_dapp_multisig : Script W Ending
  register_dapp_multisig =
      try_catch (if is_address config.payee_address then register else pure stopped)
        (λ message. pure (failed message))
