-- ===== src/Proposing/Register.antt =====
-- scripts/register-dapp-node.js: proposes a dapp's registration, and in a test network signs and
-- executes it.
use smart_contracts.Base.{
  ℕ, ◌-◌, ◌+◌, ◌*◌, Bool, true, false, not, ◌||◌, Option, none, some, List, [], ◌∷◌, ◌++◌, leb, ltb,
  if◌then◌else◌, Text, codes, text_eq, length,
}
use smart_contracts.Script.{ok, Script, pure, throw, exit_with, try_catch, ensure, ◌>>=◌, ◌>>◌}
use smart_contracts.Script.Loop.{each}
use smart_contracts.MulSig
use smart_contracts.Web3.{NodeApi, MulSigApi, excute_time, excute_time_exceeds}
use smart_contracts.Upgrading.Api.{zero_address}
use smart_contracts.Proposing.Api.{ChainApi}
use smart_contracts.Proposing.Check.{indices}

-- `CONFIG`
pub record Config : Type 0 where
  pub treasure_kind : Text
  pub dapp_name : Text
  pub payee_address : Text
  pub network_name : Text
  pub mulsig_address : Text
  pub roles_address : Text
  pub governance_address : Text
  pub private_key : Text

-- web3's checksum test, and the address in the build file of a contract.
pub record BuildApi (W : Type 0) : Type 0 where
  pub is_address : Text → Bool
  pub build_address : Text → ℕ → Script W (Option Text)

-- What came of the proposal.
pub data Registration : Type 0 where
  proposed : ℕ → Registration
  not_enough : ℕ → Registration
  executed : ℕ → Registration

-- `Math.min`
unfoldable pub min_of : ℕ → ℕ → ℕ
min_of a b = if leb a b then a else b

-- `list.includes(text)`
unfoldable pub includes_text : Text → List Text → Bool
includes_text t [] = false
includes_text t (u ∷ us) = let rest = includes_text t us in text_eq t u || rest

-- web3 answers a count with a text, which `===` never equals to the number 0.
unfoldable pub strictly_zero : ℕ → Bool
strictly_zero count = false

module _ {W : Type 0} (config : Config) (build : BuildApi W) (node : NodeApi W)
    (mulsig : MulSigApi W) (chain : ChainApi W) where
  -- A build file that cannot be read counts as no address.
  unfoldable pub get_contract_address : Text → ℕ → Script W (Option Text)
  get_contract_address name network_id =
      try_catch (build.build_address name network_id) (λ _. pure none)

  -- `CONFIG.X || getContractAddress(…)`, tested for truth.
  unfoldable pub has_address : Text → Text → ℕ → Script W Bool
  has_address configured name network_id =
      if text_eq configured []
      then (do
        found ← get_contract_address name network_id
        pure (elim found [ none ↦ false | some a ↦ not (text_eq a []) ]))
      else pure true

  unfoldable pub check_addresses : ℕ → Script W (Unit {0})
  check_addresses network_id = do
    mulsig_found ← has_address config.mulsig_address (codes "MulSig") network_id
    roles_found ← has_address config.roles_address (codes "Roles") network_id
    governance_found ← has_address config.governance_address (codes "Governance") network_id
    if not mulsig_found || not roles_found || not governance_found then exit_with 1 else pure tt

  unfoldable pub check_treasure : Script W (Unit {0})
  check_treasure =
      try_catch
        (do
          producer ← chain.producer_of config.treasure_kind
          if text_eq producer zero_address
              then throw (codes "Treasure kind \"" ++ config.treasure_kind ++ codes "\" not found")
              else pure tt)
        (λ _. exit_with 1)

  unfoldable pub foundation_managers : Script W (List Text)
  foundation_managers = do
    role ← chain.foundation_manager
    count ← chain.role_member_count role
    if strictly_zero count then throw (codes "No foundation managers found") else pure tt
    each (chain.role_member role) (indices count 0)

  -- The signing loop: it stops at `required` signatures, and only the account itself can sign.
  unfoldable pub sign_managers : ℕ → Text → ℕ → List Text → ℕ → Script W ℕ
  sign_managers id account required [] count = pure count
  sign_managers id account required (m ∷ ms) count =
      let rest = sign_managers id account required ms in
      if ltb count required
      then (do
        signed ← mulsig.has_already_signed id m
        if signed
            then rest (count + 1)
            else if text_eq m account
            then (do
              chain.sign_transaction id account
              mulsig.get_signature_count id
              rest (count + 1))
            else rest count)
      else pure count

  -- The wait for the execution time: the node's clock is moved where the network allows it.
  unfoldable pub wait_for : ℕ → Script W (Unit {0})
  wait_for seconds =
      let sleeps : Script W (Unit {0}) = λ w. (ok tt, chain.sleep ((seconds + 1) * 1000) w) in
      if text_eq config.network_name (codes "development")
        || text_eq config.network_name (codes "ganache")
      then try_catch (chain.increase_time (seconds + 1) >> chain.mine) (λ _. sleeps)
      else sleeps

  unfoldable pub wait_until_due : MulSig.ProposalResponse → ℕ → Script W (Unit {0})
  wait_until_due details now =
      if excute_time_exceeds details now
      then elim (excute_time details) [ none ↦ pure tt | some t ↦ wait_for (t - now) ]
      else pure tt

  unfoldable pub execute_when_due : ℕ → Text → Script W Registration
  execute_when_due id account = do
    details ← mulsig.transaction_details id
    now ← node.now
    wait_until_due details now
    chain.execute_proposal id account (some 500000) none
    pure (executed id)

  unfoldable pub sign_and_execute : ℕ → Text → List Text → ℕ → Script W Registration
  sign_and_execute id account managers threshold = do
    sign_managers id account (min_of (length managers) threshold) managers 0
    count ← mulsig.get_signature_count id
    if leb threshold count then execute_when_due id account else pure (not_enough id)

  unfoldable pub is_test_network : Bool
  is_test_network =
      text_eq config.network_name (codes "development")
      || text_eq config.network_name (codes "test")
      || text_eq config.network_name (codes "ganache")

  unfoldable pub propose : Text → List Text → Script W Registration
  propose account managers = do
    id ←
        chain.propose_to_register_dapp config.treasure_kind config.dapp_name config.payee_address
          account
    threshold ← chain.fm_threshold
    if is_test_network then sign_and_execute id account managers threshold else pure (proposed id)

  unfoldable pub register_dapp : Script W Registration
  register_dapp =
      try_catch
        (do
          ensure (build.is_address config.payee_address) (codes "Invalid payee address format")
          account ← chain.add_account config.private_key
          network_id ← node.net_id
          check_addresses network_id
          chain.load_abi (codes "MulSig")
          chain.load_abi (codes "Roles")
          chain.load_abi (codes "Governance")
          check_treasure
          managers ← foundation_managers
          if includes_text account managers then pure tt else exit_with 1
          propose account managers)
        (λ _. exit_with 1)
