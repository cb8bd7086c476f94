-- ===== src/Proposing/Crosschain.antt =====
-- scripts/setup-crosschain-tokens.js: proposes, signs and executes the four token mappings.
use smart_contracts.Base.{
  ℕ, Option, none, some, List, [], ◌∷◌, ◌++◌, if◌then◌else◌, Text, codes, text_eq,
}
use smart_contracts.Script.{ok, Script, pure, throw, try_catch, ◌>>=◌, ◌>>◌}
use smart_contracts.Web3.{NodeApi, MulSigApi}
use smart_contracts.Proposing.Api.{CrosschainParams, ChainApi}

pub record ChainAddresses : Type 0 where
  pub unit : Text
  pub tcash : Text
  pub bridge : Text

-- The parameter `addresses`.
pub record Addresses : Type 0 where
  pub source_network_name : Text
  pub source_chain : ChainAddresses
  pub source_chain_id : ℕ
  pub target_chain : ChainAddresses
  pub target_chain_id : ℕ

-- The token's name, and the way from the first chain to the second or back.
unfoldable pub mapping :
    Text → (ChainAddresses → Text) → ChainAddresses → ℕ → ChainAddresses → ℕ → CrosschainParams
mapping token erc20 source source_id target target_id = record {
  token = token;
  source_erc20 = erc20 source;
  source_crosschain = source.bridge;
  source_chain_id = source_id;
  target_erc20 = erc20 target;
  target_crosschain = target.bridge;
  target_chain_id = target_id;
  fee = 5;
  chain_id = source_id;
}

unfoldable pub mappings : Addresses → List CrosschainParams
mappings a =
    let home = text_eq a.source_network_name (codes "treasurenet") in
    mapping (if home then codes "UNIT" else codes "WUNIT") (λ c. c.unit) a.source_chain
      a.source_chain_id a.target_chain a.target_chain_id
    ∷ mapping (if home then codes "WUNIT" else codes "UNIT") (λ c. c.unit) a.target_chain
        a.target_chain_id a.source_chain a.source_chain_id
    ∷ mapping (if home then codes "TCASH" else codes "WTCASH") (λ c. c.tcash) a.source_chain
        a.source_chain_id a.target_chain a.target_chain_id
    ∷ mapping (if home then codes "WTCASH" else codes "TCASH") (λ c. c.tcash) a.target_chain
        a.target_chain_id a.source_chain a.source_chain_id
    ∷ []

-- The last element, and the first.
unfoldable pub last : List ℕ → Option ℕ
last [] = none
last (x ∷ []) = some x
last (x ∷ y ∷ ys) = last (y ∷ ys)

unfoldable pub first : List Text → Text
first [] = []
first (t ∷ ts) = t

module _ {W : Type 0} (node : NodeApi W) (mulsig : MulSigApi W) (chain : ChainApi W) where
  abbrev pub wait : ℕ → Script W (Unit {0})
  wait ms w = (ok tt, chain.sleep ms w)

  -- A manager that has not signed; a failing signature is only logged.
  unfoldable pub sign_as : ℕ → Text → Script W (Unit {0})
  sign_as id manager = do
    signed ← mulsig.has_already_signed id manager
    if signed
        then pure tt
        else try_catch (node.get_gas_price >> chain.sign_transaction id manager >> pure tt)
            (λ _. pure tt)

  unfoldable pub sign_all : ℕ → List Text → Script W (Unit {0})
  sign_all id [] = pure tt
  sign_all id (m ∷ ms) = sign_as id m >> sign_all id ms

  -- The execution, and the look at the mapping that it has set.
  unfoldable pub execute_mapping : ℕ → CrosschainParams → Text → Script W (Unit {0})
  execute_mapping id params sender = do
    node.get_gas_price
    chain.execute_proposal id sender (some 500000) (some 700000000)
    token ← chain.crosschain_token_by_chain_id params.token params.chain_id
    if text_eq token [] then throw (codes "Token info is empty after execution") else pure tt

  -- The last pending proposal is taken for the one that was made.
  unfoldable pub finish_proposal : CrosschainParams → Text → Text → List ℕ → Script W (Unit {0})
  finish_proposal params role sender pending = elim (last pending) [
    | none ↦ pure tt
    | some id ↦ do
      managers ← chain.role_member_array role
      sign_all id managers
      wait 8000
      execute_mapping id params sender
  ]

  unfoldable pub propose_crosschain_token : CrosschainParams → Text → Text → Script W (Unit {0})
  propose_crosschain_token params role sender = do
    permitted ← chain.has_role role sender
    if permitted
        then pure tt
        else throw (codes "Account " ++ sender ++ codes " does not have FOUNDATION_MANAGER role")
    node.get_gas_price
    chain.propose_to_set_crosschain_token params sender
    wait 10000
    pending ← chain.pending_proposals
    finish_proposal params role sender pending

  unfoldable pub propose_all : List CrosschainParams → Text → Text → Script W (Unit {0})
  propose_all [] role sender = pure tt
  propose_all (p ∷ ps) role sender =
      propose_crosschain_token p role sender >> propose_all ps role sender

  -- The private key is the empty text. An error is thrown again. With no manager the sender is `undefined`, here the empty text.
  unfoldable pub setup_crosschain_tokens : Text → Addresses → Script W (Unit {0})
  setup_crosschain_tokens role a = do
    chain.add_account []
    managers ← chain.role_member_array role
    propose_all (mappings a) role (first managers)
