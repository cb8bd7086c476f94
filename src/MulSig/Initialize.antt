-- ===== src/MulSig/Initialize.antt =====
-- The setup of contracts/Governance/MulSig.sol, and its views of the setup and the pending list.
use smart_contracts.Base.{ℕ, List, [], arith}
use smart_contracts.MulSig.State.{Tx, done, ◌>>◌, Address, empty_proposal, MulSig, Ctx, Peers}
use smart_contracts.MulSig.Propose.{only_foundation_manager}
use smart_contracts.MulSig.Invariant.{IsValid}

-- `initialize`, on fresh storage: the addresses of the DAO, Governance, Roles, ParameterInfo and
-- CrosschainTokens, and the seconds of the confirmation period.
unfoldable pub initialize : Address → Address → Address → Address → Address → ℕ → MulSig
initialize dao governance roles parameter_info crosschain_tokens confirmation = record {
  proposals = λ _. empty_proposal;
  pending_proposals = [];
  proposal_idx = 0;
  confirm_duration = confirmation;
  dao = dao;
  governance = governance;
  parameter_info = parameter_info;
  roles = roles;
  crosschain_tokens = crosschain_tokens;
}

-- What `getCurrentValues` returns.
pub record CurrentValues : Type 0 where
  pub dao : Address
  pub governance : Address
  pub roles : Address
  pub parameter_info : Address
  pub crosschain_tokens : Address
  pub confirm_duration : ℕ

unfoldable pub get_current_values : MulSig → CurrentValues
get_current_values s = record {
  dao = s.dao;
  governance = s.governance;
  roles = s.roles;
  parameter_info = s.parameter_info;
  crosschain_tokens = s.crosschain_tokens;
  confirm_duration = s.confirm_duration;
}

unfoldable pub get_pending_proposals : {W : Type 0} → Peers W → Ctx → W → MulSig → Tx (List ℕ)
get_pending_proposals peers ctx w s =
    only_foundation_manager peers ctx w >> done s.pending_proposals

pub initialize-IsValid :
    (dao governance roles parameter_info crosschain_tokens : Address) (confirmation : ℕ)
    → IsValid (initialize dao governance roles parameter_info crosschain_tokens confirmation)
unfolding initialize
initialize-IsValid dao governance roles parameter_info crosschain_tokens confirmation = record {
  ascending = omega arith;
  counted = λ id. (tt, omega arith);
}
