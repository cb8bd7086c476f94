-- ===== src/Governance/Contracts.antt =====
-- The peers of the multisig contract as the contracts of the repository: every call comes from the
-- multisig contract. Access control is OpenZeppelin's.
use smart_contracts.Base.{◌==◌, if◌then◌else◌}
use smart_contracts.MulSig.{Address, Ctx, Peers, foundation_manager, done, ◌>>=◌}
use smart_contracts.Governance.Parameters
use smart_contracts.Governance.Parameters.{Parameters}
use smart_contracts.Governance.Treasury
use smart_contracts.Governance.Treasury.{Treasury}
use smart_contracts.Governance.Tokens
use smart_contracts.Governance.Tokens.{Tokens}
use smart_contracts.Governance.Roles.{AccessApi}
use smart_contracts.Governance.Dapps
use smart_contracts.Governance.Dapps.{Dapps}

pub record Contracts (R : Type 0) : Type 0 where
  pub roles : R
  pub treasury : Treasury
  pub parameters : Parameters
  pub tokens : Tokens
  pub producers : Address → Dapps
  -- the multisig contract's own address
  pub mul_sig : Address

unfoldable pub set_producer : (Address → Dapps) → Address → Dapps → Address → Dapps
set_producer m producer d a = if a == producer then d else m a

-- `msg.sender` of a call that the multisig contract makes; the time is not read.
abbrev pub by_mul_sig : {R : Type 0} → Contracts R → Ctx
by_mul_sig w = record { sender = w.mul_sig; timestamp = 0 }

unfoldable pub contracts : {R : Type 0} → AccessApi R → Peers (Contracts R)
contracts access = record {
  has_role = λ w role a. access.has_role w.roles role a;
  fm_threshold =
      λ w. Treasury.fm_threshold (access.get_role_member_count w.roles foundation_manager);
  get_treasure_by_kind = λ w kind. Treasury.get_treasure_by_kind w.treasury kind;
  grant_role = λ role a w.
      access.grant_role role a (by_mul_sig w) w.roles >>= λ r. done (record w { roles = r });
  revoke_role = λ role a w.
      access.revoke_role role a (by_mul_sig w) w.roles >>= λ r. done (record w { roles = r });
  add_treasure = λ kind producer data_contract w.
      Treasury.add_treasure kind producer data_contract (by_mul_sig w) w.treasury >>= λ t.
      done (record w { treasury = t });
  set_platform_config = λ key amount w.
      Parameters.set_platform_config key amount (by_mul_sig w) w.parameters >>= λ s.
      done (record w { parameters = s });
  set_price_discount_config = λ c w.
      Parameters.set_price_discount_config c (by_mul_sig w) w.parameters >>= λ s.
      done (record w { parameters = s });
  register_dapp_connect = λ producer dapp payee w.
      Dapps.register_dapp_connect dapp payee (by_mul_sig w) (w.producers producer) >>= λ d.
      done (record w { producers = set_producer w.producers producer d });
  set_crosschain_token = λ t w.
      Tokens.set_crosschain_token t (by_mul_sig w) w.tokens >>= λ s. done (record w { tokens = s });
}
