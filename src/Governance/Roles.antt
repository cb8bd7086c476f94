-- ===== src/Governance/Roles.antt =====
-- contracts/Governance/Roles.sol, over the access control of OpenZeppelin.
use smart_contracts.Base.{ℕ, zero, suc, ◌+◌, Bool, List, [], ◌∷◌}
use smart_contracts.MulSig.{
  Address, Ctx, Tx, Role, admin, foundation_manager, auction_manager, feeder, crosschain_sender,
  tcash_minter, tcash_burner,
}

-- AccessControlEnumerableUpgradeable, on which contracts/Governance/Roles.sol stands.
pub record AccessApi (R : Type 0) : Type 0 where
  pub has_role : R → Role → Address → Bool
  pub get_role_member_count : R → Role → ℕ
  pub get_role_member : R → Role → ℕ → Address
  -- with the sender, who must have the role's admin role
  pub grant_role : Role → Address → Ctx → R → Tx R
  pub revoke_role : Role → Address → Ctx → R → Tx R
  -- `_setupRole` and `_setRoleAdmin`, without a check
  pub setup_role : Role → Address → R → R
  pub set_role_admin : Role → Role → R → R

module _ {R : Type 0} (access : AccessApi R) where
  -- `_setupRole(role, account)` for each account.
  unfoldable pub setup_roles : Role → List Address → R → R
  setup_roles role [] r = r
  setup_roles role (a ∷ accounts) r = setup_roles role accounts (access.setup_role role a r)

  -- `Roles.getRoleMemberArray`: the members from the index `i` on, `n` of them.
  unfoldable pub members_from : Role → ℕ → ℕ → R → List Address
  members_from role zero i r = []
  members_from role (suc n) i r = access.get_role_member r role i ∷ members_from role n (i + 1) r

  unfoldable pub get_role_member_array : Role → R → List Address
  get_role_member_array role r = members_from role (access.get_role_member_count r role) 0 r

  -- `_setupRole(role, account); _setupRole(role', account);` for each account.
  unfoldable pub setup_both : Role → Role → List Address → R → R
  setup_both role role' [] r = r
  setup_both role role' (a ∷ accounts) r =
      setup_both role role' accounts (access.setup_role role' a (access.setup_role role a r))

  -- The seven calls of `_setRoleAdmin`.
  unfoldable pub set_admins : R → R
  set_admins r =
      let r₁ =
        access.set_role_admin foundation_manager admin (access.set_role_admin admin admin r) in
      let r₂ = access.set_role_admin auction_manager foundation_manager r₁ in
      let r₃ =
        access.set_role_admin crosschain_sender admin (access.set_role_admin feeder admin r₂) in
      access.set_role_admin tcash_burner admin (access.set_role_admin tcash_minter admin r₃)

  -- `initialize`: the multisig contract, and the managers, auction managers, feeders, senders and
  -- TCash managers.
  unfoldable pub initialize :
      Address → List Address → List Address → List Address → List Address → List Address → R → R
  initialize mul_sig managers auction_managers feeders senders tcash_managers r =
      let r₁ = set_admins (access.setup_role admin mul_sig r) in
      let r₂ =
        setup_roles auction_manager auction_managers (setup_roles foundation_manager managers r₁) in
      let r₃ = setup_roles crosschain_sender senders (setup_roles feeder feeders r₂) in
      setup_both tcash_minter tcash_burner tcash_managers r₃
