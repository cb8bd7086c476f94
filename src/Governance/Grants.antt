-- ===== src/Governance/Grants.antt =====
-- Who has which role after the setup of contracts/Governance/Roles.sol.
use smart_contracts.Base.{◌≡◌, ◌∙◌, true, List, [], ◌∷◌}
use smart_contracts.MulSig.{
  Address, Role, admin, foundation_manager, auction_manager, feeder, crosschain_sender,
  tcash_minter, tcash_burner,
}
use smart_contracts.Governance.Roles.{AccessApi, setup_roles, setup_both, set_admins, initialize}

-- What the setup relies on: `_setupRole` grants, and takes nobody's role, and `_setRoleAdmin`
-- changes nobody's.
pub record Grants {R : Type 0} (access : AccessApi R) : Type 0 where
  pub grants :
      (role : Role) (a : Address) (r : R)
      → access.has_role (access.setup_role role a r) role a ≡ true
  pub keeps :
      (role role' : Role) (a b : Address) (r : R)
      → access.has_role r role a ≡ true
      → access.has_role (access.setup_role role' b r) role a ≡ true
  pub leaves :
      (role role' role'' : Role) (a : Address) (r : R)
      → access.has_role (access.set_role_admin role' role'' r) role a ≡ access.has_role r role a

module _ {R : Type 0} (access : AccessApi R) (laws : Grants access) where
  abbrev pub Has : Role → Address → R → Type 0
  Has role a r = access.has_role r role a ≡ true

  abbrev pub AllHave : Role → List Address → R → Type 0
  AllHave role [] r = Unit {0}
  AllHave role (a ∷ accounts) r = Has role a r × AllHave role accounts r

  -- A change that takes no role.
  abbrev Grows : R → R → Type 0
  Grows r r' = (role : Role) (a : Address) → Has role a r → Has role a r'

  AllHave-Grows :
      (role : Role) (accounts : List Address) (r r' : R)
      → Grows r r'
      → AllHave role accounts r
      → AllHave role accounts r'
  AllHave-Grows role [] r r' grows all = tt
  AllHave-Grows role (a ∷ accounts) r r' grows all =
      (grows role a all.0, AllHave-Grows role accounts r r' grows all.1)

  setup_role-Grows : (role : Role) (a : Address) (r : R) → Grows r (access.setup_role role a r)
  setup_role-Grows role a r role' b has = laws.keeps role' role b a r has

  setup_roles-Grows :
      (role : Role) (accounts : List Address) (r : R) → Grows r (setup_roles access role accounts r)
  unfolding setup_roles
  setup_roles-Grows role [] r role' b has = has
  setup_roles-Grows role (a ∷ accounts) r role' b has =
      setup_roles-Grows role accounts _ role' b (setup_role-Grows role a r role' b has)

  setup_both-Grows :
      (role role' : Role) (accounts : List Address) (r : R)
      → Grows r (setup_both access role role' accounts r)
  unfolding setup_both
  setup_both-Grows role role' [] r role'' b has = has
  setup_both-Grows role role' (a ∷ accounts) r role'' b has =
      setup_both-Grows role role' accounts _ role'' b
        (setup_role-Grows role' a _ role'' b (setup_role-Grows role a r role'' b has))

  setup_roles-AllHave :
      (role : Role) (accounts : List Address) (r : R)
      → AllHave role accounts (setup_roles access role accounts r)
  unfolding setup_roles
  setup_roles-AllHave role [] r = tt
  setup_roles-AllHave role (a ∷ accounts) r = (
    setup_roles-Grows role accounts _ role a (laws.grants role a r),
    setup_roles-AllHave role accounts _,
  )

  setup_both-AllHave :
      (role role' : Role) (accounts : List Address) (r : R)
      → AllHave role accounts (setup_both access role role' accounts r)
        × AllHave role' accounts (setup_both access role role' accounts r)
  unfolding setup_both
  setup_both-AllHave role role' [] r = (tt, tt)
  setup_both-AllHave role role' (a ∷ accounts) r =
      let rest = setup_both-AllHave role role' accounts _ in
      let later = setup_both-Grows role role' accounts _ in
      (
        (later role a (setup_role-Grows role' a _ role a (laws.grants role a r)), rest.0),
        (later role' a (laws.grants role' a _), rest.1),
      )

  set_admins-Grows : (r : R) → Grows r (set_admins access r)
  unfolding set_admins
  set_admins-Grows r role a has =
      laws.leaves role tcash_burner admin a _
      ∙ laws.leaves role tcash_minter admin a _
      ∙ laws.leaves role crosschain_sender admin a _
      ∙ laws.leaves role feeder admin a _
      ∙ laws.leaves role auction_manager foundation_manager a _
      ∙ laws.leaves role foundation_manager admin a _
      ∙ laws.leaves role admin admin a r
      ∙ has

  -- After the setup the multisig contract is an admin, and each account of the five lists has the
  -- role of its list: the TCash managers those of a minter and of a burner.
  pub initialize-AllHave :
      (mul_sig : Address) (managers auction_managers feeders senders tcash_managers : List Address)
      (r : R)
      → let r' =
          initialize access mul_sig managers auction_managers feeders senders tcash_managers r in
        Has admin mul_sig r'
        × AllHave foundation_manager managers r'
        × AllHave auction_manager auction_managers r'
        × AllHave feeder feeders r'
        × AllHave crosschain_sender senders r'
        × AllHave tcash_minter tcash_managers r'
        × AllHave tcash_burner tcash_managers r'
  unfolding initialize
  initialize-AllHave mul_sig managers auction_managers feeders senders tcash_managers r =
      let r₀ = access.setup_role admin mul_sig r in
      let r₁ = set_admins access r₀ in
      let r₂ = setup_roles access foundation_manager managers r₁ in
      let r₃ = setup_roles access auction_manager auction_managers r₂ in
      let r₄ = setup_roles access feeder feeders r₃ in
      let r₅ = setup_roles access crosschain_sender senders r₄ in
      let r₆ = setup_both access tcash_minter tcash_burner tcash_managers r₅ in
      let last : Grows r₅ r₆ = setup_both-Grows tcash_minter tcash_burner tcash_managers r₅ in
      let from₄ : Grows r₄ r₆ =
        λ role a has. last role a (setup_roles-Grows crosschain_sender senders r₄ role a has) in
      let from₃ : Grows r₃ r₆ =
        λ role a has. from₄ role a (setup_roles-Grows feeder feeders r₃ role a has) in
      let from₂ : Grows r₂ r₆ = λ role a has.
        from₃ role a (setup_roles-Grows auction_manager auction_managers r₂ role a has) in
      let from₀ : Grows r₀ r₆ = λ role a has. from₂ role a (
        setup_roles-Grows foundation_manager managers r₁ role a (set_admins-Grows r₀ role a has)) in
      (
        from₀ admin mul_sig (laws.grants admin mul_sig r),
        AllHave-Grows foundation_manager managers r₂ r₆ from₂
            (setup_roles-AllHave foundation_manager managers r₁),
        AllHave-Grows auction_manager auction_managers r₃ r₆ from₃
            (setup_roles-AllHave auction_manager auction_managers r₂),
        AllHave-Grows feeder feeders r₄ r₆ from₄ (setup_roles-AllHave feeder feeders r₃),
        AllHave-Grows crosschain_sender senders r₅ r₆ last
            (setup_roles-AllHave crosschain_sender senders r₄),
        (setup_both-AllHave tcash_minter tcash_burner tcash_managers r₅).0,
        (setup_both-AllHave tcash_minter tcash_burner tcash_managers r₅).1,
      )
