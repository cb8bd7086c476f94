-- ===== src/Governance/RoleTests.antt =====
-- The setup of Roles with the addresses of a deployment, on access control as a list of grants.
use smart_contracts.Base.{ℕ, refl, Bool, false, ◌&&◌, ◌||◌, ◌==◌, ==_refl, List, [], ◌∷◌, arith}
use smart_contracts.MulSig.{
  Address, Role, admin, foundation_manager, auction_manager, feeder, crosschain_sender,
  tcash_minter, tcash_burner, done,
}
use smart_contracts.Governance.Roles.{AccessApi, initialize}
use smart_contracts.Governance.Grants.{Grants, AllHave, Has, initialize-AllHave}

abbrev number : Role → ℕ
number foundation_manager = 0
number feeder = 1
number admin = 2
number auction_manager = 3
number crosschain_sender = 4
number tcash_minter = 5
number tcash_burner = 6

abbrev granted : List (Role × Address) → Role → Address → Bool
granted [] role a = false
granted ((role', b) ∷ r) role a = (number role == number role' && a == b) || granted r role a

abbrev access : AccessApi (List (Role × Address))
access = record {
  has_role = granted;
  get_role_member_count = λ r role. 0;
  get_role_member = λ r role i. 0;
  grant_role = λ role a ctx r. done ((role, a) ∷ r);
  revoke_role = λ role a ctx r. done r;
  setup_role = λ role a r. (role, a) ∷ r;
  set_role_admin = λ role role' r. r;
}

laws : Grants access
laws = record {
  grants =
      λ role a r. let same = ==_refl (number role) in let same_account = ==_refl a in ground arith;
  keeps = λ role role' a b r has. ground arith;
  leaves = λ role role' role'' a r. refl;
}

abbrev after_setup : List (Role × Address)
after_setup = initialize access 9 (1 ∷ 2 ∷ []) (1 ∷ []) (3 ∷ []) (4 ∷ []) (5 ∷ 6 ∷ []) []

initialize-AllHave_example :
    Has access laws admin 9 after_setup
    × AllHave access laws foundation_manager (1 ∷ 2 ∷ []) after_setup
    × AllHave access laws auction_manager (1 ∷ []) after_setup
    × AllHave access laws feeder (3 ∷ []) after_setup
    × AllHave access laws crosschain_sender (4 ∷ []) after_setup
    × AllHave access laws tcash_minter (5 ∷ 6 ∷ []) after_setup
    × AllHave access laws tcash_burner (5 ∷ 6 ∷ []) after_setup
initialize-AllHave_example =
    initialize-AllHave access laws 9 (1 ∷ 2 ∷ []) (1 ∷ []) (3 ∷ []) (4 ∷ []) (5 ∷ 6 ∷ []) []
