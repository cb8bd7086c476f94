-- ===== src/Diagnosing/Permissions.antt =====
-- scripts/check-permissions.js: which roles an account has, and whether it can add managers.
use smart_contracts.Base.{Bool, ◌&&◌, List, if◌then◌else◌, Text, codes, text_eq}
use smart_contracts.Script.{Script, pure, exit_with, try_catch, ◌>>=◌, ◌>>◌}
use smart_contracts.Script.Loop.{each}
use smart_contracts.Proposing.Check.{indices}
use smart_contracts.Diagnosing.Api.{ReadApi, RolesApi}

-- Which of the three solutions is printed.
pub data Solution : Type 0 where
  as_admin : Solution
  as_default_admin : Solution
  no_role : Solution

pub record Permissions : Type 0 where
  pub is_foundation_manager : Bool
  pub is_admin : Bool
  pub is_default_admin : Bool
  pub manages_managers : Bool
  pub managers : List Text
  pub solution : Solution

abbrev pub default_admin_role : Text
default_admin_role = codes "0x0000000000000000000000000000000000000000000000000000000000000000"

unfoldable pub solution_of : Bool → Bool → Solution
solution_of manages is_default_admin =
    if manages then as_admin else if is_default_admin then as_default_admin else no_role

module _ {W : Type 0} (account : Text) (read : ReadApi W) (roles : RolesApi W) where
  unfoldable pub check_permissions : Script W Permissions
  check_permissions =
      try_catch
        (do
          read.load_abi (codes "Roles")
          manager_role ← roles.foundation_manager
          admin_role ← roles.get_admin
          is_manager ← roles.has_role manager_role account
          is_admin ← roles.has_role admin_role account
          is_default ← roles.has_role default_admin_role account
          manager_admin ← roles.get_role_admin manager_role
          let manages = text_eq manager_admin admin_role && is_admin
          count ← roles.get_role_member_count manager_role
          managers ← each (roles.get_role_member manager_role) (indices count 0)
          pure (record {
            is_foundation_manager = is_manager;
            is_admin = is_admin;
            is_default_admin = is_default;
            manages_managers = manages;
            managers = managers;
            solution = solution_of manages is_default;
          }))
        (λ _. exit_with 1)
