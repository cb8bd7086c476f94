-- ===== src/Diagnosing/FindAdmin.antt =====
-- scripts/find-proxyadmin.js: the admins of the four Producer proxies.
use smart_contracts.Base.{
  Option, none, some, List, [], ◌∷◌, if◌then◌else◌, Text, codes, text_eq, to_lower,
}
use smart_contracts.Script.{Script, pure, exit_with, try_catch, ◌>>=◌}
use smart_contracts.Upgrading.Api.{zero_address}
use smart_contracts.Diagnosing.Api.{ReadApi, admin_slot, implementation_slot, address_of_word}

-- `CONFIG.PRODUCER_ADDRESSES`, without the kinds.
abbrev pub producer_addresses : List Text
producer_addresses =
    codes "0x05DbA5c8a040ee706e22ddBEAc2887998B2b149d"
    ∷ codes "0x470B0196f597DF699057599D436f7E259688BCd9"
    ∷ codes "0x4693c13eF898c50596072db86E420495C1680643"
    ∷ codes "0xDDD221b4Dca0E7d1CE876893316A3c8beD3d5f40"
    ∷ []

-- `proxyAdmins.add(admin)`; a set keeps the order of the first additions.
unfoldable pub add_admin : Text → List Text → List Text
add_admin admin [] = admin ∷ []
add_admin admin (a ∷ admins) =
    let rest = add_admin admin admins in if text_eq a admin then a ∷ admins else a ∷ rest

-- The admins of the storage slots, those with the ones that answer, and the only one, if it is.
pub record Found : Type 0 where
  pub in_storage : List Text
  pub all : List Text
  pub final : Option Text

unfoldable pub only_admin : List Text → Option Text
only_admin [] = none
only_admin (a ∷ []) = some a
only_admin (a ∷ b ∷ rest) = none

module _ {W : Type 0} (read : ReadApi W) where
  -- The two slots of a proxy, and the address in the first.
  unfoldable pub stored_admin : Text → Script W Text
  stored_admin proxy = do
    admin ← read.get_storage_at proxy admin_slot
    implementation ← read.get_storage_at proxy implementation_slot
    pure (to_lower (address_of_word admin))

  -- A failing read is only logged; an admin that was found stays also where its code cannot be
  -- read.
  unfoldable pub look_at : Text → List Text → Script W (List Text)
  look_at proxy admins = do
    found ← try_catch (stored_admin proxy >>= λ a. pure (some a)) (λ _. pure none)
    elim found [
      | none ↦ pure admins
      | some a ↦
          if text_eq a zero_address
          then pure admins
          else (try_catch (read.get_code a >>= λ code. pure (add_admin a admins))
              (λ _. pure (add_admin a admins)))
    ]

  unfoldable pub look_at_all : List Text → List Text → Script W (List Text)
  look_at_all [] admins = pure admins
  look_at_all (proxy ∷ proxies) admins = look_at proxy admins >>= look_at_all proxies

  -- The second loop calls `admin()`.
  unfoldable pub ask_all : List Text → List Text → Script W (List Text)
  ask_all [] admins = pure admins
  ask_all (proxy ∷ proxies) admins =
      try_catch (read.admin proxy >>= λ a. pure (add_admin (to_lower a) admins)) (λ _. pure admins)
      >>= ask_all proxies

  unfoldable pub find_proxy_admin : Script W Found
  find_proxy_admin =
      try_catch
        (do
          stored ← look_at_all producer_addresses []
          all ← ask_all producer_addresses stored
          pure (record { in_storage = stored; all = all; final = only_admin all }))
        (λ _. exit_with 1)
