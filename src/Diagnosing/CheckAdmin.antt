-- ===== src/Diagnosing/CheckAdmin.antt =====
-- scripts/check-proxy-admin.js: the admins of the Producer proxies that Governance names, and the
-- manifests of OpenZeppelin.
use smart_contracts.Base.{
  ℕ, Bool, ◌||◌, Option, none, some, List, [], ◌∷◌, if◌then◌else◌, Text, codes, text_eq,
}
use smart_contracts.Script.{ok, Script, pure, throw, exit_with, try_catch, lift, ◌>>=◌, ◌>>◌}
use smart_contracts.Script.Loop.{each}
use smart_contracts.Signing.TxHash.{includes}
use smart_contracts.Deployments.State.{set}
use smart_contracts.Upgrading.Api.{zero_address}
use smart_contracts.Upgrading.Fix.{treasure_kinds}
use smart_contracts.Diagnosing.Api.{ReadApi, admin_slot, address_of_word}

-- What the first two methods say about the admin of a proxy.
pub data Admin : Type 0 where
  by_call : Text → Option Text → Admin
  by_storage : Text → Admin
  empty_slot : Admin
  unreadable : Text → Admin

-- With the estimate that the third method asks for.
pub record Inspection : Type 0 where
  pub kind : Text
  pub admin : Admin
  pub estimate : Option ℕ

pub record Manifest : Type 0 where
  pub admin : Option Text
  pub proxies : List (Text × Option Text)

-- The folder of the manifests, and `JSON.parse`.
pub record ManifestApi (W : Type 0) : Type 0 where
  pub exists : W → Bool
  pub read_directory : Script W (List Text)
  pub read_file : Text → Script W Text
  pub parse : Text → Option Manifest

-- A proxy that is skipped has no inspection; without a folder there are no manifests.
pub record Report : Type 0 where
  pub inspected : List (Option Inspection)
  pub manifests : Option (List (Text × Option Manifest))

module _ {W : Type 0} (manager : Text) (read : ReadApi W)
    (estimate_set_mul_sig : Text → Text → Script W ℕ) (files : ManifestApi W) where
  -- `governance.getTreasureByKind(kind)`: the function is below `governance.methods`.
  unfoldable pub treasure_of : Text → Script W Text
  treasure_of kind = throw (codes "governance.getTreasureByKind is not a function")

  unfoldable pub read_producers : List Text → List (Text × Text) → Script W (List (Text × Text))
  read_producers [] known = pure known
  read_producers (kind ∷ kinds) known =
      try_catch (treasure_of kind >>= λ producer. pure (set kind producer known)) (λ _. pure known)
      >>= read_producers kinds

  unfoldable pub admin_by_storage : Text → Script W Admin
  admin_by_storage proxy =
      try_catch
        (do
          word ← read.get_storage_at proxy admin_slot
          let address = address_of_word word
          if text_eq address zero_address
              then pure empty_slot
              else lift (read.to_checksum_address address) >>= λ a. pure (by_storage a))
        (λ message. pure (unreadable message))

  unfoldable pub admin_of : Text → Script W Admin
  admin_of proxy =
      try_catch
        (do
          admin ← read.admin proxy
          implementation ←
              try_catch (read.implementation proxy >>= λ a. pure (some a)) (λ _. pure none)
          pure (by_call admin implementation))
        (λ _. admin_by_storage proxy)

  unfoldable pub inspect : Text × Text → Script W (Option Inspection)
  inspect (kind, producer) =
      if text_eq producer [] || text_eq producer zero_address then pure none else (do
        admin ← admin_of producer
        estimate ←
            try_catch
              (read.load_abi (codes "OilProducer") >> estimate_set_mul_sig producer manager >>= λ n.
                pure (some n))
              (λ _. pure none)
        pure (some (record { kind = kind; admin = admin; estimate = estimate })))

  unfoldable pub read_manifest : Text → Script W (Text × Option Manifest)
  read_manifest file =
      try_catch (files.read_file file >>= λ content. pure (file, files.parse content))
        (λ _. pure (file, none))

  -- The files of the networks 6666 and treasurenet.
  unfoldable pub network_files : List Text → List Text
  network_files [] = []
  network_files (f ∷ fs) =
      let rest = network_files fs in
      if includes (codes "6666") f || includes (codes "treasurenet") f then f ∷ rest else rest

  unfoldable pub read_manifests : Script W (Option (List (Text × Option Manifest)))
  read_manifests w =
      if files.exists w
      then (files.read_directory >>= λ names.
            each read_manifest (network_files names) >>= λ ms. pure (some ms))
          w
      else (ok none, w)

  unfoldable pub check_proxy_admin : Script W Report
  check_proxy_admin =
      try_catch
        (do
          read.add_account
          read.load_abi (codes "Governance")
          producers ← read_producers treasure_kinds []
          inspected ← each inspect producers
          manifests ← read_manifests
          pure (record { inspected = inspected; manifests = manifests }))
        (λ _. exit_with 1)
