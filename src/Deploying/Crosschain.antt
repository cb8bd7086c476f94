-- ===== src/Deploying/Crosschain.antt =====
-- scripts/deploy/crosschain.js
use smart_contracts.Base.{
  ℕ, Bool, ◌&&◌, ◌||◌, ◌==◌, if◌then◌else◌, leb, none, some, Option, List, [], ◌∷◌, ◌++◌, Text,
  codes, text_eq, same_address,
}
use smart_contracts.Script.{Outcome, ok, err, Script, pure, lift, throw}
use smart_contracts.Script.Chain.{◌>>=◌, ◌>>◌}
use smart_contracts.Deployments.State.{State, FileApi, or_text}
use smart_contracts.Deploying.Api.{text, texts, num, arg_of, HardhatApi}
use smart_contracts.Deploying.Steps.{
  resolve, open_state, require_entries, require_all, get_factories, deploy_and_record,
  send_and_wait, first_signer, exit_on_error,
}

-- The characters that `trim` takes off.
unfoldable pub is_space : ℕ → Bool
is_space c =
    (leb 9 c && leb c 13)
    || c == 32
    || c == 160
    || c == 0x1680
    || (leb 0x2000 c && leb c 0x200a)
    || c == 0x2028
    || c == 0x2029
    || c == 0x202f
    || c == 0x205f
    || c == 0x3000
    || c == 0xfeff

unfoldable pub trim_start : Text → Text
trim_start [] = []
trim_start (c ∷ s) = let rest = trim_start s in if is_space c then rest else c ∷ s

-- A character at the end that is a space goes where all behind it went.
unfoldable pub trim_end : Text → Text
trim_end [] = []
trim_end (c ∷ s) = let rest = trim_end s in if is_space c && text_eq rest [] then [] else c ∷ rest

-- `(value || '').trim() || fallback`, and `ethers.getAddress`
unfoldable pub normalize_address : (Text → Option Text) → Option Text → Text → Text → Outcome Text
normalize_address to_checksum value label fallback =
    let target = or_text (some (trim_end (trim_start (or_text value [])))) fallback in
    elim (to_checksum target) [
      | none ↦ err (codes "Invalid " ++ label ++ codes " address: " ++ target)
      | some address ↦ ok address
    ]

abbrev pub crosschain_contracts : List Text
crosschain_contracts =
    codes "MulSig"
    ∷ codes "Roles"
    ∷ codes "Oracle"
    ∷ codes "TCashLoan"
    ∷ codes "CrosschainTokens"
    ∷ codes "CrosschainBridge"
    ∷ []

abbrev pub crosschain_required : List Text
crosschain_required =
    codes "DAO"
    ∷ codes "MULSIG"
    ∷ codes "ROLES"
    ∷ codes "PARAMETER_INFO"
    ∷ codes "ORACLE"
    ∷ codes "GOVERNANCE"
    ∷ codes "TCASH"
    ∷ codes "TCASH_LOAN"
    ∷ codes "TCASH_AUCTION"
    ∷ codes "TAT"
    ∷ []

-- `signers.find((s) => s.address.toLowerCase() === owner.toLowerCase())`
unfoldable pub find_signer : Text → List Text → Option Text
find_signer owner [] = none
find_signer owner (a ∷ signers) =
    let rest = find_signer owner signers in if same_address a owner then some a else rest

module _ {W I : Type 0} (files : FileApi W) (hardhat : HardhatApi W I) where
  -- The loop over the code of the required contracts.
  unfoldable pub require_code : List Text → State → Script W (Unit {0})
  require_code [] state = pure tt
  require_code (key ∷ keys) state = do
    let address = or_text (resolve state key) []
    code ← hardhat.get_code address
    if text_eq code [] || text_eq code (codes "0x")
        then throw (
            codes "Address for "
            ++ key
            ++ codes " ("
            ++ address
            ++ codes ") has no contract code on "
            ++ hardhat.network_name
            ++ codes "; rerun earlier steps")
        else pure tt
    require_code keys state

  -- The call of `roles.initialize` and the check of the roles of TCashLoan.
  unfoldable pub initialize_roles : I → Text → Text → Text → Text → State → Script W (Unit {0})
  initialize_roles roles deployer user tokens bridge state = do
    let of = λ (key : Text). arg_of (resolve state key)
    let loan = or_text (resolve state (codes "TCASH_LOAN")) []
    let address = λ (key : Text). or_text (resolve state key) []
    send_and_wait hardhat roles (codes "initialize") (
        of (codes "MULSIG")
        ∷ texts (deployer ∷ user ∷ [])
        ∷ texts (deployer ∷ user ∷ [])
        ∷ texts (address (codes "ORACLE") ∷ deployer ∷ user ∷ [])
        ∷ texts (bridge ∷ deployer ∷ user ∷ [])
        ∷ texts (
            address (codes "TCASH")
            ∷ loan
            ∷ address (codes "TCASH_AUCTION")
            ∷ deployer
            ∷ user
            ∷ bridge
            ∷ tokens
            ∷ [])
        ∷ [])
    minter ← hardhat.role roles (codes "TCASH_MINTER")
    burner ← hardhat.role roles (codes "TCASH_BURNER")
    mints ← hardhat.has_role roles minter loan
    burns ← if mints then hardhat.has_role roles burner loan else pure mints
    if burns
        then pure tt
        else throw (
            codes "TCashLoan "
            ++ loan
            ++ codes " missing TCASH_MINTER/TCASH_BURNER after Roles.initialize")

  -- `setAuctionContract`, sent from the owner of TCashLoan.
  unfoldable pub set_auction : I → State → Script W (Unit {0})
  set_auction loan state = do
    owner ← hardhat.owner loan
    signers ← hardhat.get_signers
    elim (find_signer owner signers) [
      | none ↦ throw (
          codes "Owner "
          ++ owner
          ++ codes " not available in local signers; cannot setAuctionContract")
      | some signer ↦
          hardhat.send_as signer loan (codes "setAuctionContract")
            (arg_of (resolve state (codes "TCASH_AUCTION")) ∷ [])
          >>= hardhat.wait_for
    ]

  -- The first signer becomes a foundation manager where it is none.
  unfoldable pub grant_manager : I → Script W (Unit {0})
  grant_manager roles = do
    manager ← hardhat.role roles (codes "FOUNDATION_MANAGER")
    signer ← first_signer hardhat
    held ← hardhat.has_role roles manager signer
    if held
        then pure tt
        else first_signer hardhat >>= λ first.
            send_and_wait hardhat roles (codes "grantRole") (text manager ∷ text first ∷ [])

  -- Everything from the wiring of the multisig contract on.
  unfoldable pub initialize_stack : Text → Text → Text → Text → I → State → Script W (Unit {0})
  initialize_stack deployer user tokens bridge tokens_contract state = do
    let of = λ (key : Text). arg_of (resolve state key)
    let roles = hardhat.attach (codes "Roles") (resolve state (codes "ROLES"))
    let mul_sig = hardhat.attach (codes "MulSig") (resolve state (codes "MULSIG"))
    let oracle = hardhat.attach (codes "Oracle") (resolve state (codes "ORACLE"))
    let loan = hardhat.attach (codes "TCashLoan") (resolve state (codes "TCASH_LOAN"))
    send_and_wait hardhat tokens_contract (codes "setMulSig") (of (codes "MULSIG") ∷ [])
    send_and_wait hardhat mul_sig (codes "initialize") (
        of (codes "DAO")
        ∷ of (codes "GOVERNANCE")
        ∷ of (codes "ROLES")
        ∷ of (codes "PARAMETER_INFO")
        ∷ text tokens
        ∷ num 5
        ∷ [])
    initialize_roles roles deployer user tokens bridge state
    send_and_wait hardhat loan (codes "initialize") (
        of (codes "TCASH")
        ∷ of (codes "ROLES")
        ∷ of (codes "PARAMETER_INFO")
        ∷ of (codes "ORACLE")
        ∷ of (codes "TAT")
        ∷ [])
    set_auction loan state
    grant_manager roles
    -- `ethers.parseEther('0.5')`
    send_and_wait hardhat oracle (codes "updatePrice")
        (text (codes "UNIT") ∷ num 500000000000000000 ∷ [])
    send_and_wait hardhat oracle (codes "updatePrice")
        (text (codes "TCASH") ∷ num 500000000000000000 ∷ [])

  unfoldable pub deploy_crosschain : Text → Text → Script W State
  deploy_crosschain deployer user = do
    opened ← open_state files hardhat
    let json = opened.0
    require_entries (codes "No deployment entry; run previous steps.") opened.1
    get_factories hardhat crosschain_contracts
    require_all (codes "previous steps completed") crosschain_required opened.1
    require_code crosschain_required opened.1
    tokens ←
        deploy_and_record files hardhat json (codes "CROSSCHAIN_TOKENS") (codes "CrosschainTokens")
          (text (codes "0x0000000000000000000000000000000000000000") ∷ [])
          (some (codes "initialize")) opened.1
    bridge ←
        deploy_and_record files hardhat json (codes "CROSSCHAIN_BRIDGE") (codes "CrosschainBridge")
          (text tokens.info.address ∷ arg_of (resolve opened.1 (codes "ROLES")) ∷ [])
          (some (codes "initialize")) tokens.state
    initialize_stack deployer user tokens.info.address bridge.info.address tokens.info.contract
        bridge.state
    pure bridge.state

  unfoldable pub deployer_addr : Outcome Text
  deployer_addr =
      normalize_address hardhat.to_checksum (hardhat.env (codes "DEPLOYER_ADDR"))
        (codes "DEPLOYER_ADDR") (codes "0x6A79824E6be14b7e5Cb389527A02140935a76cD5")

  unfoldable pub user_addr : Outcome Text
  user_addr =
      normalize_address hardhat.to_checksum (hardhat.env (codes "USER_ADDR")) (codes "USER_ADDR")
        (codes "0x09eda46ffcec4656235391dd298875b82aa458a9")

  -- The two addresses are read before `main` starts, outside its `catch`.
  unfoldable pub crosschain_script : Script W State
  crosschain_script = do
    deployer ← lift deployer_addr
    user ← lift user_addr
    exit_on_error (deploy_crosschain deployer user)
