-- ===== src/Deploying/LastStep.antt =====
-- The step crosschain returns where every call answers, the contracts are in place, and the steps
-- before it left what it requires.
use smart_contracts.Base.{
  ◌≡◌, ◌∙◌, refl, true, false, ◌||◌, Option, some, List, [], ◌∷◌, map, arith, Text, codes, text_eq,
}
use smart_contracts.Script.{ok}
use smart_contracts.Script.Chain.{
  ◌>>=◌, Returns, Returns-pure, Returns-bind, Returns-if, Returns-unless,
}
use smart_contracts.Deployments.State.{State, FileApi, contract_key}
use smart_contracts.Deploying.Api.{Arg, arg_of, HardhatApi}
use smart_contracts.Deploying.Steps.{resolve}
use smart_contracts.Deploying.Crosschain.{
  crosschain_required, find_signer, require_code, initialize_roles, set_auction, grant_manager,
  initialize_stack, deploy_crosschain,
}
use smart_contracts.Deploying.Answers.{Answers}
use smart_contracts.Deploying.Keys.{HasKeys-covers, covers}
use smart_contracts.Deploying.Returns.{
  require_all_returns, require_entries_returns, open_state_held, get_factories_returns,
  send_and_wait_returns, first_signer_returns, deploy_and_record_returns,
}
use smart_contracts.Deploying.FirstStep.{Leaves}
use smart_contracts.Deploying.LaterSteps.{ustn_names}

abbrev pub crosschain_names : List Text
crosschain_names = codes "CROSSCHAIN_BRIDGE" ∷ codes "CROSSCHAIN_TOKENS" ∷ ustn_names

-- Every address has code, `Roles` has granted every role that is asked for, and the owner of
-- TCashLoan is one of the signers.
pub record InPlace {W I : Type 0} (hardhat : HardhatApi W I) (stored : W → Option State)
    : Type 0 where
  pub coded :
      (a : Text) (w : W)
      → (code : Text) × (w' : W) × (hardhat.get_code a w ≡ (ok code, w'))
        × (text_eq code [] || text_eq code (codes "0x") ≡ false)
        × (stored w' ≡ stored w)
  pub named :
      (i : I) (name : Text) (w : W)
      → (role : Text) × (w' : W) × (hardhat.role i name w ≡ (ok role, w')) × (stored w' ≡ stored w)
  pub granted :
      (i : I) (role account : Text) (w : W)
      → (w' : W) × (hardhat.has_role i role account w ≡ (ok true, w')) × (stored w' ≡ stored w)
  pub owned :
      (i : I) (w : W)
      → (owner signer : Text) × (signers : List Text) × (w₁ w₂ : W) × (hardhat.owner i w
          ≡ (ok owner, w₁))
        × (hardhat.get_signers w₁ ≡ (ok signers, w₂))
        × (find_signer owner signers ≡ some signer)
        × (stored w₂ ≡ stored w)
  pub sent_as :
      (signer : Text) (i : I) (method : Text) (args : List Arg) (w : W)
      → (hash : Text) × (w' : W) × (hardhat.send_as signer i method args w ≡ (ok hash, w'))
        × (stored w' ≡ stored w)

crosschain_covered : covers (map contract_key ustn_names) crosschain_required ≡ true
unfolding covers contract_key codes
crosschain_covered = refl

module _ {W I : Type 0} (files : FileApi W) (hardhat : HardhatApi W I) (stored : W → Option State)
    (answers : Answers files hardhat stored) (place : InPlace hardhat stored) where
  -- The file is not written to.
  abbrev Keeps : {A : Type 0} → W → A → W → Type 0
  Keeps w a w' = stored w' ≡ stored w

  has_role_returns :
      (i : I) (role account : Text) (w : W)
      → Returns (hardhat.has_role i role account) w (λ b w'. (b ≡ true) × (stored w' ≡ stored w))
  has_role_returns i role account w =
      let (w', told, same) = place.granted i role account w in
      record { result = true; world = w'; ran = told; post = (refl, same) }

  role_returns : (i : I) (name : Text) (w : W) → Returns (hardhat.role i name) w (Keeps w)
  role_returns i name w =
      let (role, w', told, same) = place.named i name w in
      record { result = role; world = w'; ran = told; post = same }

  get_code_returns :
      (a : Text) (w : W)
      → Returns (hardhat.get_code a) w (λ code w'.
        (text_eq code [] || text_eq code (codes "0x") ≡ false) × (stored w' ≡ stored w))
  get_code_returns a w =
      let (code, w', told, full, same) = place.coded a w in
      record { result = code; world = w'; ran = told; post = (full, same) }

  require_code_returns :
      (keys : List Text) (s : State) (w : W)
      → Returns (require_code files hardhat keys s) w (Keeps w)
  unfolding require_code
  require_code_returns [] s w = Returns-pure tt w refl
  require_code_returns (key ∷ keys) s w =
      Returns-bind _ _ w (get_code_returns _ w) λ code w₁ (full, same).
        Returns-bind {R = Keeps w₁} _ _ w₁ (Returns-unless _ _ _ w₁ full (Returns-pure tt w₁ refl))
          λ _ w₂ same'.
            let rest = require_code_returns keys s w₂ in
            record {
              result = rest.result;
              world = rest.world;
              ran = rest.ran;
              post = rest.post ∙ same' ∙ same;
            }

  initialize_roles_returns :
      (roles : I) (deployer user tokens bridge : Text) (s : State) (w : W)
      → Returns (initialize_roles files hardhat roles deployer user tokens bridge s) w (Keeps w)
  unfolding initialize_roles
  initialize_roles_returns roles deployer user tokens bridge s w =
      let send = send_and_wait_returns files hardhat stored answers in
      Returns-bind _ _ w (send _ _ _ w) λ _ w₁ e₁.
        Returns-bind _ _ w₁ (role_returns roles _ w₁) λ minter w₂ e₂.
          Returns-bind _ _ w₂ (role_returns roles _ w₂) λ burner w₃ e₃.
            Returns-bind _ _ w₃ (has_role_returns roles minter _ w₃) λ mints w₄ (minting, e₄).
              Returns-bind _ _ w₄ (Returns-if _ _ _ w₄ minting (has_role_returns roles burner _ w₄))
                λ burns w₅ (burning, e₅).
                  Returns-if _ _ _ w₅ burning (Returns-pure tt w₅ (e₅ ∙ e₄ ∙ e₃ ∙ e₂ ∙ e₁))

  set_auction_returns :
      (loan : I) (s : State) (w : W) → Returns (set_auction files hardhat loan s) w (Keeps w)
  unfolding set_auction ◌>>=◌
  set_auction_returns loan s w =
      let (owner, signer, signers, w₁, w₂, owns, listed, found, same) = place.owned loan w in
      let args = arg_of (resolve s (codes "TCASH_AUCTION")) ∷ [] in
      let (hash, w₃, sent, same') =
        place.sent_as signer loan (codes "setAuctionContract") args w₂ in
      let (w₄, done, same'') = answers.confirmed hash w₃ in
      record { result = tt; world = w₄; ran = ground arith; post = same'' ∙ same' ∙ same }

  grant_manager_returns :
      (roles : I) (w : W) → Returns (grant_manager files hardhat roles) w (Keeps w)
  unfolding grant_manager
  grant_manager_returns roles w = Returns-bind _ _ w (role_returns roles _ w) λ manager w₁ e₁.
      Returns-bind _ _ w₁ (first_signer_returns files hardhat stored answers w₁) λ signer w₂ e₂.
        Returns-bind _ _ w₂ (has_role_returns roles manager signer w₂)
          λ held w₃ (holds, e₃). Returns-if _ _ _ w₃ holds (Returns-pure tt w₃ (e₃ ∙ e₂ ∙ e₁))

  initialize_stack_returns :
      (deployer user tokens bridge : Text) (contract : I) (s : State) (w : W)
      → Returns (initialize_stack files hardhat deployer user tokens bridge contract s) w (Keeps w)
  unfolding initialize_stack
  initialize_stack_returns deployer user tokens bridge contract s w =
      let send = send_and_wait_returns files hardhat stored answers in
      Returns-bind _ _ w (send _ _ _ w) λ _ w₁ e₁. Returns-bind _ _ w₁ (send _ _ _ w₁) λ _ w₂ e₂.
        Returns-bind _ _ w₂ (initialize_roles_returns _ _ _ _ _ s w₂) λ _ w₃ e₃.
          Returns-bind _ _ w₃ (send _ _ _ w₃) λ _ w₄ e₄.
            Returns-bind _ _ w₄ (set_auction_returns _ s w₄) λ _ w₅ e₅.
              Returns-bind _ _ w₅ (grant_manager_returns _ w₅) λ _ w₆ e₆.
                Returns-bind _ _ w₆ (send _ _ _ w₆) λ _ w₇ e₇.
                  let last = send _ _ _ w₇ in
                  record {
                    result = last.result;
                    world = last.world;
                    ran = last.ran;
                    post = last.post ∙ e₇ ∙ e₆ ∙ e₅ ∙ e₄ ∙ e₃ ∙ e₂ ∙ e₁;
                  }

  pub deploy_crosschain_returns :
      (deployer user : Text) (s : State) (w : W)
      → Leaves files hardhat stored answers ustn_names s w
      → Returns
          (deploy_crosschain files hardhat deployer user)
          w
          (Leaves files hardhat stored answers crosschain_names)
  unfolding deploy_crosschain
  deploy_crosschain_returns deployer user s w (keys, held) =
      let deploy = deploy_and_record_returns files hardhat stored answers in
      Returns-bind _ _ w (open_state_held files hardhat stored answers _ s w held keys)
        λ o w₁ (path, h). Returns-bind _ _ w₁ (require_entries_returns _ o.1 w₁ h.entry) λ _ w₂ _.
          Returns-bind _ _ w₂ (get_factories_returns files hardhat stored answers _ w₂) λ _ w₃ _.
            Returns-bind _ _ w₃
              (require_all_returns _ _ o.1 w₃
                (HasKeys-covers crosschain_required h crosschain_covered))
              λ _ w₄ _. Returns-bind _ _ w₄ (require_code_returns _ o.1 w₄) λ _ w₅ _.
                Returns-bind _ _ w₅ (deploy _ _ _ _ _ _ o.1 w₅ path h) λ tokens w₆ h₁.
                  Returns-bind _ _ w₆ (deploy _ _ _ _ _ _ tokens.state w₆ path h₁.0) λ bridge w₇ h₂.
                    Returns-bind _ _ w₇
                      (initialize_stack_returns deployer user _ _ _ bridge.state w₇)
                      λ _ v e. Returns-pure bridge.state v (h₂.0, e ∙ h₂.1)
