-- ===== src/Deploying/FirstStep.antt =====
-- The base step returns where every call answers.
use smart_contracts.Base.{◌≡◌, ◌∙◌, refl, Option, some, List, [], ◌∷◌, Text, codes}
use smart_contracts.Script.Chain.{Returns, Returns-pure, Returns-bind}
use smart_contracts.Deployments.State.{State, FileApi, start_new_entry}
use smart_contracts.Deploying.Api.{HardhatApi}
use smart_contracts.Deploying.Core.{deploy_base}
use smart_contracts.Deploying.Answers.{Answers, HasEntry}
use smart_contracts.Deploying.Keys.{HasKeys, HasKeys-nil}
use smart_contracts.Deploying.Returns.{
  IsReadable, open_state_any, get_factories_returns, send_and_wait_returns,
  deploy_and_record_returns,
}

-- The names that the base step records, the last one first.
abbrev pub base_names : List Text
base_names =
    codes "ORACLE" ∷ codes "PARAMETER_INFO" ∷ codes "ROLES" ∷ codes "MULSIG" ∷ codes "DAO" ∷ []

module _ {W I : Type 0} (files : FileApi W) (hardhat : HardhatApi W I) (stored : W → Option State)
    (answers : Answers files hardhat stored) where
  -- A step ends with a state in which all these names are found, and the file holds it.
  abbrev pub Leaves : List Text → State → W → Type 0
  Leaves names s w = HasKeys s names × (stored w ≡ some s)

  start_new_entry_returns :
      (s : State) (network : Text) (w : W)
      → Returns (start_new_entry files s network) w (λ s' w'. HasEntry s')
  unfolding start_new_entry
  start_new_entry_returns s network w = record {
    result = _;
    world = w;
    ran = refl;
    post = (_, _, refl);
  }

  pub deploy_base_returns :
      (w : W)
      → IsReadable files hardhat stored answers w
      → Returns (deploy_base files hardhat) w (Leaves base_names)
  unfolding deploy_base
  deploy_base_returns w readable =
      let deploy = deploy_and_record_returns files hardhat stored answers in
      let send = send_and_wait_returns files hardhat stored answers in
      Returns-bind _ _ w (open_state_any files hardhat stored answers w readable) λ o w₀ path.
        Returns-bind _ _ w₀ (start_new_entry_returns o.1 _ w₀) λ s w₁ entry.
          Returns-bind _ _ w₁ (get_factories_returns files hardhat stored answers _ w₁) λ _ w₂ _.
            Returns-bind _ _ w₂ (deploy _ _ _ _ _ _ s w₂ path (HasKeys-nil entry)) λ r₁ w₃ h₁.
              Returns-bind _ _ w₃ (deploy _ _ _ _ _ _ r₁.state w₃ path h₁.0) λ r₂ w₄ h₂.
                Returns-bind _ _ w₄ (deploy _ _ _ _ _ _ r₂.state w₄ path h₂.0) λ r₃ w₅ h₃.
                  Returns-bind _ _ w₅ (deploy _ _ _ _ _ _ r₃.state w₅ path h₃.0) λ r₄ w₆ h₄.
                    Returns-bind _ _ w₆ (deploy _ _ _ _ _ _ r₄.state w₆ path h₄.0) λ r₅ w₇ h₅.
                      Returns-bind _ _ w₇ (send _ _ _ w₇) λ _ w₈ e₁.
                        Returns-bind _ _ w₈ (send _ _ _ w₈) λ _ w₉ e₂.
                          Returns-bind _ _ w₉ (send _ _ _ w₉)
                            λ _ w' e₃. Returns-pure r₅.state w' (h₅.0, e₃ ∙ e₂ ∙ e₁ ∙ h₅.1)
