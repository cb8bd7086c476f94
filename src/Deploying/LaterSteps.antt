-- ===== src/Deploying/LaterSteps.antt =====
-- The steps producers, tcash and ustn return where every call answers and the steps before them
-- left what they require.
use smart_contracts.Base.{◌≡◌, ◌∙◌, refl, true, Option, List, ◌∷◌, map, Text, codes}
use smart_contracts.Script.Chain.{Returns, Returns-pure, Returns-bind}
use smart_contracts.Deployments.State.{State, FileApi, contract_key}
use smart_contracts.Deploying.Api.{HardhatApi}
use smart_contracts.Deploying.Producers.{
  Pair, producers_required, deploy_pair, initialize_pair, deploy_producers,
}
use smart_contracts.Deploying.Cash.{tcash_required, deploy_wrapped, deploy_tcash}
use smart_contracts.Deploying.Ustn.{ustn_required, deploy_ustn}
use smart_contracts.Deploying.Answers.{state_path, Answers}
use smart_contracts.Deploying.Keys.{HasKeys, HasKeys-covers, covers}
use smart_contracts.Deploying.Returns.{
  require_all_returns, require_entries_returns, open_state_held, get_factories_returns,
  send_returns, send_and_wait_returns, first_signer_returns, deploy_and_record_returns,
}
use smart_contracts.Deploying.FirstStep.{base_names, Leaves}

-- The names that the step producers adds, the last one first.
abbrev pub producers_names : List Text
producers_names =
    codes "TAT"
    ∷ codes "GOVERNANCE"
    ∷ codes "BTC_DATA"
    ∷ codes "BTC_PRODUCER"
    ∷ codes "ETH_DATA"
    ∷ codes "ETH_PRODUCER"
    ∷ codes "GAS_DATA"
    ∷ codes "GAS_PRODUCER"
    ∷ codes "OIL_DATA"
    ∷ codes "OIL_PRODUCER"
    ∷ base_names

abbrev pub tcash_names : List Text
tcash_names =
    codes "TCASH_AUCTION"
    ∷ codes "TCASH_LOAN"
    ∷ codes "TAT_MANAGER"
    ∷ codes "WUNIT"
    ∷ codes "WTCASH"
    ∷ codes "TCASH"
    ∷ producers_names

abbrev pub ustn_names : List Text
ustn_names = codes "USTN_FINANCE" ∷ codes "USTN_AUCTION" ∷ codes "USTN" ∷ tcash_names

producers_covered : covers (map contract_key base_names) producers_required ≡ true
unfolding covers contract_key codes
producers_covered = refl

tcash_covered : covers (map contract_key producers_names) tcash_required ≡ true
unfolding covers contract_key codes
tcash_covered = refl

ustn_covered : covers (map contract_key tcash_names) ustn_required ≡ true
unfolding covers contract_key codes
ustn_covered = refl

module _ {W I : Type 0} (files : FileApi W) (hardhat : HardhatApi W I) (stored : W → Option State)
    (answers : Answers files hardhat stored) where
  deploy_pair_returns :
      (names : List Text) (json producer_key producer_name data_key data_name : Text) (s : State)
      (w : W)
      → json ≡ state_path files hardhat
      → HasKeys s names
      → Returns
          (deploy_pair files hardhat json producer_key producer_name data_key data_name s)
          w
          (λ p w'. HasKeys p.state (data_key ∷ producer_key ∷ names))
  unfolding deploy_pair
  deploy_pair_returns names json producer_key producer_name data_key data_name s w path keys =
      let deploy = deploy_and_record_returns files hardhat stored answers in
      Returns-bind _ _ w (deploy _ _ _ _ _ _ s w path keys) λ producer w₁ h₁.
        Returns-bind _ _ w₁ (deploy _ _ _ _ _ _ producer.state w₁ path h₁.0)
          λ data_contract w' h₂. Returns-pure _ w' h₂.0

  initialize_pair_returns :
      (kind tat : Text) (s : State) (pair : Pair I) (w : W)
      → Returns (initialize_pair files hardhat kind tat s pair) w (λ _ w'. stored w' ≡ stored w)
  unfolding initialize_pair
  initialize_pair_returns kind tat s pair w =
      let send = send_returns files hardhat stored answers in
      Returns-bind _ _ w (send _ _ _ w)
        λ _ w₁ e₁. Returns-bind _ _ w₁ (send _ _ _ w₁) λ _ w' e₂. Returns-pure tt w' (e₂ ∙ e₁)

  pub deploy_producers_returns :
      (s : State) (w : W)
      → Leaves files hardhat stored answers base_names s w
      → Returns
          (deploy_producers files hardhat)
          w
          (Leaves files hardhat stored answers producers_names)
  unfolding deploy_producers
  deploy_producers_returns s w (keys, held) =
      let deploy = deploy_and_record_returns files hardhat stored answers in
      let pair = deploy_pair_returns in
      let start = initialize_pair_returns in
      Returns-bind _ _ w (open_state_held files hardhat stored answers _ s w held keys)
        λ o w₁ (path, h). Returns-bind _ _ w₁ (require_entries_returns _ o.1 w₁ h.entry) λ _ w₂ _.
          Returns-bind _ _ w₂ (get_factories_returns files hardhat stored answers _ w₂) λ _ w₃ _.
            Returns-bind _ _ w₃
              (require_all_returns _ _ o.1 w₃
                (HasKeys-covers producers_required h producers_covered))
              λ _ w₄ _. Returns-bind _ _ w₄ (pair _ _ _ _ _ _ o.1 w₄ path h) λ oil w₅ h₁.
                Returns-bind _ _ w₅ (pair _ _ _ _ _ _ oil.state w₅ path h₁) λ gas w₆ h₂.
                  Returns-bind _ _ w₆ (pair _ _ _ _ _ _ gas.state w₆ path h₂) λ eth w₇ h₃.
                    Returns-bind _ _ w₇ (pair _ _ _ _ _ _ eth.state w₇ path h₃) λ btc w₈ h₄.
                      Returns-bind _ _ w₈ (deploy _ _ _ _ _ _ btc.state w₈ path h₄)
                        λ governance w₉ h₅.
                          Returns-bind _ _ w₉ (deploy _ _ _ _ _ _ governance.state w₉ path h₅.0)
                            λ tat v h₆. Returns-bind _ _ v (start _ _ _ oil v) λ _ v₁ e₁.
                              Returns-bind _ _ v₁ (start _ _ _ gas v₁) λ _ v₂ e₂.
                                Returns-bind _ _ v₂ (start _ _ _ eth v₂) λ _ v₃ e₃.
                                  Returns-bind _ _ v₃ (start _ _ _ btc v₃) λ _ v₄ e₄.
                                    Returns-pure tat.state v₄ (h₆.0, e₄ ∙ e₃ ∙ e₂ ∙ e₁ ∙ h₆.1)

  deploy_wrapped_returns :
      (names : List Text) (json : Text) (s : State) (w : W)
      → json ≡ state_path files hardhat
      → HasKeys s names
      → Returns
          (deploy_wrapped files hardhat json s)
          w
          (λ s' w'. HasKeys s' (codes "WUNIT" ∷ codes "WTCASH" ∷ names))
  unfolding deploy_wrapped
  deploy_wrapped_returns names json s w path keys =
      let deploy = deploy_and_record_returns files hardhat stored answers in
      Returns-bind _ _ w (deploy _ _ _ _ _ _ s w path keys) λ wtcash w₁ h₁.
        Returns-bind _ _ w₁ (deploy _ _ _ _ _ _ wtcash.state w₁ path h₁.0)
          λ wunit w' h₂. Returns-pure wunit.state w' h₂.0

  pub deploy_tcash_returns :
      (s : State) (w : W)
      → Leaves files hardhat stored answers producers_names s w
      → Returns (deploy_tcash files hardhat) w (Leaves files hardhat stored answers tcash_names)
  unfolding deploy_tcash
  deploy_tcash_returns s w (keys, held) =
      let deploy = deploy_and_record_returns files hardhat stored answers in
      let send = send_and_wait_returns files hardhat stored answers in
      Returns-bind _ _ w (open_state_held files hardhat stored answers _ s w held keys)
        λ o w₁ (path, h). Returns-bind _ _ w₁ (require_entries_returns _ o.1 w₁ h.entry) λ _ w₂ _.
          Returns-bind _ _ w₂ (get_factories_returns files hardhat stored answers _ w₂) λ _ w₃ _.
            Returns-bind _ _ w₃
              (require_all_returns _ _ o.1 w₃ (HasKeys-covers tcash_required h tcash_covered))
              λ _ w₄ _.
                Returns-bind _ _ w₄ (first_signer_returns files hardhat stored answers w₄)
                  λ signer w₅ _.
                    Returns-bind _ _ w₅ (deploy _ _ _ _ _ _ o.1 w₅ path h) λ tcash w₆ h₁.
                      Returns-bind _ _ w₆ (deploy_wrapped_returns _ _ tcash.state w₆ path h₁.0)
                        λ wrapped w₇ h₂.
                          Returns-bind _ _ w₇ (deploy _ _ _ _ _ _ wrapped w₇ path h₂)
                            λ tat_manager w₈ h₃.
                              Returns-bind _ _ w₈
                                (deploy _ _ _ _ _ _ tat_manager.state w₈ path h₃.0)
                                λ loan w₉ h₄.
                                  Returns-bind _ _ w₉ (deploy _ _ _ _ _ _ loan.state w₉ path h₄.0)
                                    λ auction v h₅. Returns-bind _ _ v (send _ _ _ v) λ _ v₁ e₁.
                                      Returns-bind _ _ v₁ (send _ _ _ v₁) λ _ v₂ e₂.
                                        Returns-pure auction.state v₂ (h₅.0, e₂ ∙ e₁ ∙ h₅.1)

  pub deploy_ustn_returns :
      (s : State) (w : W)
      → Leaves files hardhat stored answers tcash_names s w
      → Returns (deploy_ustn files hardhat) w (Leaves files hardhat stored answers ustn_names)
  unfolding deploy_ustn
  deploy_ustn_returns s w (keys, held) =
      let deploy = deploy_and_record_returns files hardhat stored answers in
      let send = send_returns files hardhat stored answers in
      Returns-bind _ _ w (open_state_held files hardhat stored answers _ s w held keys)
        λ o w₁ (path, h). Returns-bind _ _ w₁ (require_entries_returns _ o.1 w₁ h.entry) λ _ w₂ _.
          Returns-bind _ _ w₂ (get_factories_returns files hardhat stored answers _ w₂) λ _ w₃ _.
            Returns-bind _ _ w₃
              (require_all_returns _ _ o.1 w₃ (HasKeys-covers ustn_required h ustn_covered))
              λ _ w₄ _. Returns-bind _ _ w₄ (deploy _ _ _ _ _ _ o.1 w₄ path h) λ ustn w₅ h₁.
                Returns-bind _ _ w₅ (deploy _ _ _ _ _ _ ustn.state w₅ path h₁.0) λ auction w₆ h₂.
                  Returns-bind _ _ w₆ (deploy _ _ _ _ _ _ auction.state w₆ path h₂.0)
                    λ finance v h₃. Returns-bind _ _ v (send _ _ _ v) λ _ v₁ e₁.
                      Returns-bind _ _ v₁ (send _ _ _ v₁) λ _ v₂ e₂.
                        Returns-bind _ _ v₂ (send _ _ _ v₂)
                          λ _ v₃ e₃. Returns-pure finance.state v₃ (h₃.0, e₃ ∙ e₂ ∙ e₁ ∙ h₃.1)
