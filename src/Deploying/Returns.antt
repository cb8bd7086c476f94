-- ===== src/Deploying/Returns.antt =====
-- The shared steps of the deployment scripts return where every call answers.
use smart_contracts.Base.{
  ◌≡◌, ◌≢◌, ◌∙◌, ◌⊎◌, inl, inr, refl, Bool-cases, Option, none, some, List, [], ◌∷◌, arith, Text,
  codes,
}
use smart_contracts.Script.{ok}
use smart_contracts.Script.Chain.{Returns}
use smart_contracts.Deployments.State.{
  Deployed, Entry, State, FileApi, only_entries, contract_key, ensure_directory, get_paths,
  load_state, state_of, save_state, put_contract, record_contract,
}
use smart_contracts.Deployments.RoundTrip.{current_entry_front}
use smart_contracts.Deploying.Api.{Arg, HardhatApi}
use smart_contracts.Deploying.Steps.{
  has_entries, require_all, require_entries, Info, open_state, get_factories,
  deploy_proxy_with_info, send_and_wait, first_signer, deploy_and_record,
}
use smart_contracts.Deploying.Answers.{state_path, Answers, HasEntry, resolve-put_contract}
use smart_contracts.Deploying.Keys.{AllResolved, HasKeys, HasKeys-cons}

module _ {W : Type 0} where
  require_all_passes :
      (hint : Text) (keys : List Text) (s : State) (w : W)
      → AllResolved s keys
      → require_all hint keys s w ≡ (ok tt, w)
  unfolding require_all AllResolved
  require_all_passes hint [] s w h = refl
  require_all_passes hint (key ∷ keys) s w h =
      let found = h.0.1 in let rest = require_all_passes hint keys s w h.1 in ground arith

  pub require_all_returns :
      (hint : Text) (keys : List Text) (s : State) (w : W)
      → AllResolved s keys
      → Returns (require_all hint keys s) w (λ _ w'. w' ≡ w)
  require_all_returns hint keys s w h = record {
    result = tt;
    world = w;
    ran = require_all_passes hint keys s w h;
    post = refl;
  }

  pub require_entries_returns :
      (message : Text) (s : State) (w : W)
      → HasEntry s
      → Returns (require_entries message s) w (λ _ w'. w' ≡ w)
  unfolding require_entries has_entries
  require_entries_returns message s w h = record {
    result = tt;
    world = w;
    ran = rw h.2 refl;
    post = refl;
  }

module _ {W I : Type 0} (files : FileApi W) (hardhat : HardhatApi W I) (stored : W → Option State)
    (answers : Answers files hardhat stored) where
  ensure_directory_answers :
      (directory : Text) (w : W)
      → (w' : W) × (ensure_directory files directory w ≡ (ok tt, w')) × (stored w' ≡ stored w)
  unfolding ensure_directory
  ensure_directory_answers directory w =
      let (w', made, same) = answers.makes_directory directory w in
      elim (Bool-cases (files.exists directory w)) [
        | inl there ↦ (w, rw there refl, refl)
        | inr absent ↦ (w', rw absent made, same)
      ]

  get_paths_answers :
      (w : W)
      → (w' : W) × (get_paths files hardhat.network_name w ≡ (ok (state_path files hardhat), w'))
        × (stored w' ≡ stored w)
  unfolding get_paths
  get_paths_answers w =
      let directory = files.join files.working_directory (codes "deployments") in
      let (w', made, same) = ensure_directory_answers directory w in (w', ground arith, same)

  pub open_state_present :
      (s : State) (es : List Entry) (w : W)
      → stored w ≡ some s
      → s.entries ≡ some es
      → (w' : W) × (open_state files hardhat w ≡ (ok (state_path files hardhat, s), w'))
        × (stored w' ≡ some s)
  unfolding open_state load_state state_of
  open_state_present s es w held filled =
      let (w', found, same) = get_paths_answers w in
      let (content, there, read, parsed) = answers.present_file w' s (same ∙ held) in
      (w', ground arith, same ∙ held)

  pub open_state_missing :
      (w : W)
      → stored w ≡ none
      → (w' : W) × (open_state files hardhat w
          ≡ (ok (state_path files hardhat, only_entries []), w'))
        × (stored w' ≡ none)
  unfolding open_state load_state
  open_state_missing w empty =
      let (w', found, same) = get_paths_answers w in
      let absent = answers.missing_file w' (same ∙ empty) in (w', ground arith, same ∙ empty)

  -- The file is not there, or it holds a state.
  abbrev pub IsReadable : W → Type 0
  IsReadable w =
      (stored w ≡ none)
      ⊎ ((s : State) × (es : List Entry) × (stored w ≡ some s) × (s.entries ≡ some es))

  pub open_state_any :
      (w : W)
      → IsReadable w
      → Returns (open_state files hardhat) w (λ o w'. o.0 ≡ state_path files hardhat)
  open_state_any w (inl empty) =
      let (w', opened, _) = open_state_missing w empty in
      record { result = _; world = w'; ran = opened; post = refl }
  open_state_any w (inr (s, es, held, filled)) =
      let (w', opened, _) = open_state_present s es w held filled in
      record { result = _; world = w'; ran = opened; post = refl }

  pub open_state_held :
      (names : List Text) (s : State) (w : W)
      → stored w ≡ some s
      → HasKeys s names
      → Returns
          (open_state files hardhat)
          w
          (λ o w'. (o.0 ≡ state_path files hardhat) × HasKeys o.1 names)
  open_state_held names s w held h =
      let (w', opened, same) = open_state_present s _ w held h.entry.2 in
      record { result = _; world = w'; ran = opened; post = (refl, h) }

  pub get_factories_returns :
      (names : List Text) (w : W)
      → Returns (get_factories hardhat names) w (λ _ w'. stored w' ≡ stored w)
  unfolding get_factories
  get_factories_returns [] w = record { result = tt; world = w; ran = refl; post = refl }
  get_factories_returns (name ∷ names) w =
      let (w₁, first, same) = answers.compiled name w in
      let rest = get_factories_returns names w₁ in
      let ran = rest.ran in
      record { result = tt; world = rest.world; ran = ground arith; post = rest.post ∙ same }

  pub send_returns :
      (i : I) (method : Text) (args : List Arg) (w : W)
      → Returns (hardhat.send i method args) w (λ _ w'. stored w' ≡ stored w)
  send_returns i method args w =
      let (hash, w', sent, same) = answers.sent i method args w in
      record { result = hash; world = w'; ran = sent; post = same }

  pub send_and_wait_returns :
      (i : I) (method : Text) (args : List Arg) (w : W)
      → Returns (send_and_wait hardhat i method args) w (λ _ w'. stored w' ≡ stored w)
  unfolding send_and_wait
  send_and_wait_returns i method args w =
      let (hash, w₁, sent, same) = answers.sent i method args w in
      let (w₂, done, same') = answers.confirmed hash w₁ in
      record { result = tt; world = w₂; ran = ground arith; post = same' ∙ same }

  pub first_signer_returns :
      (w : W) → Returns (first_signer hardhat) w (λ _ w'. stored w' ≡ stored w)
  unfolding first_signer
  first_signer_returns w =
      let (a, others, w', told, same) = answers.signed w in
      record { result = a; world = w'; ran = ground arith; post = same }

  pub deploy_proxy_with_info_answers :
      (name : Text) (args : List Arg) (initializer : Option Text) (w : W)
      → (info : Info I) × (w' : W) × (deploy_proxy_with_info hardhat name args initializer w
          ≡ (ok info, w'))
        × (info.address ≢ [])
        × (stored w' ≡ stored w)
  unfolding deploy_proxy_with_info
  deploy_proxy_with_info_answers name args initializer w =
      let (i, w₁, deployed, same₁) = answers.deploys name args initializer w in
      let (n, w₂, mined, same₂) = answers.mined i w₁ in
      let (a, w₃, told, given, same₃) = answers.addressed i w₂ in
      (
        record { contract = i; address = a; block = n; tx = hardhat.deployment_hash i },
        w₃,
        ground arith,
        given,
        same₃ ∙ same₂ ∙ same₁,
      )

  -- A deployment is made and recorded, and the file holds the new state.
  pub deploy_and_record_returns :
      (names : List Text) (json key name : Text) (args : List Arg) (initializer : Option Text)
      (s : State) (w : W)
      → json ≡ state_path files hardhat
      → HasKeys s names
      → Returns
          (deploy_and_record files hardhat json key name args initializer s)
          w
          (λ r w'. HasKeys r.state (key ∷ names) × (stored w' ≡ some r.state))
  unfolding deploy_and_record record_contract save_state
  deploy_and_record_returns names json key name args initializer s w path keys =
      let h = keys.entry in
      let (info, w₁, deployed, given, _) = deploy_proxy_with_info_answers name args initializer w in
      let entry : Deployed = record {
        address = info.address;
        block = some info.block;
        tx = some info.tx;
      } in
      let s' = put_contract (contract_key key) entry s in
      let (w₂, written, kept) = answers.writes s' w₁ in
      let front = current_entry_front s h.0 h.1 h.2 in
      record {
        result = record { info = info; state = s' };
        world = w₂;
        ran = ground arith;
        post = (HasKeys-cons (resolve-put_contract s h.0 h.1 key entry h.2 given) keys, kept);
      }
