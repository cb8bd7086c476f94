-- ===== src/Upgrading/Deploys.antt =====
-- The deployments of scripts/manual-upgrade-producers.js.
use smart_contracts.Base.{ℕ, ◌≡◌, ◌⊎◌, refl, inl, inr, none, some, List, [], ◌∷◌, arith, Text}
use smart_contracts.Script.{Outcome-cases, ok}
use smart_contracts.Script.Ends.{NeverExits, Ends}
use smart_contracts.Script.Loop.{each}
use smart_contracts.Web3.{NodeApi}
use smart_contracts.Web3.Gas.{gas_with_buffer}
use smart_contracts.Upgrading.Api.{SetupApi}
use smart_contracts.Upgrading.Upgrade.{producer_abi}
use smart_contracts.Upgrading.Manual.{Config, DeployApi, Deployment, deployment, create, deploy_one}

-- The calls of a deployment, and the build files are there.
pub record DeploysReturn {W : Type 0} (node : NodeApi W) (api : DeployApi W) : Type 0 where
  pub load_returns : (name : Text) → NeverExits (api.load_contract name)
  pub estimate_returns : (bytecode : Text) → NeverExits (api.estimate_deploy bytecode)
  pub price_returns : NeverExits node.get_gas_price
  pub deploy_returns :
      (bytecode : Text) (gas price : ℕ) → NeverExits (api.deploy bytecode gas price)
  pub receipt_returns : (hash : Text) → NeverExits (api.get_transaction_receipt hash)

-- A deployment for the kind, whose address is that of a contract that was created.
abbrev pub Deployed : {W : Type 0} → DeployApi W → Text → Deployment → Type 0
Deployed {W} api kind d =
    (d.kind ≡ kind)
    × ((d.implementation ≡ none)
        ⊎ ((bytecode : Text) × (gas : ℕ) × (price : ℕ) × (address : Text) × (hash : Text) × (w : W)
            × (w' : W) × (api.deploy bytecode gas price w ≡ (ok (address, hash), w'))
            × (d.implementation ≡ some address)))

module _ {W : Type 0} (config : Config) (node : NodeApi W) (setup : SetupApi W) (api : DeployApi W)
    (returns : DeploysReturn node api) where
  create_deployed :
      (kind bytecode : Text) (w : W)
      → Ends (Deployed api kind) (create config node setup api kind bytecode w)
  unfolding create
  create_deployed kind bytecode w =
      let estimated = api.estimate_deploy bytecode w in
      elim (Outcome-cases estimated.0) [
        | inl (n, e) ↦
            let priced = node.get_gas_price estimated.1 in
            elim (Outcome-cases priced.0) [
              | inl (price, e') ↦
                  let gas = gas_with_buffer 15 n in
                  let sent = api.deploy bytecode gas price priced.1 in
                  elim (Outcome-cases sent.0) [
                    | inl (made, e'') ↦
                        let used = api.get_transaction_receipt made.1 sent.1 in
                        elim (Outcome-cases used.0) [
                          | inl (k, told) ↦ inl (
                            deployment kind (some made.0),
                            setup.sleep 30000 used.1,
                            ground arith,
                            (
                              refl,
                              inr (
                                bytecode,
                                gas,
                                price,
                                made.0,
                                made.1,
                                priced.1,
                                sent.1,
                                ground arith,
                                refl,
                              ),
                            ),
                          )
                          | inr (inl (m, failure)) ↦ inr (m, used.1, ground arith)
                          | inr (inr (c, left)) ↦
                              absurd (returns.receipt_returns made.1 sent.1 c left)
                        ]
                    | inr (inl (m, failure)) ↦ inr (m, sent.1, ground arith)
                    | inr (inr (c, left)) ↦
                        absurd (returns.deploy_returns bytecode gas price priced.1 c left)
                  ]
              | inr (inl (m, failure)) ↦ inr (m, priced.1, ground arith)
              | inr (inr (c, left)) ↦ absurd (returns.price_returns estimated.1 c left)
            ]
        | inr (inl (m, failure)) ↦ inr (m, estimated.1, ground arith)
        | inr (inr (c, left)) ↦ absurd (returns.estimate_returns bytecode w c left)
      ]

  deploy_one_deployed :
      (kind : Text) (w : W)
      → (d : Deployment) × (w' : W) × (deploy_one config node setup api kind w ≡ (ok d, w'))
        × Deployed api kind d
  unfolding deploy_one
  deploy_one_deployed kind w =
      let loaded = api.load_contract (producer_abi kind) w in
      elim (Outcome-cases loaded.0) [
        | inl (bytecode, e) ↦ elim (create_deployed kind bytecode loaded.1) [
          | inl (d, w', e', good) ↦ (d, w', ground arith, good)
          | inr (m, w', e') ↦ (deployment kind none, w', ground arith, (refl, inl refl))
        ]
        | inr (inl (m, failure)) ↦ (deployment kind none, loaded.1, ground arith, (refl, inl refl))
        | inr (inr (c, left)) ↦ absurd (returns.load_returns (producer_abi kind) w c left)
      ]

  -- One deployment for each kind, in order.
  pub AllDeployed : List Text → List Deployment → Type 0
  AllDeployed [] [] = Unit {0}
  AllDeployed [] (d ∷ ds) = ⊥
  AllDeployed (k ∷ ks) [] = ⊥
  AllDeployed (k ∷ ks) (d ∷ ds) = Deployed api k d × AllDeployed ks ds

  -- Where library calls return or throw and the build files are there, the deployments never throw:
  -- there is one entry for each kind, in order, and each address is that of a contract that was
  -- created.
  pub each-deploy_one_reports :
      (kinds : List Text) (w : W)
      → (ds : List Deployment) × (w' : W) × (each (deploy_one config node setup api) kinds w
          ≡ (ok ds, w'))
        × AllDeployed kinds ds
  unfolding each AllDeployed
  each-deploy_one_reports [] w = ([], w, refl, tt)
  each-deploy_one_reports (k ∷ ks) w =
      let (d, w₁, first, good) = deploy_one_deployed k w in
      let (ds, w₂, rest, others) = each-deploy_one_reports ks w₁ in
      (d ∷ ds, w₂, ground arith, (good, others))
