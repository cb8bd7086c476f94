-- ===== src/Deploying/Producers.antt =====
-- scripts/deploy/producers.js. The attached MulSig, Roles and Oracle are not used there.
use smart_contracts.Base.{none, some, List, [], ◌∷◌, Text, codes}
use smart_contracts.Script.{Script, pure}
use smart_contracts.Script.Chain.{◌>>=◌, ◌>>◌}
use smart_contracts.Deployments.State.{State, FileApi}
use smart_contracts.Deploying.Api.{Arg, text, texts, arg_of, HardhatApi}
use smart_contracts.Deploying.Steps.{
  Info, resolve, open_state, require_entries, require_all, get_factories, deploy_and_record,
  exit_on_error,
}

abbrev pub producers_contracts : List Text
producers_contracts =
    codes "MulSig"
    ∷ codes "Roles"
    ∷ codes "Oracle"
    ∷ codes "Governance"
    ∷ codes "TAT"
    ∷ codes "OilProducer"
    ∷ codes "GasProducer"
    ∷ codes "EthProducer"
    ∷ codes "BtcProducer"
    ∷ codes "OilData"
    ∷ codes "GasData"
    ∷ codes "EthData"
    ∷ codes "BtcData"
    ∷ []

abbrev pub producers_required : List Text
producers_required = codes "MULSIG" ∷ codes "ROLES" ∷ codes "PARAMETER_INFO" ∷ codes "ORACLE" ∷ []

-- The Producer and the Data contract of one kind, and the state that both are recorded in.
pub record Pair (I : Type 0) : Type 0 where
  pub producer : Info I
  pub data_contract : Info I
  pub state : State

module _ {W I : Type 0} (files : FileApi W) (hardhat : HardhatApi W I) where
  -- The two deployments of one kind, under their keys.
  unfoldable pub deploy_pair : Text → Text → Text → Text → Text → State → Script W (Pair I)
  deploy_pair json producer_key producer_name data_key data_name state = do
    producer ← deploy_and_record files hardhat json producer_key producer_name [] none state
    data_contract ← deploy_and_record files hardhat json data_key data_name [] none producer.state
    pure (record {
      producer = producer.info;
      data_contract = data_contract.info;
      state = data_contract.state;
    })

  -- The two calls of `initialize` of one kind, which are sent and not waited for.
  unfoldable pub initialize_pair : Text → Text → State → Pair I → Script W (Unit {0})
  initialize_pair kind tat state pair = do
    hardhat.send pair.producer.contract (codes "initialize") (
        arg_of (resolve state (codes "MULSIG"))
        ∷ arg_of (resolve state (codes "ROLES"))
        ∷ text kind
        ∷ text pair.data_contract.address
        ∷ texts []
        ∷ texts []
        ∷ [])
    hardhat.send pair.data_contract.contract (codes "initialize") (
        text kind
        ∷ arg_of (resolve state (codes "ORACLE"))
        ∷ arg_of (resolve state (codes "ROLES"))
        ∷ arg_of (resolve state (codes "PARAMETER_INFO"))
        ∷ text pair.producer.address
        ∷ text tat
        ∷ [])
    pure tt

  -- `govArgs`
  unfoldable pub governance_args : State → Pair I → Pair I → Pair I → Pair I → List Arg
  governance_args state oil gas eth btc =
      arg_of (resolve state (codes "DAO"))
      ∷ arg_of (resolve state (codes "MULSIG"))
      ∷ arg_of (resolve state (codes "ROLES"))
      ∷ arg_of (resolve state (codes "PARAMETER_INFO"))
      ∷ texts (codes "OIL" ∷ codes "GAS" ∷ codes "ETH" ∷ codes "BTC" ∷ [])
      ∷ texts (
          oil.producer.address ∷ gas.producer.address ∷ eth.producer.address ∷ btc.producer.address
          ∷ [])
      ∷ texts (
          oil.data_contract.address ∷ gas.data_contract.address ∷ eth.data_contract.address
          ∷ btc.data_contract.address ∷ [])
      ∷ []

  unfoldable pub deploy_producers : Script W State
  deploy_producers = do
    opened ← open_state files hardhat
    let json = opened.0
    require_entries (codes "No deployment entry; run base first.") opened.1
    get_factories hardhat producers_contracts
    require_all (codes "base step completed") producers_required opened.1
    oil ←
        deploy_pair json (codes "OIL_PRODUCER") (codes "OilProducer") (codes "OIL_DATA")
          (codes "OilData") opened.1
    gas ←
        deploy_pair json (codes "GAS_PRODUCER") (codes "GasProducer") (codes "GAS_DATA")
          (codes "GasData") oil.state
    eth ←
        deploy_pair json (codes "ETH_PRODUCER") (codes "EthProducer") (codes "ETH_DATA")
          (codes "EthData") gas.state
    btc ←
        deploy_pair json (codes "BTC_PRODUCER") (codes "BtcProducer") (codes "BTC_DATA")
          (codes "BtcData") eth.state
    governance ←
        deploy_and_record files hardhat json (codes "GOVERNANCE") (codes "Governance")
          (governance_args btc.state oil gas eth btc) (some (codes "initialize")) btc.state
    tat ←
        deploy_and_record files hardhat json (codes "TAT") (codes "TAT")
          (text (codes "Rep") ∷ text (codes "REP") ∷ text governance.info.address ∷ [])
          (some (codes "initialize")) governance.state
    initialize_pair (codes "OIL") tat.info.address tat.state oil
    initialize_pair (codes "GAS") tat.info.address tat.state gas
    initialize_pair (codes "ETH") tat.info.address tat.state eth
    initialize_pair (codes "BTC") tat.info.address tat.state btc
    pure tat.state

  unfoldable pub producers_script : Script W State
  producers_script = exit_on_error deploy_producers
