-- ===== src/Upgrading/Tests.antt =====
-- Runs of the maintenance scripts on two proxies.
use smart_contracts.Base.{
  ◌≡◌, ◌≢◌, refl, true, inl, inr, Bool-cases, List, [], ◌∷◌, map, if◌then◌else◌, arith, Text, codes,
  text_eq, text_eq_refl, text_eq→eq,
}
use smart_contracts.Script.{ok, err}
use smart_contracts.Script.Loop.{each}
use smart_contracts.Web3.Samples.{receipt, node}
use smart_contracts.Upgrading.Api.{Report, SetupApi, ProducerApi, ProxyAdminApi}
use smart_contracts.Upgrading.Fix
use smart_contracts.Upgrading.Upgrade
use smart_contracts.Upgrading.Manual
use smart_contracts.Upgrading.Manual.{DeployApi}
use smart_contracts.Upgrading.Deploys.{DeploysReturn, AllDeployed, each-deploy_one_reports}
use smart_contracts.Upgrading.Results.{CallsReturn, each-fix_one_reports}
use smart_contracts.Upgrading.Reaches.{
  HonestAdmin, Distinct, Elsewhere, UpToDate, check_and_upgrade_reaches,
}

-- The world is the implementation of every proxy.
abbrev World : Type 0
World = Text → Text

abbrev setup : SetupApi World
setup = record {
  load_abi = λ name w. (ok tt, w);
  add_account = λ key w. (ok tt, w);
  foundation_manager = λ w. (ok (codes "FM"), w);
  has_role = λ role a w. (ok true, w);
  sleep = λ ms w. w;
}

-- OIL has a producer that reads fail on, and every other kind fails.
abbrev producers : ProducerApi World
producers = record {
  producer_of = λ kind w.
      if text_eq kind (codes "OIL")
      then (ok (codes "0x01"), w)
      else (err (codes "treasure not found"), w);
  get_mul_sig_contract = λ p w. (ok (codes "0x02"), w);
  estimate_set_mul_sig_contract = λ p t w. (ok 40000, w);
  set_mul_sig_contract = λ p t gas price w. (ok receipt, w);
}

abbrev fixing : Fix.Config
fixing = record {
  mulsig_address = codes "0x0a";
  foundation_manager_address = codes "0x0b";
  foundation_manager_private_key = codes "key";
}

producers_return : CallsReturn node producers
producers_return = record {
  producer_returns = λ kind w c e. elim (Bool-cases (text_eq kind (codes "OIL"))) [
    | inl oil ↦ absurd (ground arith)
    | inr other ↦ absurd (ground arith)
  ];
  get_returns = λ p w c e. absurd (ground arith);
  estimate_returns = λ p t w c e. absurd (ground arith);
  price_returns = λ w c e. absurd (ground arith);
  set_returns = λ p t gas price w c e. absurd (ground arith);
}

each-fix_one_reports_example :
    (results : List Report) × (w' : World) × (each
        (Fix.fix_one fixing node setup producers)
        Fix.treasure_kinds
        (λ p. [])
      ≡ (ok results, w'))
    × (map (λ (r : Report). r.kind) results ≡ Fix.treasure_kinds)
each-fix_one_reports_example =
    each-fix_one_reports fixing node setup producers producers_return Fix.treasure_kinds (λ p. [])

abbrev put : Text → Text → World → World
put p i w q = if text_eq q p then i else w q

abbrev proxy_admin : ProxyAdminApi World
proxy_admin = record {
  owner = λ w. (ok (codes "0x0b"), w);
  get_proxy_implementation = λ p w. (ok (w p), w);
  estimate_upgrade = λ p i w. (ok 60000, w);
  upgrade = λ p i gas price w. (ok receipt, put p i w);
}

put_other : (p i : Text) (w : World) (q : Text) → q ≢ p → put p i w q ≡ w q
put_other p i w q other = elim (Bool-cases (text_eq q p)) [
  | inl same ↦ absurd (other (text_eq→eq q p same))
  | inr no_match ↦ rw no_match refl
]

honest : HonestAdmin node setup proxy_admin (λ w. w)
honest = record {
  reads = λ p w. refl;
  network = λ w. (5570, refl);
  estimates = λ p i w. (60000, refl);
  prices = λ w. (1, refl);
  upgrades =
      λ p i gas price w. (receipt, put p i w, refl, rw (text_eq_refl p) refl, put_other p i w);
  sleeps = λ ms w q. refl;
}

abbrev entries : List Upgrade.Entry
entries =
    (record { kind = codes "OIL"; proxy = codes "0x01"; new_implementation = codes "0x11" })
    ∷ (record { kind = codes "GAS"; proxy = codes "0x0102"; new_implementation = codes "0x12" })
    ∷ []

abbrev upgrading : Upgrade.Config
upgrading = record {
  proxy_admin_address = codes "0x0c";
  foundation_manager_address = codes "0x0b";
  foundation_manager_private_key = codes "key";
  upgrades = entries;
}

entries-Distinct : Distinct entries
unfolding Distinct Elsewhere codes
entries-Distinct = ((λ e. cc, tt), (tt, tt))

check_and_upgrade_reaches_example :
    (rs : List Report) × (w' : World) × (Upgrade.check_and_upgrade upgrading node setup proxy_admin
        producers entries
        (λ p. [])
      ≡ (ok rs, w'))
    × UpToDate w' entries
    × ((q : Text) → Elsewhere q entries → w' q ≡ [])
check_and_upgrade_reaches_example =
    check_and_upgrade_reaches upgrading node setup proxy_admin producers (λ w. w) honest entries
      (λ p. []) entries-Distinct

-- The build file of one contract is broken, and the node refuses its creation.
abbrev creating : DeployApi World
creating = record {
  load_contract = λ name w. (ok name, w);
  get_code = λ a w. (ok (codes "0x6001"), w);
  get_storage_at = λ a slot w. (ok (codes "0x00"), w);
  estimate_deploy = λ bytecode w. (ok 900000, w);
  deploy = λ bytecode gas price w.
      if text_eq bytecode (codes "GasProducer")
      then (err (codes "reverted"), w)
      else (ok (codes "0x21", codes "0xaa"), w);
  get_transaction_receipt = λ hash w. (ok 800000, w);
}

creating_returns : DeploysReturn node creating
creating_returns = record {
  load_returns = λ name w c e. absurd (ground arith);
  estimate_returns = λ bytecode w c e. absurd (ground arith);
  price_returns = λ w c e. absurd (ground arith);
  deploy_returns = λ bytecode gas price w c e.
      elim (Bool-cases (text_eq bytecode (codes "GasProducer"))) [
        | inl gas_contract ↦ absurd (ground arith)
        | inr other ↦ absurd (ground arith)
      ];
  receipt_returns = λ hash w c e. absurd (ground arith);
}

abbrev deploying : Manual.Config
deploying = record {
  foundation_manager_address = codes "0x0b";
  foundation_manager_private_key = codes "key";
  producer_addresses = (codes "OIL", codes "0x01") ∷ (codes "GAS", codes "0x02") ∷ [];
}

each-deploy_one_reports_example :
    (ds : List Manual.Deployment) × (w' : World) × (each
        (Manual.deploy_one deploying node setup creating)
        (codes "OIL" ∷ codes "GAS" ∷ [])
        (λ p. [])
      ≡ (ok ds, w'))
    × AllDeployed deploying node setup creating creating_returns (codes "OIL" ∷ codes "GAS" ∷ []) ds
each-deploy_one_reports_example =
    each-deploy_one_reports deploying node setup creating creating_returns
      (codes "OIL" ∷ codes "GAS" ∷ []) (λ p. [])
