-- ===== src/Deploying/Answers.antt =====
-- A network and a file system on which every call that the deployment scripts make answers.
use smart_contracts.Base.{
  ℕ, ◌≡◌, ◌≢◌, inl, inr, refl, true, false, Bool-cases, Option, none, some, List, [], ◌∷◌, ◌++◌,
  arith, Text, codes, text_eq, text_eq→eq, text_eq_refl,
}
use smart_contracts.Script.{ok}
use smart_contracts.Deployments.State.{
  Deployed, Entry, State, FileApi, contract_key, set, put_contract,
}
use smart_contracts.Deployments.Update.{get-set_same, get-set_other}
use smart_contracts.Deployments.RoundTrip.{
  resolve_contract_found, resolve_contract_agree, current_entry_front,
}
use smart_contracts.Deploying.Api.{Arg, HardhatApi}
use smart_contracts.Deploying.Steps.{resolve}

-- The path of the network's file.
abbrev pub state_path : {W I : Type 0} → FileApi W → HardhatApi W I → Text
state_path files hardhat =
    files.join (files.join files.working_directory (codes "deployments"))
      (hardhat.network_name ++ codes ".json")

-- `stored` is what the network's file holds. Only a write to the file changes it, and JSON reads
-- back what it wrote. An address is not the empty text, and there is a signer.
pub record Answers {W I : Type 0} (files : FileApi W) (hardhat : HardhatApi W I)
    (stored : W → Option State) : Type 0 where
  pub makes_directory :
      (directory : Text) (w : W)
      → (w' : W) × (files.make_directory directory w ≡ (ok tt, w')) × (stored w' ≡ stored w)
  pub missing_file : (w : W) → stored w ≡ none → files.exists (state_path files hardhat) w ≡ false
  pub present_file :
      (w : W) (s : State)
      → stored w ≡ some s
      → (content : Text) × (files.exists (state_path files hardhat) w ≡ true)
        × (files.read_file (state_path files hardhat) w ≡ (ok content, w))
        × (files.parse content ≡ some s)
  pub writes :
      (s : State) (w : W)
      → (w' : W) × (files.write_file (state_path files hardhat) (files.stringify s) w ≡ (ok tt, w'))
        × (stored w' ≡ some s)
  pub compiled :
      (name : Text) (w : W)
      → (w' : W) × (hardhat.get_contract_factory name w ≡ (ok tt, w')) × (stored w' ≡ stored w)
  pub deploys :
      (name : Text) (args : List Arg) (initializer : Option Text) (w : W)
      → (i : I) × (w' : W) × (hardhat.deploy_proxy name args initializer w ≡ (ok i, w'))
        × (stored w' ≡ stored w)
  pub mined :
      (i : I) (w : W)
      → (n : ℕ) × (w' : W) × (hardhat.wait_deployment i w ≡ (ok n, w')) × (stored w' ≡ stored w)
  pub addressed :
      (i : I) (w : W)
      → (a : Text) × (w' : W) × (hardhat.get_address i w ≡ (ok a, w'))
        × (a ≢ [])
        × (stored w' ≡ stored w)
  pub sent :
      (i : I) (method : Text) (args : List Arg) (w : W)
      → (hash : Text) × (w' : W) × (hardhat.send i method args w ≡ (ok hash, w'))
        × (stored w' ≡ stored w)
  pub confirmed :
      (hash : Text) (w : W)
      → (w' : W) × (hardhat.wait_for hash w ≡ (ok tt, w')) × (stored w' ≡ stored w)
  pub signed :
      (w : W)
      → (a : Text) × (others : List Text) × (w' : W) × (hardhat.get_signers w
          ≡ (ok (a ∷ others), w'))
        × (stored w' ≡ stored w)

abbrev pub Resolved : State → Text → Type 0
Resolved state key = (address : Text) × (resolve state key ≡ some address)

abbrev pub HasEntry : State → Type 0
HasEntry state = (e : Entry) × (es : List Entry) × (state.entries ≡ some (e ∷ es))

-- What was found before is found.
abbrev pub Grows : State → State → Type 0
Grows s s' = (key : Text) → Resolved s key → Resolved s' key

-- The state that a deployment under `name` leaves.
pub record Holds (s : State) (name : Text) (s' : State) : Type 0 where
  pub entry : HasEntry s'
  pub found : Resolved s' (contract_key name)
  pub grows : Grows s s'

pub resolve-put_contract :
    (s : State) (e : Entry) (es : List Entry) (name : Text) (d : Deployed)
    → s.entries ≡ some (e ∷ es)
    → d.address ≢ []
    → Holds s name (put_contract (contract_key name) d s)
unfolding put_contract resolve
resolve-put_contract s e es name d filled given =
    let key = contract_key name in
    let s' = put_contract key d s in
    let e' : Entry = record e { contracts = set key d e.contracts } in
    let front : s'.entries ≡ some (e' ∷ es) = rw filled refl in
    let now = current_entry_front s' e' es front in
    let before = current_entry_front s e es filled in
    let same = resolve_contract_found e' s' key d (get-set_same key d e.contracts) given in
    let kept : s'.addresses ≡ s.addresses = rw filled refl in
    record {
      entry = (e', es, front);
      found = (d.address, ground arith);
      grows = λ other old. elim (Bool-cases (text_eq other key)) [
        | inl eq ↦ (d.address, rw (text_eq→eq other key eq) (ground arith))
        | inr differ ↦
            let apart : other ≢ key = λ p. absurd (ground (arith, text_eq_refl key)) in
            let agrees =
              resolve_contract_agree e e' s s' other (get-set_other key other d e.contracts apart)
                kept in
            (old.0, ground (arith, old.1))
      ];
    }
