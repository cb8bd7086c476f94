-- ===== src/Deployments/State.antt =====
-- scripts/deploy/utils.js: the file deployments/<network>.json, its state, and the lookup of an
-- address. An object with keys is a list of pairs in the order of insertion.
use smart_contracts.Base.{
  ℕ, ◌-◌, Bool, not, ◌&&◌, Option, none, some, List, [], ◌∷◌, ◌++◌, leb, if◌then◌else◌, Text, codes,
  text_eq, length, take, drop,
}
use smart_contracts.Script.{Outcome, ok, err, Script, pure, lift, try_catch, or_throw, ◌>>=◌, ◌>>◌}

-- `obj[key]`
unfoldable pub get : {A : Type 0} → Text → List (Text × A) → Option A
get key [] = none
get key (p ∷ ps) = let rest = get key ps in if text_eq key p.0 then some p.1 else rest

-- `obj[key] = a`: a key that is there keeps its place.
unfoldable pub set : {A : Type 0} → Text → A → List (Text × A) → List (Text × A)
set key a [] = (key, a) ∷ []
set key a (p ∷ ps) = let rest = set key a ps in if text_eq key p.0 then (p.0, a) ∷ ps else p ∷ rest

-- `{ address, block, tx }`
pub record Deployed : Type 0 where
  pub address : Text
  pub block : Option ℕ
  pub tx : Option Text

pub record Entry : Type 0 where
  pub network : Text
  pub generated_at : Text
  pub contracts : List (Text × Deployed)

-- The state, and the data of a file, which may be of the older format: `none` is an absent field.
pub record State : Type 0 where
  pub entries : Option (List Entry)
  pub addresses : Option (List (Text × Text))
  pub blocks : Option (List (Text × ℕ))
  pub txs : Option (List (Text × Text))
  pub network : Option Text
  pub generated_at : Option Text

-- `{ entries }`
abbrev pub only_entries : List Entry → State
only_entries es = record {
  entries = some es;
  addresses = none;
  blocks = none;
  txs = none;
  network = none;
  generated_at = none;
}

-- The file system, the clock, and JSON.
pub record FileApi (W : Type 0) : Type 0 where
  pub exists : Text → W → Bool
  pub make_directory : Text → Script W (Unit {0})
  pub read_file : Text → Script W Text
  pub write_file : Text → Text → Script W (Unit {0})
  -- `new Date().toISOString()`
  pub now : W → Text
  -- `path.join`
  pub join : Text → Text → Text
  -- `process.cwd()`
  pub working_directory : Text
  pub parse : Text → Option State
  pub stringify : State → Text

-- `a || b` for a text that may be absent.
abbrev pub or_text : Option Text → Text → Text
or_text none b = b
or_text (some a) b = if text_eq a [] then b else a

-- `name.endsWith('_ADDRESS') ? name.replace(/_ADDRESS$/, '') : name`
unfoldable pub contract_key : Text → Text
contract_key name =
    if leb 8 (length name) && text_eq (drop (length name - 8) name) (codes "_ADDRESS")
    then take (length name - 8) name
    else name

abbrev pub get_from : {A : Type 0} → Text → Option (List (Text × A)) → Option A
get_from key none = none
get_from key (some ps) = get key ps

-- The loop over the addresses of the older format.
unfoldable pub legacy_contracts :
    State → List (Text × Text) → List (Text × Deployed) → List (Text × Deployed)
legacy_contracts legacy [] contracts = contracts
legacy_contracts legacy (p ∷ ps) contracts = legacy_contracts legacy ps (
    set (contract_key p.0)
      (record { address = p.1; block = get_from p.0 legacy.blocks; tx = get_from p.0 legacy.txs })
      contracts)

-- The state that the data of a file stand for; `none` falls through to the default.
unfoldable pub state_of : State → Text → Text → Option State
state_of found network now = elim found.entries [
  | some es ↦ some found
  | none ↦ elim found.addresses [
    | none ↦ none
    | some pairs ↦ some (
        only_entries (
          record {
            network = or_text found.network network;
            generated_at = or_text found.generated_at now;
            contracts = legacy_contracts found pairs [];
          }
          ∷ []))
  ]
]

abbrev pub or_state : Option State → State
or_state none = only_entries []
or_state (some s) = s

module _ {W : Type 0} (files : FileApi W) where
  unfoldable pub ensure_directory : Text → Script W (Unit {0})
  ensure_directory directory w =
      if files.exists directory w then (ok tt, w) else files.make_directory directory w

  -- The path of the network's file; its directory is made where it is missing.
  unfoldable pub get_paths : Text → Script W Text
  get_paths network = do
    let directory = files.join files.working_directory (codes "deployments")
    ensure_directory directory
    pure (files.join directory (network ++ codes ".json"))

  -- A file that cannot be read or parsed counts as no file.
  unfoldable pub load_state : Text → Text → Script W State
  load_state json network w =
      if files.exists json w
      then (try_catch
            (do
              content ← files.read_file json
              found ← or_throw (files.parse content) []
              λ w'. (ok (or_state (state_of found network (files.now w'))), w'))
            (λ _. pure (only_entries [])))
          w
      else (ok (only_entries []), w)

  unfoldable pub save_state : Text → State → Script W (Unit {0})
  save_state json state = files.write_file json (files.stringify state)

  -- `unshift` puts the new entry in front.
  unfoldable pub start_new_entry : State → Text → Script W State
  start_new_entry state network w =
      let entry : Entry = record {
        network = network;
        generated_at = files.now w;
        contracts = [];
      } in
      (
        ok (record state {
          entries = some (entry ∷ elim state.entries [ none ↦ [] | some es ↦ es ]);
        }),
        w,
      )

unfoldable pub current_entry : State → Outcome Entry
current_entry state = elim state.entries [
  | none ↦ err (codes "No deployment entry found; start a new run first.")
  | some es ↦ elim es [
    | [] ↦ err (codes "No deployment entry found; start a new run first.")
    | e ∷ _ ↦ ok e
  ]
]

-- `state.addresses[key]`, then `state.addresses[`${key}_ADDRESS`]`; an empty text does not count.
unfoldable pub legacy_address : Text → State → Option Text
legacy_address key state =
    let plain = or_text (get_from key state.addresses) [] in
    let suffixed = or_text (get_from (key ++ codes "_ADDRESS") state.addresses) [] in
    if not (text_eq plain [])
    then some plain
    else if not (text_eq suffixed [])
    then some suffixed
    else none

unfoldable pub resolve_contract : Entry → State → Text → Option Text
resolve_contract entry state key = elim (get key entry.contracts) [
  | none ↦ legacy_address key state
  | some d ↦ if text_eq d.address [] then legacy_address key state else some d.address
]

-- `entry.contracts[key] = …` on the first entry, which the state holds.
unfoldable pub put_contract : Text → Deployed → State → State
put_contract key d state = elim state.entries [
  | none ↦ state
  | some es ↦ elim es [
    | [] ↦ state
    | e ∷ rest ↦ record state {
      entries = some (record e { contracts = set key d e.contracts } ∷ rest);
    }
  ]
]

module _ {W : Type 0} (files : FileApi W) where
  -- `record`: with no state the state is empty, and the entry is missing.
  unfoldable pub record_contract : Text → Option State → Text → Text → ℕ → Text → Script W State
  record_contract json given name address block tx = do
    let state = or_state given
    lift (current_entry state)
    let deployed : Deployed = record { address = address; block = some block; tx = some tx }
    let updated = put_contract (contract_key name) deployed state
    save_state files json updated
    pure updated
