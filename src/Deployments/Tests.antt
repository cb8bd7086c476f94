-- ===== src/Deployments/Tests.antt =====
-- A contract that is recorded in the second run of a network.
use smart_contracts.Base.{◌≡◌, ◌≢◌, refl, true, false, Option, none, some, [], ◌∷◌, Text, codes}
use smart_contracts.Script.{ok, err}
use smart_contracts.Deployments.State.{
  Deployed, Entry, State, FileApi, only_entries, state_of, current_entry, contract_key,
  put_contract, record_contract, load_state, resolve_contract,
}
use smart_contracts.Deployments.Legacy.{NoKey, state_of-legacy}
use smart_contracts.Deployments.RoundTrip.{KeepsFile, record-load-resolve}

abbrev first_run : Entry
first_run = record { network = codes "tn"; generated_at = codes "1"; contracts = [] }

abbrev second_run : Entry
second_run = record { network = codes "tn"; generated_at = codes "2"; contracts = [] }

abbrev state : State
state = only_entries (second_run ∷ first_run ∷ [])

abbrev governance : Deployed
governance = record { address = codes "0x09"; block = some 7; tx = some (codes "0xaa") }

abbrev recorded : State
recorded = put_contract (contract_key (codes "GOVERNANCE_ADDRESS")) governance state

-- A file system with one file, and a codec that knows one state.
abbrev files : FileApi (Option Text)
files = record {
  exists = λ path w. elim w [ none ↦ false | some t ↦ true ];
  make_directory = λ path w. (ok tt, w);
  read_file = λ path w. elim w [ none ↦ (err [], none) | some t ↦ (ok t, some t) ];
  write_file = λ path content w. (ok tt, some content);
  now = λ w. codes "3";
  join = λ a b. b;
  working_directory = codes "/";
  parse = λ t. some recorded;
  stringify = λ s. codes "json";
}

files_keep : KeepsFile files (codes "tn.json") recorded
files_keep = record { writes = λ w. (some (codes "json"), refl, refl, refl); parses = refl }

given : codes "0x09" ≢ []
unfolding codes
given e = cc

record-load-resolve_example :
    (w' : Option Text) × (e' : Entry) × (record_contract files
        (codes "tn.json")
        (some state)
        (codes "GOVERNANCE_ADDRESS")
        (codes "0x09")
        7
        (codes "0xaa")
        none
      ≡ (ok recorded, w'))
    × (load_state files (codes "tn.json") (codes "tn") w' ≡ (ok recorded, w'))
    × (recorded.entries ≡ some (e' ∷ first_run ∷ []))
    × (resolve_contract e' recorded (contract_key (codes "GOVERNANCE_ADDRESS"))
        ≡ some (codes "0x09"))
    × ((key : Text)
        → key ≢ contract_key (codes "GOVERNANCE_ADDRESS")
        → resolve_contract e' recorded key ≡ resolve_contract second_run state key)
record-load-resolve_example =
    record-load-resolve files (codes "tn.json") (codes "tn") (codes "GOVERNANCE_ADDRESS")
      (codes "0x09") (codes "0xaa") 7 state second_run (first_run ∷ []) none refl given files_keep

abbrev old_file : State
old_file = record {
  entries = none;
  addresses =
      some ((codes "DAO_ADDRESS", codes "0x01") ∷ (codes "MULSIG_ADDRESS", codes "0x09") ∷ []);
  blocks = none;
  txs = none;
  network = some (codes "tn");
  generated_at = none;
}

nothing_behind : NoKey (contract_key (codes "MULSIG_ADDRESS")) []
unfolding NoKey
nothing_behind = tt

state_of-legacy_example :
    (s : State) × (e : Entry) × (state_of old_file (codes "tn") (codes "3") ≡ some s)
    × (current_entry s ≡ ok e)
    × (resolve_contract e s (contract_key (codes "MULSIG_ADDRESS")) ≡ some (codes "0x09"))
state_of-legacy_example =
    state_of-legacy old_file (codes "tn") (codes "3") (codes "MULSIG_ADDRESS") (codes "0x09")
      ((codes "DAO_ADDRESS", codes "0x01") ∷ []) [] refl refl nothing_behind given
