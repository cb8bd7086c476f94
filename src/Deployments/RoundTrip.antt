-- ===== src/Deployments/RoundTrip.antt =====
-- `record`, then the file, then `loadState` and `resolveContract`.
use smart_contracts.Base.{ℕ, ◌≡◌, ◌≢◌, refl, true, some, List, [], ◌∷◌, arith, Text}
use smart_contracts.Script.{ok}
use smart_contracts.Deployments.State.{
  Deployed, Entry, State, FileApi, contract_key, get, set, current_entry, legacy_address,
  resolve_contract, put_contract, save_state, record_contract, load_state, state_of,
}
use smart_contracts.Deployments.Update.{text_eq_ne, get-set_same, get-set_other}

-- A file holds what was written to it, and JSON reads back what it wrote, on this state.
pub record KeepsFile {W : Type 0} (files : FileApi W) (json : Text) (state : State) : Type 0 where
  pub writes :
      (w : W)
      → (w' : W) × (files.write_file json (files.stringify state) w ≡ (ok tt, w'))
        × (files.exists json w' ≡ true)
        × (files.read_file json w' ≡ (ok (files.stringify state), w'))
  pub parses : files.parse (files.stringify state) ≡ some state

-- A contract with an address is found on the entry.
pub resolve_contract_found :
    (e : Entry) (state : State) (key : Text) (d : Deployed)
    → get key e.contracts ≡ some d
    → d.address ≢ []
    → resolve_contract e state key ≡ some d.address
unfolding resolve_contract
resolve_contract_found e state key d found full =
    let given = text_eq_ne d.address [] full in ground arith

-- A lookup reads one contract of the entry, and the addresses of the older format.
pub resolve_contract_agree :
    (e e' : Entry) (state state' : State) (key : Text)
    → get key e'.contracts ≡ get key e.contracts
    → state'.addresses ≡ state.addresses
    → resolve_contract e' state' key ≡ resolve_contract e state key
unfolding resolve_contract legacy_address
resolve_contract_agree e e' state state' key same old = ground arith

pub current_entry_front :
    (state : State) (e : Entry) (es : List Entry)
    → state.entries ≡ some (e ∷ es)
    → current_entry state ≡ ok e
unfolding current_entry
current_entry_front state e es filled = rw filled refl

module _ {W : Type 0} (files : FileApi W) where
  -- A written state is the one that is loaded.
  save-load :
      (json network : Text) (state : State) (es : List Entry) (w : W)
      → KeepsFile files json state
      → state.entries ≡ some es
      → (w' : W) × (save_state files json state w ≡ (ok tt, w'))
        × (load_state files json network w' ≡ (ok state, w'))
  unfolding save_state load_state state_of
  save-load json network state es w keeps filled =
      let (w', written, there, read) = keeps.writes w in
      let parsed = keeps.parses in (w', written, rw there (ground arith))

  record_contract_saves :
      (json name address tx : Text) (block : ℕ) (state : State) (e : Entry) (w w' : W)
      → current_entry state ≡ ok e
      → let deployed : Deployed = record { address = address; block = some block; tx = some tx } in
        let updated = put_contract (contract_key name) deployed state in
        save_state files json updated w ≡ (ok tt, w')
        → record_contract files json (some state) name address block tx w ≡ (ok updated, w')
  unfolding record_contract
  record_contract_saves json name address tx block state e w w' front saved = ground arith

  -- Where a run has an entry, recording a contract succeeds and the file holds the new state. There
  -- the contract's address is found under its key, other keys are resolved as before, and the
  -- entries of earlier runs stay.
  pub record-load-resolve :
      (json network name address tx : Text) (block : ℕ) (state : State) (e : Entry)
      (es : List Entry) (w : W)
      → state.entries ≡ some (e ∷ es)
      → address ≢ []
      → let deployed : Deployed = record { address = address; block = some block; tx = some tx } in
        let updated = put_contract (contract_key name) deployed state in
        KeepsFile files json updated
        → (w' : W) × (e' : Entry) × (record_contract files json (some state) name address block tx w
            ≡ (ok updated, w'))
          × (load_state files json network w' ≡ (ok updated, w'))
          × (updated.entries ≡ some (e' ∷ es))
          × (resolve_contract e' updated (contract_key name) ≡ some address)
          × ((key : Text)
              → key ≢ contract_key name
              → resolve_contract e' updated key ≡ resolve_contract e state key)
  unfolding put_contract
  record-load-resolve json network name address tx block state e es w filled given keeps =
      let key = contract_key name in
      let deployed : Deployed = record { address = address; block = some block; tx = some tx } in
      let updated = put_contract key deployed state in
      let e' : Entry = record e { contracts = set key deployed e.contracts } in
      let front : updated.entries ≡ some (e' ∷ es) = rw filled refl in
      let (w', saved, loaded) = save-load json network updated (e' ∷ es) w keeps front in
      let found = get-set_same key deployed e.contracts in
      let kept : updated.addresses ≡ state.addresses = rw filled refl in
      (
        w',
        e',
        record_contract_saves json name address tx block state e w w'
            (current_entry_front state e es filled) saved,
        loaded,
        front,
        resolve_contract_found e' updated key deployed found given,
        λ other differ.
            resolve_contract_agree e e' state updated other
              (get-set_other key other deployed e.contracts differ) kept,
      )
