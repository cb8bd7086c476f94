-- ===== src/Deployments/Legacy.antt =====
-- The older format of the file, as `loadState` reads it.
use smart_contracts.Base.{◌≡◌, ◌≢◌, ◌∙◌, refl, none, some, List, [], ◌∷◌, ◌++◌, Text}
use smart_contracts.Script.{ok}
use smart_contracts.Deployments.State.{
  Deployed, Entry, State, only_entries, or_text, get, set, get_from, contract_key, legacy_contracts,
  state_of, current_entry, resolve_contract,
}
use smart_contracts.Deployments.Update.{get-set_same, get-set_other}
use smart_contracts.Deployments.RoundTrip.{resolve_contract_found, current_entry_front}

-- No pair has this key.
unfoldable pub NoKey : Text → List (Text × Text) → Type 0
NoKey key [] = Unit {0}
NoKey key (p ∷ ps) = (key ≢ contract_key p.0) × NoKey key ps

-- What the loop writes for a pair.
abbrev deployed : State → Text → Text → Deployed
deployed found k a = record {
  address = a;
  block = get_from k found.blocks;
  tx = get_from k found.txs;
}

get-legacy_other :
    (found : State) (key : Text) (ps : List (Text × Text)) (cs : List (Text × Deployed))
    → NoKey key ps
    → get key (legacy_contracts found ps cs) ≡ get key cs
unfolding legacy_contracts NoKey
get-legacy_other found key [] cs away = refl
get-legacy_other found key (p ∷ ps) cs away =
    get-legacy_other found key ps (set (contract_key p.0) (deployed found p.0 p.1) cs) away.1
    ∙ get-set_other (contract_key p.0) key (deployed found p.0 p.1) cs away.0

get-legacy :
    (found : State) (k a : Text) (front back : List (Text × Text)) (cs : List (Text × Deployed))
    → NoKey (contract_key k) back
    → get (contract_key k) (legacy_contracts found (front ++ (k, a) ∷ back) cs)
      ≡ some (deployed found k a)
unfolding legacy_contracts
get-legacy found k a [] back cs away =
    get-legacy_other found (contract_key k) back (set (contract_key k) (deployed found k a) cs) away
    ∙ get-set_same (contract_key k) (deployed found k a) cs
get-legacy found k a (p ∷ front) back cs away =
    get-legacy found k a front back (set (contract_key p.0) (deployed found p.0 p.1) cs) away

-- A file of the older format becomes a state with one entry, on which an address that is not empty
-- is found under its key without the suffix, where no later address has the same key.
pub state_of-legacy :
    (found : State) (network now k a : Text) (front back : List (Text × Text))
    → found.entries ≡ none
    → found.addresses ≡ some (front ++ (k, a) ∷ back)
    → NoKey (contract_key k) back
    → a ≢ []
    → (state : State) × (e : Entry) × (state_of found network now ≡ some state)
      × (current_entry state ≡ ok e)
      × (resolve_contract e state (contract_key k) ≡ some a)
unfolding state_of legacy_contracts
state_of-legacy found network now k a front back old listed away full =
    let pairs = front ++ (k, a) ∷ back in
    let e : Entry = record {
      network = or_text found.network network;
      generated_at = or_text found.generated_at now;
      contracts = legacy_contracts found pairs [];
    } in
    let state = only_entries (e ∷ []) in
    (
      state,
      e,
      rw (old, listed) refl,
      current_entry_front state e [] refl,
      resolve_contract_found e state (contract_key k) (deployed found k a)
          (get-legacy found k a front back [] away) full,
    )
