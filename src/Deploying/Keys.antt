-- ===== src/Deploying/Keys.antt =====
-- The keys that a state of the deployments has.
use smart_contracts.Base.{
  ◌≡◌, inl, inr, true, false, Bool-cases, List, [], ◌∷◌, map, arith, Text, Bool, ◌&&◌, ◌||◌,
  text_eq, text_eq→eq,
}
use smart_contracts.Deployments.State.{State, contract_key}
use smart_contracts.Deploying.Answers.{Resolved, HasEntry, Grows, Holds}

-- Every key of the list is found.
unfoldable pub AllResolved : State → List Text → Type 0
AllResolved s [] = Unit {0}
AllResolved s (key ∷ keys) = Resolved s key × AllResolved s keys

AllResolved-Grows :
    (s s' : State) (keys : List Text) → Grows s s' → AllResolved s keys → AllResolved s' keys
unfolding AllResolved
AllResolved-Grows s s' [] grows h = tt
AllResolved-Grows s s' (key ∷ keys) grows h = (grows key h.0, AllResolved-Grows s s' keys grows h.1)

-- The state has an entry, and every key under which one of these names is recorded is found.
pub record HasKeys (s : State) (names : List Text) : Type 0 where
  pub entry : HasEntry s
  pub found : AllResolved s (map contract_key names)

pub HasKeys-nil : {s : State} → HasEntry s → HasKeys s []
unfolding AllResolved
HasKeys-nil h = record { entry = h; found = tt }

-- A deployment adds its name to those that are recorded.
pub HasKeys-cons :
    {s s' : State} {name : Text} {names : List Text}
    → Holds s name s'
    → HasKeys s names
    → HasKeys s' (name ∷ names)
unfolding AllResolved
HasKeys-cons {s} {s'} {name} {names} h keys = record {
  entry = h.entry;
  found = (h.found, AllResolved-Grows s s' (map contract_key names) h.grows keys.found);
}

unfoldable pub has_key : Text → List Text → Bool
has_key key [] = false
has_key key (k ∷ ks) = text_eq key k || has_key key ks

-- Every key of the second list is in the first.
unfoldable pub covers : List Text → List Text → Bool
unfolding has_key text_eq
covers keys [] = true
covers keys (k ∷ ks) = has_key k keys && covers keys ks

pub Resolved-has_key :
    (s : State) (key : Text) (keys : List Text)
    → AllResolved s keys
    → has_key key keys ≡ true
    → Resolved s key
unfolding AllResolved has_key
Resolved-has_key s key [] found h = cc
Resolved-has_key s key (k ∷ ks) found h = elim (Bool-cases (text_eq key k)) [
  | inl same ↦ rw (text_eq→eq key k same) found.0
  | inr other ↦ Resolved-has_key s key ks found.1 (ground arith)
]

pub AllResolved-covers :
    (s : State) (keys required : List Text)
    → AllResolved s keys
    → covers keys required ≡ true
    → AllResolved s required
unfolding AllResolved covers
AllResolved-covers s keys [] found h = tt
AllResolved-covers s keys (k ∷ ks) found h = elim (Bool-cases (has_key k keys)) [
  | inl there ↦
      (Resolved-has_key s k keys found there, AllResolved-covers s keys ks found (ground arith))
  | inr absent ↦ absurd (ground arith)
]

-- What is recorded is found under every key that it covers.
pub HasKeys-covers :
    {s : State} {names : List Text} (required : List Text)
    → HasKeys s names
    → covers (map contract_key names) required ≡ true
    → AllResolved s required
HasKeys-covers {s} {names} required h c =
    AllResolved-covers s (map contract_key names) required h.found c
