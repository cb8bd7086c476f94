-- ===== src/Diagnosing/Debug.antt =====
-- scripts/debug-proposal-data.js: the treasures, the events and the storage of a proposal, and a
-- call of the Producer.
use smart_contracts.Base.{
  ℕ, ◌+◌, Bool, false, ◌||◌, ◌==◌, Option, none, some, List, [], ◌∷◌, if◌then◌else◌, Text, codes,
  text_eq,
}
use smart_contracts.Script.{Outcome, Script, pure, exit_with, try_catch, lift, ◌>>=◌, ◌>>◌}
use smart_contracts.Script.Loop.{each}
use smart_contracts.Kms.Hex.{decimal}
use smart_contracts.Signing.TxHash.{includes}
use smart_contracts.Deployments.State.{get}
use smart_contracts.Proposing.Check.{indices}
use smart_contracts.Upgrading.Api.{zero_address}
use smart_contracts.Upgrading.Fix.{treasure_kinds}
use smart_contracts.Diagnosing.Api.{ReadApi, address_of_word}
use smart_contracts.Diagnosing.Verify.{empty_word, test_payee, is_absent}

-- An event of the multisig contract, with its `returnValues`.
pub record Event : Type 0 where
  pub name : Text
  pub block : ℕ
  pub transaction_hash : Text
  pub return_values : Option (List (Text × Text))

pub record DebugApi (W : Type 0) : Type 0 where
  -- both components of `getTreasureByKind(kind)`
  pub get_treasure_by_kind : Text → Script W (Text × Text)
  -- `getPastEvents('AllEvents', …)` from the first block on
  pub past_events : Script W (List Event)
  -- `soliditySha3` of two words
  pub solidity_sha3 : ℕ → ℕ → Script W ℕ
  -- a slot of the multisig contract, whose number fits its word
  pub get_storage_at : ℕ → Script W Text
  -- the word as a number
  pub to_number : Text → Outcome ℕ
  -- whether the ABI of Producer has `registerDAppConnect`, and a call of it by the executor
  pub has_register : Bool
  pub call_register : Text → Text → Text → Script W (Unit {0})

-- What is logged of a slot.
pub data SlotReport : Type 0 where
  empty : SlotReport
  word : Text → SlotReport
  address : Text → Text → SlotReport
  number : Text → ℕ → SlotReport
  unreadable : SlotReport

-- The call of the Producer of oil.
pub data Registration : Type 0 where
  no_producer : Registration
  no_function : Registration
  unexpected : Registration
  expected : Registration
  refused : Text → Registration
  failed : Text → Registration

-- An absent list is one that could not be read.
pub record Debugged : Type 0 where
  pub treasures : List (Option (Text × Text))
  pub events : Option (List Event)
  pub slots : Option (List SlotReport)
  pub registration : Registration
  pub oil_is_zero : Option Bool

-- `values.proposalId === id || values.id === id`
unfoldable pub value_is : Text → Text → List (Text × Text) → Bool
value_is name id values = elim (get name values) [ none ↦ false | some v ↦ text_eq v id ]

unfoldable pub is_of_proposal : Text → Event → Bool
is_of_proposal id e = elim e.return_values [
  | none ↦ false
  | some values ↦ value_is (codes "proposalId") id values || value_is (codes "id") id values
]

unfoldable pub events_of : Text → List Event → List Event
events_of id [] = []
events_of id (e ∷ es) = let rest = events_of id es in if is_of_proposal id e then e ∷ rest else rest

module _ {W : Type 0} (proposal_id : ℕ) (read : ReadApi W) (api : DebugApi W) where
  unfoldable pub read_treasure : Text → Script W (Option (Text × Text))
  read_treasure kind =
      try_catch (api.get_treasure_by_kind kind >>= λ t. pure (some t)) (λ _. pure none)

  unfoldable pub read_events : Script W (Option (List Event))
  read_events =
      try_catch (api.past_events >>= λ es. pure (some (events_of (decimal proposal_id) es)))
        (λ _. pure none)

  -- The slot 0 as an address, the slot 5 as a number.
  unfoldable pub decode : ℕ → Text → Script W SlotReport
  decode i w =
      if i == 0
      then (lift (read.to_checksum_address (address_of_word w)) >>= λ a. pure (address w a))
      else if i == 5
      then (lift (api.to_number w) >>= λ n. pure (number w n))
      else pure (word w)

  unfoldable pub read_slot : ℕ → ℕ → Script W SlotReport
  read_slot base i =
      try_catch
        (do
          w ← api.get_storage_at (base + i)
          if text_eq w empty_word then pure empty else decode i w)
        (λ _. pure unreadable)

  unfoldable pub read_slots : Script W (Option (List SlotReport))
  read_slots =
      try_catch
        (do
          base ← api.solidity_sha3 proposal_id 0
          slots ← each (read_slot base) (indices 10 0)
          pure (some slots))
        (λ _. pure none)

  unfoldable pub call_producer : Text → Script W Registration
  call_producer producer =
      try_catch (api.call_register producer (codes "TestDApp") test_payee >> pure unexpected)
        (λ message. pure (
          if includes (codes "onlyMulSig") message || includes (codes "Ownable") message
          then expected
          else refused message))

  unfoldable pub test_registration : Script W Registration
  test_registration =
      try_catch
        (do
          treasure ← api.get_treasure_by_kind (codes "OIL")
          if is_absent treasure.0 then pure no_producer else (do
            read.load_abi (codes "Producer")
            if api.has_register then call_producer treasure.0 else pure no_function))
        (λ message. pure (failed message))

  unfoldable pub simulate : Script W (Option Bool)
  simulate =
      try_catch
        (api.get_treasure_by_kind (codes "OIL") >>= λ treasure.
          pure (some (text_eq treasure.0 zero_address)))
        (λ _. pure none)

  unfoldable pub debug_proposal_data : Script W Debugged
  debug_proposal_data =
      try_catch
        (do
          read.add_account
          read.load_abi (codes "MulSig")
          read.load_abi (codes "Governance")
          treasures ← each read_treasure treasure_kinds
          events ← read_events
          slots ← read_slots
          registration ← test_registration
          oil_is_zero ← simulate
          pure (record {
            treasures = treasures;
            events = events;
            slots = slots;
            registration = registration;
            oil_is_zero = oil_is_zero;
          }))
        (λ _. exit_with 1)
