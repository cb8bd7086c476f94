-- ===== src/MulSig/State.antt =====
-- The storage of the multisig contract, its call results, and the contracts that it calls.
use smart_contracts.Base.{
  ℕ, ◌+◌, ◌^◌, ◌<◌, ◌⊎◌, inl, inr, arith, ◌≡◌, ◌≢◌, ==_refl, ==_ne, refl, Bool, true, false, List,
  [], ◌∷◌, ◌||◌, ltb, ◌==◌, if◌then◌else◌, Text,
}

-- A call changes the state and returns, or it reverts with a reason and changes nothing.
pub data Tx {ℓ} (A : Type ℓ) : Type ℓ where
  done : A → Tx A
  revert : Text → Tx A

infixl 5 ◌>>=◌ ◌>>◌
abbrev pub ◌>>=◌ : {A B : Type 0} → Tx A → (A → Tx B) → Tx B
done a >>= f = f a
revert reason >>= f = revert reason

abbrev pub ◌>>◌ : {B : Type 0} → Tx (Unit {0}) → Tx B → Tx B
m >> k = m >>= λ _. k

pub Tx-cases {ℓ} :
    {A : Type ℓ} (t : Tx A) → ((a : A) × (t ≡ done a)) ⊎ ((reason : Text) × (t ≡ revert reason))
Tx-cases (done a) = inl (a, refl)
Tx-cases (revert reason) = inr (reason, refl)

-- `require(test, reason)`
abbrev pub require : Bool → Text → Tx (Unit {0})
require true reason = done tt
require false reason = revert reason

-- What a successful chain and a successful test have shown.
pub >>=-eq-done :
    {A B : Type 0} (m : Tx A) (f : A → Tx B) {b : B}
    → (m >>= f) ≡ done b
    → (a : A) × (m ≡ done a) × (f a ≡ done b)
>>=-eq-done (done a) f h = (a, refl, h)
>>=-eq-done (revert r) f h = cc

pub done-injective {ℓ} : {A : Type ℓ} {a b : A} → done a ≡ done b → a ≡ b
done-injective h = cc

pub require-eq-done :
    (test : Bool) (reason : Text) {u : Unit {0}} → require test reason ≡ done u → test ≡ true
require-eq-done true reason h = refl
require-eq-done false reason h = cc

-- An address as a number; `address(0)` is 0.
abbrev pub Address : Type 0
Address = ℕ

-- Checked arithmetic of Solidity 0.8 on a `bits`-bit word; a panic has no reason.
unfoldable pub checked_add : ℕ → ℕ → ℕ → Tx ℕ
checked_add bits a b = if ltb (a + b) (2 ^ bits) then done (a + b) else revert []

pub checked_add_done :
    (bits a b : ℕ) {n : ℕ} → checked_add bits a b ≡ done n → (n ≡ a + b) × (a + b < 2 ^ bits)
unfolding checked_add
checked_add_done bits a b h = ground arith

pub checked_add_fits : (bits a b : ℕ) → a + b < 2 ^ bits → checked_add bits a b ≡ done (a + b)
unfolding checked_add
checked_add_fits bits a b h = ground arith

-- `IParameterInfo.PriceDiscountConfig`
pub record PriceDiscountConfig : Type 0 where
  pub api : ℕ
  pub sulphur : ℕ
  pub discount0 : ℕ
  pub discount1 : ℕ
  pub discount2 : ℕ
  pub discount3 : ℕ

-- The fields that only a proposal for a crosschain token sets.
pub record CrosschainToken : Type 0 where
  pub token : Text
  pub source_erc20 : Address
  pub source_crosschain : Address
  pub source_chain_id : ℕ
  pub target_erc20 : Address
  pub target_crosschain : Address
  pub target_chain_id : ℕ
  pub fee : ℕ
  pub chain_id : ℕ

-- `struct proposal`. The mapping `signatures` holds 1 or 0: the addresses that it maps to 1.
pub record Proposal : Type 0 where
  pub proposer : Address
  pub name : Text
  pub add : Address
  pub value : ℕ
  pub config : PriceDiscountConfig
  pub kind : ℕ  -- `_type`
  pub signature_count : ℕ  -- uint8
  pub execute_time : ℕ  -- `excuteTime`
  pub producer : Address
  pub production_data : Address
  pub signatures : List Address
  pub treasure_kind : Text
  pub payee : Address
  pub crosschain : CrosschainToken

-- A slot of the mapping that was never written.
abbrev pub empty_proposal : Proposal
empty_proposal = record {
  proposer = 0;
  name = [];
  add = 0;
  value = 0;
  config = record {
    api = 0;
    sulphur = 0;
    discount0 = 0;
    discount1 = 0;
    discount2 = 0;
    discount3 = 0;
  };
  kind = 0;
  signature_count = 0;
  execute_time = 0;
  producer = 0;
  production_data = 0;
  signatures = [];
  treasure_kind = [];
  payee = 0;
  crosschain = record {
    token = [];
    source_erc20 = 0;
    source_crosschain = 0;
    source_chain_id = 0;
    target_erc20 = 0;
    target_crosschain = 0;
    target_chain_id = 0;
    fee = 0;
    chain_id = 0;
  };
}

pub record MulSig : Type 0 where
  pub proposals : ℕ → Proposal
  pub pending_proposals : List ℕ
  pub proposal_idx : ℕ
  pub confirm_duration : ℕ
  -- the addresses of the other contracts
  pub dao : Address
  pub governance : Address
  pub parameter_info : Address
  pub roles : Address
  pub crosschain_tokens : Address

-- `msg.sender` and `block.timestamp`.
pub record Ctx : Type 0 where
  pub sender : Address
  pub timestamp : ℕ

abbrev pub update : (ℕ → Proposal) → ℕ → Proposal → ℕ → Proposal
update m id p i = if i == id then p else m i

pub update_self : (m : ℕ → Proposal) (id : ℕ) (p : Proposal) → update m id p id ≡ p
update_self m id p = rw (==_refl id) refl

pub update_ne : (m : ℕ → Proposal) (id j : ℕ) (p : Proposal) → j ≢ id → update m id p j ≡ m j
update_ne m id j p h = rw (==_ne j id h) refl

abbrev pub contains : List ℕ → ℕ → Bool
contains [] a = false
contains (x ∷ xs) a = a == x || contains xs a

-- The roles that `executeProposal` grants and revokes.
pub data Role : Type 0 where
  foundation_manager feeder admin auction_manager crosschain_sender tcash_minter tcash_burner : Role

-- The contracts Roles, Governance, ParameterInfo, CrosschainTokens and the producers, as the
-- multisig contract calls them: views, and calls that change the peers or revert.
pub record Peers (W : Type 0) : Type 0 where
  pub has_role : W → Role → Address → Bool
  pub fm_threshold : W → ℕ
  pub get_treasure_by_kind : W → Text → Tx (Address × Address)
  pub grant_role : Role → Address → W → Tx W
  pub revoke_role : Role → Address → W → Tx W
  pub add_treasure : Text → Address → Address → W → Tx W
  pub set_platform_config : Text → ℕ → W → Tx W
  pub set_price_discount_config : PriceDiscountConfig → W → Tx W
  pub register_dapp_connect : Address → Text → Address → W → Tx W
  pub set_crosschain_token : CrosschainToken → W → Tx W
