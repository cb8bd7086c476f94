-- ===== src/MulSig/Execute.antt =====
-- Execution and deletion of a proposal, and the view of its details.
use smart_contracts.Base.{
  ℕ, zero, suc, ◌+◌, ◌-◌, Bool, true, false, not, Option, none, some, List, [], ◌∷◌, ◌||◌, leb,
  ◌==◌, if◌then◌else◌, Text, codes, text_eq, length, get_or, set,
}
use smart_contracts.MulSig.State.{
  Tx, done, ◌>>=◌, ◌>>◌, require, Address, Proposal, empty_proposal, MulSig, Ctx, update, Role,
  Peers, foundation_manager, feeder, admin, auction_manager, crosschain_sender, tcash_minter,
  tcash_burner,
}
use smart_contracts.MulSig.Propose.{only_foundation_manager}

-- The loop of `deleteProposals`, `rounds` of it from index `i`: behind the deleted id every entry
-- moves one place down. Both tests of a round are folded into its new flag and its new array.
unfoldable pub delete_loop : ℕ → ℕ → ℕ → Bool → List ℕ → Bool × List ℕ
delete_loop id zero i replace pending = (replace, pending)
delete_loop id (suc rounds) i replace pending =
    let here = get_or pending i 0 in
    delete_loop id rounds (i + 1) (replace || id == here)
      (if replace then set pending (i - 1) here else pending)

-- `pendingProposals.pop()`
unfoldable pub pop : List ℕ → List ℕ
pop [] = []
pop (x ∷ []) = []
pop (x ∷ y ∷ xs) = x ∷ pop (y ∷ xs)

-- `delete proposals[id]` leaves the mapping inside the struct as it is.
unfoldable pub clear_proposal : Proposal → Proposal
clear_proposal p = record empty_proposal { signatures = p.signatures }

unfoldable pub remove_proposal : ℕ → MulSig → MulSig
remove_proposal id s =
    let (replace, shifted) =
      delete_loop id (length s.pending_proposals) 0 false s.pending_proposals in
    if replace
    then record s {
      pending_proposals = pop shifted;
      proposals = update s.proposals id (clear_proposal (s.proposals id));
    }
    else record s { pending_proposals = shifted }

-- What a permission proposal's name asks for: the role, and whether to grant it.
unfoldable pub permission : Text → Option (Role × Bool)
permission name =
    if text_eq name (codes "FMD")
    then some (foundation_manager, false)
    else if text_eq name (codes "FMA")
    then some (foundation_manager, true)
    else if text_eq name (codes "FEEDERD")
    then some (feeder, false)
    else if text_eq name (codes "FEEDERA")
    then some (feeder, true)
    else if text_eq name (codes "ADMIND")
    then some (admin, false)
    else if text_eq name (codes "ADMINA")
    then some (admin, true)
    else if text_eq name (codes "AUCTION_MANAGERD")
    then some (auction_manager, false)
    else if text_eq name (codes "AUCTION_MANAGERA")
    then some (auction_manager, true)
    else if text_eq name (codes "CROSSCHAIN_SENDERD")
    then some (crosschain_sender, false)
    else if text_eq name (codes "CROSSCHAIN_SENDERA")
    then some (crosschain_sender, true)
    else if text_eq name (codes "TCASH_MINTERD")
    then some (tcash_minter, false)
    else if text_eq name (codes "TCASH_MINTERA")
    then some (tcash_minter, true)
    else if text_eq name (codes "TCASH_BURNERD")
    then some (tcash_burner, false)
    else if text_eq name (codes "TCASH_BURNERA")
    then some (tcash_burner, true)
    else none

module _ {W : Type 0} (peers : Peers W) where
  unfoldable pub change_permission : Option (Role × Bool) → Address → W → Tx W
  change_permission none account w = done w
  change_permission (some (role, true)) account w = peers.grant_role role account w
  change_permission (some (role, false)) account w = peers.revoke_role role account w

  unfoldable pub register_dapp : Proposal → W → Tx W
  register_dapp p w = do
    (producer, _) ← peers.get_treasure_by_kind w p.treasure_kind
    require (not (producer == 0)) (codes "treasure not found with proposal's treasure kind")
    peers.register_dapp_connect producer p.name p.payee w

  unfoldable pub set_crosschain : MulSig → Proposal → W → Tx W
  set_crosschain s p w =
      require (not (s.crosschain_tokens == 0)) (codes "CrosschainTokens not initialized")
      >> peers.set_crosschain_token p.crosschain w

  -- The effect of a proposal on the other contracts, by its type; an unknown type has none.
  unfoldable pub apply_proposal : MulSig → Proposal → W → Tx W
  apply_proposal s p w =
      if p.kind == 1
      then change_permission (permission p.name) p.add w
      else if p.kind == 2
      then peers.add_treasure p.name p.producer p.production_data w
      else if p.kind == 3
      then peers.set_platform_config p.name p.value w
      else if p.kind == 4
      then peers.set_price_discount_config p.config w
      else if p.kind == 5
      then register_dapp p w
      else if p.kind == 6
      then set_crosschain s p w
      else done w

  unfoldable pub delete_proposals : ℕ → Ctx → W → MulSig → Tx MulSig
  delete_proposals id ctx w s = only_foundation_manager peers ctx w >> done (remove_proposal id s)

  -- The call of the public `deleteProposals` checks the caller again, after the effect.
  unfoldable pub execute_proposal : ℕ → Ctx → W → MulSig → Tx (MulSig × W)
  execute_proposal id ctx w s = do
    only_foundation_manager peers ctx w
    let p = s.proposals id
    require (leb p.execute_time ctx.timestamp) (codes "executeTime not meet")
    w' ← apply_proposal s p w
    s' ← delete_proposals id ctx w' s
    done (s', w')

-- `struct ProposalResponse`, as `transactionDetails` fills it.
pub record ProposalResponse : Type 0 where
  pub name : Text
  pub add : Address
  pub a1 : ℕ
  pub a2 : ℕ
  pub a3 : ℕ
  pub a4 : ℕ
  pub a5 : ℕ
  pub a6 : ℕ
  pub execute_time : ℕ

abbrev pub plain_response : Text → Address → ℕ → ℕ → ProposalResponse
plain_response name add a1 time = record {
  name = name;
  add = add;
  a1 = a1;
  a2 = 0;
  a3 = 0;
  a4 = 0;
  a5 = 0;
  a6 = 0;
  execute_time = time;
}

abbrev pub discount_response : Proposal → ProposalResponse
discount_response p = record {
  name = codes "0";
  add = 0;
  a1 = p.config.api;
  a2 = p.config.sulphur;
  a3 = p.config.discount0;
  a4 = p.config.discount1;
  a5 = p.config.discount2;
  a6 = p.config.discount3;
  execute_time = p.execute_time;
}

-- Types 5 and 6, and an empty slot, give the empty response.
unfoldable pub transaction_details : ℕ → MulSig → ProposalResponse
transaction_details id s =
    let p = s.proposals id in
    if p.kind == 1
    then plain_response p.name p.add 0 p.execute_time
    else if p.kind == 2
    then plain_response p.name 0 0 p.execute_time
    else if p.kind == 3
    then plain_response p.name 0 p.value p.execute_time
    else if p.kind == 4
    then discount_response p
    else plain_response [] 0 0 0
