-- ===== src/Governance/Executed.antt =====
-- What an executed proposal leaves in the contracts that the multisig contract governs.
use smart_contracts.Base.{ℕ, ◌≡◌, ◌==◌, codes, text_eq, if◌then◌else◌}
use smart_contracts.MulSig.{
  Address, PriceDiscountConfig, MulSig, CrosschainToken, Proposal, Tx, done, ◌>>=◌, apply_proposal,
}
use smart_contracts.Governance.Treasury
use smart_contracts.Governance.Treasury.{Treasury}
use smart_contracts.Governance.Tokens
use smart_contracts.Governance.Tokens.{Tokens}
use smart_contracts.Governance.Dapps
use smart_contracts.Governance.Dapps.{Dapps}
use smart_contracts.Governance.Roles.{AccessApi}
use smart_contracts.Governance.Contracts.{Contracts, contracts}

-- The subject of a proposal, as the contracts give it back.
pub data Subject : Type 0 where
  treasure : Address → Address → Subject
  parameter : ℕ → Subject
  discounts : PriceDiscountConfig → Subject
  payee : Address → Subject
  token : CrosschainToken → Subject
  nothing : Subject

-- What the views of the contracts answer for the subject of a proposal.
unfoldable pub read_back : {R : Type 0} → Proposal → Contracts R → Tx Subject
read_back p w =
    if p.kind == 2
    then (Treasury.get_treasure_by_kind w.treasury p.name >>= λ t. done (treasure t.0 t.1))
    else if p.kind == 3
    then done (
        parameter (
          if text_eq p.name (codes "liquidationRatio")
          then w.parameters.liquidation_ratio
          else w.parameters.platform_config p.name))
    else if p.kind == 4
    then done (discounts w.parameters.price_discount_config)
    else if p.kind == 5
    then (Treasury.get_treasure_by_kind w.treasury p.treasure_kind >>= λ t.
        Dapps.get_dapp_payee p.name p.payee (w.producers t.0) >>= λ a. done (payee a))
    else if p.kind == 6
    then done (
        token (
          Tokens.get_crosschain_token_by_chain_id p.crosschain.token p.crosschain.chain_id
            w.tokens))
    else done nothing

-- What the proposal asked for.
unfoldable pub asked : Proposal → Subject
asked p =
    if p.kind == 2
    then treasure p.producer p.production_data
    else if p.kind == 3
    then parameter p.value
    else if p.kind == 4
    then discounts p.config
    else if p.kind == 5
    then payee p.payee
    else if p.kind == 6
    then token p.crosschain
    else nothing

module _ {R : Type 0} (access : AccessApi R) (s : MulSig) (p : Proposal) (w w' : Contracts R)
    (ran : apply_proposal (contracts access) s p w ≡ done w') where
  abbrev Reached : Type 0
  Reached = read_back p w' ≡ done (asked p)
