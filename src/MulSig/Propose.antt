-- ===== src/MulSig/Propose.antt =====
-- The six ways to propose, and the signing of a proposal.
use smart_contracts.Base.{
  ℕ, Bool, not, [], ◌∷◌, ◌++◌, ltb, leb, ◌==◌, if◌then◌else◌, Text, codes, text_eq,
}
use smart_contracts.MulSig.State.{
  Tx, done, ◌>>=◌, ◌>>◌, require, Address, checked_add, PriceDiscountConfig, CrosschainToken,
  Proposal, MulSig, Ctx, update, contains, Peers, foundation_manager,
}

module _ {W : Type 0} (peers : Peers W) where
  -- The modifier `onlyFoundationManager`.
  unfoldable pub only_foundation_manager : Ctx → W → Tx (Unit {0})
  only_foundation_manager ctx w =
      require (peers.has_role w foundation_manager ctx.sender) (codes "only foundation manager")

  -- `proposalIDx++`, the write of a proposal's fields with `signatureCount = 0`, and the push; the
  -- fields that a kind does not set keep what the slot holds, its signatures among them.
  unfoldable pub create_proposal : Ctx → (Proposal → Proposal) → MulSig → Tx (MulSig × ℕ)
  create_proposal ctx fill s = do
    next ← checked_add 256 s.proposal_idx 1
    let p =
        fill (record (s.proposals s.proposal_idx) { proposer = ctx.sender; signature_count = 0 })
    done (
      record s {
        proposals = update s.proposals s.proposal_idx p;
        pending_proposals = s.pending_proposals ++ s.proposal_idx ∷ [];
        proposal_idx = next;
      },
      s.proposal_idx,
    )

  -- The proposals emit their id in an event: the second result.
  unfoldable pub propose_to_manage_permission : Text → Address → Ctx → W → MulSig → Tx (MulSig × ℕ)
  propose_to_manage_permission name account ctx w s = do
    only_foundation_manager ctx w
    require (not (account == 0)) (codes "MulSig:zero address")
    create_proposal ctx (λ p. record p { name = name; add = account; kind = 1 }) s

  unfoldable pub propose_to_add_resource :
      Text → Address → Address → Ctx → W → MulSig → Tx (MulSig × ℕ)
  propose_to_add_resource name producer production_data ctx w s = do
    only_foundation_manager ctx w
    create_proposal ctx
        (λ p. record p {
          name = name;
          kind = 2;
          producer = producer;
          production_data = production_data;
        })
        s

  unfoldable pub propose_to_set_platform_config : Text → ℕ → Ctx → W → MulSig → Tx (MulSig × ℕ)
  propose_to_set_platform_config name value ctx w s = do
    only_foundation_manager ctx w
    create_proposal ctx (λ p. record p { name = name; value = value; kind = 3 }) s

  unfoldable pub propose_to_set_discount_config :
      PriceDiscountConfig → Ctx → W → MulSig → Tx (MulSig × ℕ)
  propose_to_set_discount_config config ctx w s = do
    only_foundation_manager ctx w
    create_proposal ctx (λ p. record p { config = config; kind = 4 }) s

  -- Texts are compared by their hashes in the source.
  unfoldable pub propose_to_register_dapp :
      Text → Text → Address → Ctx → W → MulSig → Tx (MulSig × ℕ)
  propose_to_register_dapp treasure dapp payee ctx w s = do
    only_foundation_manager ctx w
    require (not (text_eq treasure [])) (codes "empty treasure name")
    require (not (text_eq dapp [])) (codes "empty dapp name")
    require (not (payee == 0)) (codes "empty DApp payee")
    (producer, _) ← peers.get_treasure_by_kind w treasure
    require (not (producer == 0)) (codes "treasure with this kind not found")
    create_proposal ctx
        (λ p. record p { name = dapp; treasure_kind = treasure; payee = payee; kind = 5 }) s

  unfoldable pub propose_to_set_crosschain_token :
      CrosschainToken → Ctx → W → MulSig → Tx (MulSig × ℕ)
  propose_to_set_crosschain_token crosschain ctx w s = do
    only_foundation_manager ctx w
    create_proposal ctx (λ p. record p { crosschain = crosschain; kind = 6 }) s

  -- `excuteTime` is set when the count reaches the threshold.
  unfoldable pub stamp : Ctx → W → MulSig → Proposal → Tx Proposal
  stamp ctx w s p =
      if leb (peers.fm_threshold w) p.signature_count
      then (do
        time ← checked_add 256 ctx.timestamp s.confirm_duration
        done (record p { execute_time = time }))
      else done p

  unfoldable pub sign_transaction : ℕ → Ctx → W → MulSig → Tx MulSig
  sign_transaction id ctx w s = do
    only_foundation_manager ctx w
    let p = s.proposals id
    require (ltb p.signature_count (peers.fm_threshold w)) (codes "limit")
    require (not (contains p.signatures ctx.sender)) (codes "already signed")
    count ← checked_add 8 p.signature_count 1
    p' ←
        stamp ctx w s (record p { signatures = ctx.sender ∷ p.signatures; signature_count = count })
    done (record s { proposals = update s.proposals id p' })

unfoldable pub get_signature_count : ℕ → MulSig → ℕ
get_signature_count id s = (s.proposals id).signature_count

unfoldable pub has_already_signed : ℕ → Address → MulSig → Bool
has_already_signed id signer s = contains (s.proposals id).signatures signer
