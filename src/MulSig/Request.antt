-- ===== src/MulSig/Request.antt =====
-- The six proposals of contracts/Governance/MulSig.sol as one operation, and what a signature on an
-- id leads to that has no proposal yet.
use smart_contracts.Base.{
  ℕ, ◌+◌, ◌≡◌, ◌∙◌, ap, refl, true, not, [], ◌∷◌, ◌++◌, ◌==◌, ==_refl, Text, codes, text_eq,
}
use smart_contracts.MulSig.State.{
  Tx, done, >>=-eq-done, require, Address, PriceDiscountConfig, CrosschainToken, Proposal, MulSig,
  Ctx, update, update_self, Peers, contains,
}
use smart_contracts.MulSig.Propose.{
  only_foundation_manager, create_proposal, propose_to_manage_permission, propose_to_add_resource,
  propose_to_set_platform_config, propose_to_set_discount_config, propose_to_register_dapp,
  propose_to_set_crosschain_token, sign_transaction, get_signature_count, has_already_signed,
}
use smart_contracts.MulSig.Effects.{create_proposal_done, sign_transaction_done}

-- A call of one of the proposeTo… functions.
pub data Request : Type 0 where
  manage_permission : Text → Address → Request
  add_resource : Text → Address → Address → Request
  set_platform_config : Text → ℕ → Request
  set_discount_config : PriceDiscountConfig → Request
  register_dapp : Text → Text → Address → Request
  set_crosschain_token : CrosschainToken → Request

module _ {W : Type 0} (peers : Peers W) where
  unfoldable pub propose : Request → Ctx → W → MulSig → Tx (MulSig × ℕ)
  propose (manage_permission name account) = propose_to_manage_permission peers name account
  propose (add_resource name producer production_data) =
      propose_to_add_resource peers name producer production_data
  propose (set_platform_config name value) = propose_to_set_platform_config peers name value
  propose (set_discount_config config) = propose_to_set_discount_config peers config
  propose (register_dapp treasure dapp payee) = propose_to_register_dapp peers treasure dapp payee
  propose (set_crosschain_token crosschain) = propose_to_set_crosschain_token peers crosschain

  -- Every proposal is a foundation manager's, and fills the slot of the next id, whose signatures
  -- and execution time stay.
  abbrev pub Fills : Ctx → MulSig → MulSig → ℕ → Type 0
  Fills ctx s s' id =
      (id ≡ s.proposal_idx)
      × (p : Proposal) × (p.signatures ≡ (s.proposals s.proposal_idx).signatures)
      × (p.signature_count ≡ 0)
      × (p.execute_time ≡ (s.proposals s.proposal_idx).execute_time)
      × (s' ≡ record s {
        proposals = update s.proposals s.proposal_idx p;
        pending_proposals = s.pending_proposals ++ s.proposal_idx ∷ [];
        proposal_idx = s.proposal_idx + 1;
      })

  fills :
      (ctx : Ctx) (fill : Proposal → Proposal) (s s' : MulSig) (id : ℕ)
      → ((p : Proposal)
          → ((fill p).signatures ≡ p.signatures)
            × ((fill p).signature_count ≡ p.signature_count)
            × ((fill p).execute_time ≡ p.execute_time))
      → create_proposal peers ctx fill s ≡ done (s', id)
      → Fills ctx s s' id
  fills ctx fill s s' id keeps h =
      let made = create_proposal_done peers ctx fill s s' id h in
      let kept =
        keeps
          (record (s.proposals s.proposal_idx) { proposer = ctx.sender; signature_count = 0 }) in
      (made.0, _, kept.0, kept.1, kept.2, made.1)

  pub propose-Fills :
      (r : Request) (ctx : Ctx) (w : W) (s s' : MulSig) (id : ℕ)
      → propose r ctx w s ≡ done (s', id)
      → Fills ctx s s' id
  unfolding propose propose_to_manage_permission propose_to_add_resource
      propose_to_set_platform_config propose_to_set_discount_config propose_to_register_dapp
      propose_to_set_crosschain_token
  propose-Fills (manage_permission name account) ctx w s s' id h =
      let allowed = >>=-eq-done (only_foundation_manager peers ctx w) _ h in
      let given =
        >>=-eq-done (require (not (account == 0)) (codes "MulSig:zero address")) _ allowed.2 in
      fills ctx _ s s' id (λ p. (refl, refl, refl)) given.2
  propose-Fills (add_resource name producer production_data) ctx w s s' id h =
      let allowed = >>=-eq-done (only_foundation_manager peers ctx w) _ h in
      fills ctx _ s s' id (λ p. (refl, refl, refl)) allowed.2
  propose-Fills (set_platform_config name value) ctx w s s' id h =
      let allowed = >>=-eq-done (only_foundation_manager peers ctx w) _ h in
      fills ctx _ s s' id (λ p. (refl, refl, refl)) allowed.2
  propose-Fills (set_discount_config config) ctx w s s' id h =
      let allowed = >>=-eq-done (only_foundation_manager peers ctx w) _ h in
      fills ctx _ s s' id (λ p. (refl, refl, refl)) allowed.2
  propose-Fills (register_dapp treasure dapp payee) ctx w s s' id h =
      let allowed = >>=-eq-done (only_foundation_manager peers ctx w) _ h in
      let a =
        >>=-eq-done (require (not (text_eq treasure [])) (codes "empty treasure name")) _
          allowed.2 in
      let b = >>=-eq-done (require (not (text_eq dapp [])) (codes "empty dapp name")) _ a.2 in
      let c = >>=-eq-done (require (not (payee == 0)) (codes "empty DApp payee")) _ b.2 in
      let d = >>=-eq-done (peers.get_treasure_by_kind w treasure) _ c.2 in
      let e =
        >>=-eq-done (require (not (d.0.0 == 0)) (codes "treasure with this kind not found")) _
          d.2 in
      fills ctx _ s s' id (λ p. (refl, refl, refl)) e.2
  propose-Fills (set_crosschain_token crosschain) ctx w s s' id h =
      let allowed = >>=-eq-done (only_foundation_manager peers ctx w) _ h in
      fills ctx _ s s' id (λ p. (refl, refl, refl)) allowed.2

  -- A signature is accepted for an id that no proposal has yet, and it is lost: the proposal that
  -- gets the id begins with no signature, and takes none of this signer at any time.
  pub sign-propose_lost :
      (r : Request) (signer ctx : Ctx) (w w₁ : W) (s s₁ s₂ : MulSig) (id : ℕ)
      → sign_transaction peers s.proposal_idx signer w s ≡ done s₁
      → propose r ctx w₁ s₁ ≡ done (s₂, id)
      → (id ≡ s.proposal_idx)
        × (get_signature_count id s₂ ≡ 0)
        × (has_already_signed id signer.sender s₂ ≡ true)
        × ((time : ℕ) (w₂ : W) (s₃ : MulSig)
            → ¬ (
                sign_transaction peers id
                  (record { sender = signer.sender; timestamp = time })
                  w₂
                  s₂
                ≡ done s₃))
  unfolding get_signature_count has_already_signed
  sign-propose_lost r signer ctx w w₁ s s₁ s₂ id signed proposed =
      let effect = sign_transaction_done peers s.proposal_idx signer w s s₁ signed in
      let made = propose-Fills r ctx w₁ s₁ s₂ id proposed in
      let p = made.1 in
      let next : s₁.proposal_idx ≡ s.proposal_idx = ap (λ (t : MulSig). t.proposal_idx) effect.1 in
      let same : id ≡ s.proposal_idx = made.0 ∙ next in
      let slot : s₂.proposals id ≡ p = rw made.0 (
        ap (λ (t : MulSig). t.proposals s₁.proposal_idx) made.5
        ∙ update_self s₁.proposals s₁.proposal_idx p) in
      let before : (s₁.proposals s₁.proposal_idx).signatures
          ≡ signer.sender ∷ (s.proposals s.proposal_idx).signatures =
        ap (λ n. (s₁.proposals n).signatures) next
        ∙ ap (λ (t : MulSig). (t.proposals s.proposal_idx).signatures) effect.1
        ∙ ap (λ (q : Proposal). q.signatures) (update_self s.proposals s.proposal_idx effect.0)
        ∙ effect.2 in
      let signatures : (s₂.proposals id).signatures
          ≡ signer.sender ∷ (s.proposals s.proposal_idx).signatures =
        ap (λ (q : Proposal). q.signatures) slot ∙ made.2 ∙ before in
      let has : contains (s₂.proposals id).signatures signer.sender ≡ true =
        rw (signatures, ==_refl signer.sender) refl in
      (
        same,
        ap (λ (q : Proposal). q.signature_count) slot ∙ made.3,
        has,
        λ time w₂ s₃ h.
            let again = sign_transaction_done peers id _ w₂ s₂ s₃ h in cc (has, again.4),
      )
