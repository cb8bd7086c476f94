-- ===== src/MulSig/Signing.antt =====
-- The signing of a proposal, on success and on each refusal.
use smart_contracts.Base.{
  ℕ, ◌+◌, ◌^◌, ◌<◌, ◌≡◌, ◌≢◌, ◌∙◌, ap, refl, true, false, ◌∷◌, ltb, leb, if◌then◌else◌, Bool-cases,
  ==_ne, ltb→lt, lt→ltb, ==_refl, inl, inr, codes,
}
use smart_contracts.MulSig.State.{
  done, >>=-eq-done, require, require-eq-done, Address, Proposal, MulSig, Ctx, update, update_self,
  update_ne, Peers, checked_add_fits, foundation_manager,
}
use smart_contracts.MulSig.Propose.{
  only_foundation_manager, stamp, sign_transaction, get_signature_count, has_already_signed,
}
use smart_contracts.MulSig.Effects.{sign_transaction_done}

module _ {W : Type 0} (peers : Peers W) (id : ℕ) (ctx : Ctx) (w : W) where
  pub sign_transaction_effect :
      (s s' : MulSig)
      → sign_transaction peers id ctx w s ≡ done s'
      → (peers.has_role w foundation_manager ctx.sender ≡ true)
        × (get_signature_count id s < peers.fm_threshold w)
        × (has_already_signed id ctx.sender s ≡ false)
        × (get_signature_count id s' ≡ get_signature_count id s + 1)
        × (has_already_signed id ctx.sender s' ≡ true)
        × ((a : Address) → a ≢ ctx.sender → has_already_signed id a s' ≡ has_already_signed id a s)
        × ((j : ℕ) → j ≢ id → s'.proposals j ≡ s.proposals j)
        × (s'.pending_proposals ≡ s.pending_proposals)
  unfolding get_signature_count has_already_signed sign_transaction only_foundation_manager
  sign_transaction_effect s s' h =
      let p = s.proposals id in
      let allowed = >>=-eq-done (only_foundation_manager peers ctx w) _ h in
      let below =
        >>=-eq-done (require (ltb p.signature_count (peers.fm_threshold w)) (codes "limit")) _
          allowed.2 in
      let effect = sign_transaction_done peers id ctx w s s' h in
      let slot : s'.proposals id ≡ effect.0 =
        ap (λ (t : MulSig). t.proposals id) effect.1 ∙ update_self s.proposals id effect.0 in
      (
        require-eq-done _ _ allowed.1,
        ltb→lt _ _ (require-eq-done _ _ below.1),
        effect.4,
        ap (λ (q : Proposal). q.signature_count) slot ∙ effect.3,
        rw (slot, effect.2, ==_refl ctx.sender) refl,
        λ a other. rw (slot, effect.2, ==_ne a ctx.sender other) refl,
        λ j other.
            ap (λ (t : MulSig). t.proposals j) effect.1 ∙ update_ne s.proposals id j effect.0 other,
        ap (λ (t : MulSig). t.pending_proposals) effect.1,
      )

  -- A foundation manager who has not signed can sign below the threshold; the count and the time
  -- fit their words. The signature that reaches the threshold starts the confirmation period.
  pub sign_transaction_succeeds :
      (s : MulSig)
      → peers.has_role w foundation_manager ctx.sender ≡ true
      → get_signature_count id s < peers.fm_threshold w
      → has_already_signed id ctx.sender s ≡ false
      → get_signature_count id s + 1 < 2 ^ 8
      → ctx.timestamp + s.confirm_duration < 2 ^ 256
      → (s' : MulSig) × (sign_transaction peers id ctx w s ≡ done s')
        × ((s'.proposals id).execute_time ≡ (
            if leb (peers.fm_threshold w) (get_signature_count id s + 1)
            then ctx.timestamp + s.confirm_duration
            else (s.proposals id).execute_time))
  unfolding get_signature_count has_already_signed sign_transaction only_foundation_manager stamp
  sign_transaction_succeeds s role below new fits8 fits256 =
      let p = s.proposals id in
      let signed : Proposal = record p {
        signatures = ctx.sender ∷ p.signatures;
        signature_count = p.signature_count + 1;
      } in
      elim (Bool-cases (leb (peers.fm_threshold w) (p.signature_count + 1))) [
        | inl reached ↦
            let timed = record signed { execute_time = ctx.timestamp + s.confirm_duration } in
            (
              record s { proposals = update s.proposals id timed },
              rw (role, lt→ltb _ _ below, new, checked_add_fits 8 p.signature_count 1 fits8)
                  (rw (reached, checked_add_fits 256 ctx.timestamp s.confirm_duration fits256)
                    refl),
              rw (reached, ==_refl id) refl,
            )
        | inr short ↦ (
          record s { proposals = update s.proposals id signed },
          rw (role, lt→ltb _ _ below, new, checked_add_fits 8 p.signature_count 1 fits8)
              (rw short refl),
          rw (short, ==_refl id) refl,
        )
      ]
