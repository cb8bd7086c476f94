-- ===== src/MulSig/Waiting.antt =====
-- The confirmation period between the last signature and the execution.
use smart_contracts.Base.{
  ℕ, ◌+◌, ◌≤◌, ◌<◌, ◌≡◌, ◌∙◌, sym, ap, true, not, ◌∷◌, ltb, leb, le→leb, Bool-cases, inl, inr,
  arith, codes,
}
use smart_contracts.MulSig.State.{
  done, revert, >>=-eq-done, require, done-injective, Proposal, MulSig, Ctx, update_self, contains,
  Peers, checked_add, checked_add_done, foundation_manager,
}
use smart_contracts.MulSig.Propose.{
  only_foundation_manager, stamp, sign_transaction, get_signature_count,
}
use smart_contracts.MulSig.Execute.{execute_proposal}
use smart_contracts.MulSig.Executing.{execute_proposal_early}

module _ {W : Type 0} (peers : Peers W) where
  -- A proposal with enough signatures gets the end of the confirmation period.
  stamp_time :
      (ctx : Ctx) (w : W) (s : MulSig) (p p' : Proposal)
      → stamp peers ctx w s p ≡ done p'
      → (p'.signature_count ≡ p.signature_count)
        × (peers.fm_threshold w ≤ p.signature_count
            → p'.execute_time ≡ ctx.timestamp + s.confirm_duration)
  unfolding stamp
  stamp_time ctx w s p p' h = elim (Bool-cases (leb (peers.fm_threshold w) p.signature_count)) [
    | inl reached ↦
        let timed =
          >>=-eq-done (checked_add 256 ctx.timestamp s.confirm_duration) _ (rw reached at h) in
        let same = done-injective timed.2 in
        (
          sym (ap (λ (q : Proposal). q.signature_count) same),
          λ enough.
              sym (ap (λ (q : Proposal). q.execute_time) same)
              ∙ (checked_add_done 256 ctx.timestamp s.confirm_duration timed.1).0,
        )
    | inr short ↦
        let same = done-injective (rw short at h) in
        (
          sym (ap (λ (q : Proposal). q.signature_count) same),
          λ enough. absurd (ground (arith, le→leb _ _ enough)),
        )
  ]

  -- The signature that reaches the threshold sets the time of the execution.
  sign_transaction_time :
      (id : ℕ) (ctx : Ctx) (w : W) (s s' : MulSig)
      → sign_transaction peers id ctx w s ≡ done s'
      → peers.fm_threshold w ≤ get_signature_count id s'
      → (s'.proposals id).execute_time ≡ ctx.timestamp + s.confirm_duration
  unfolding sign_transaction get_signature_count
  sign_transaction_time id ctx w s s' h reached =
      let p = s.proposals id in
      let allowed = >>=-eq-done (only_foundation_manager peers ctx w) _ h in
      let below =
        >>=-eq-done (require (ltb p.signature_count (peers.fm_threshold w)) (codes "limit")) _
          allowed.2 in
      let new =
        >>=-eq-done (require (not (contains p.signatures ctx.sender)) (codes "already signed")) _
          below.2 in
      let count = >>=-eq-done (checked_add 8 p.signature_count 1) _ new.2 in
      let signed : Proposal = record p {
        signatures = ctx.sender ∷ p.signatures;
        signature_count = count.0;
      } in
      let stamped = >>=-eq-done (stamp peers ctx w s signed) _ count.2 in
      let slot : s'.proposals id ≡ stamped.0 =
        ap (λ (t : MulSig). t.proposals id) (sym (done-injective stamped.2))
        ∙ update_self s.proposals id stamped.0 in
      let told = stamp_time ctx w s signed stamped.0 stamped.1 in
      ap (λ (q : Proposal). q.execute_time) slot
      ∙ told.1 (omega (arith, reached, ap (λ (q : Proposal). q.signature_count) slot, told.0))

  -- After the signature that reaches the threshold, every execution by a foundation manager before
  -- the end of the confirmation period is refused.
  pub sign-execute_waits :
      (id : ℕ) (ctx ctx' : Ctx) (w w' : W) (s s' : MulSig)
      → sign_transaction peers id ctx w s ≡ done s'
      → peers.fm_threshold w ≤ get_signature_count id s'
      → peers.has_role w' foundation_manager ctx'.sender ≡ true
      → ctx'.timestamp < ctx.timestamp + s.confirm_duration
      → execute_proposal peers id ctx' w' s' ≡ revert (codes "executeTime not meet")
  sign-execute_waits id ctx ctx' w w' s s' h reached role early =
      execute_proposal_early peers id ctx' w' s' role
        (omega (arith, early, sign_transaction_time id ctx w s s' h reached))
