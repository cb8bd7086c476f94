-- ===== src/MulSig/Effects.antt =====
-- What a transaction of the multisig contract that succeeded has done to its state.
use smart_contracts.Base.{
  ℕ, ◌+◌, ◌≡◌, refl, Bool, true, false, not, leb, ltb, codes, sym, [], ◌∷◌, ◌++◌, arith, Bool-cases,
  inl, inr,
}
use smart_contracts.MulSig.State.{
  done, Proposal, MulSig, Ctx, update, contains, Peers, checked_add, checked_add_done, Tx-cases,
  done-injective, >>=-eq-done, require, require-eq-done,
}
use smart_contracts.MulSig.Propose.{
  only_foundation_manager, create_proposal, stamp, sign_transaction,
}

-- What a successful proposal has done.
pub create_proposal_done :
    {W : Type 0} (peers : Peers W) (ctx : Ctx) (fill : Proposal → Proposal) (s s' : MulSig) (id : ℕ)
    → create_proposal peers ctx fill s ≡ done (s', id)
    → (id ≡ s.proposal_idx)
      × (s' ≡ record s {
        proposals = update s.proposals s.proposal_idx (
            fill
              (record (s.proposals s.proposal_idx) { proposer = ctx.sender; signature_count = 0 }));
        pending_proposals = s.pending_proposals ++ s.proposal_idx ∷ [];
        proposal_idx = s.proposal_idx + 1;
      })
unfolding create_proposal
create_proposal_done peers ctx fill s s' id h = elim (Tx-cases (checked_add 256 s.proposal_idx 1)) [
  | inl (n, e) ↦
      let m : n ≡ s.proposal_idx + 1 = (checked_add_done 256 s.proposal_idx 1 e).0 in
      (ground arith, ground arith)
  | inr (r, e) ↦ cc (rw e at h)
]

not-eq-true : (b : Bool) → not b ≡ true → b ≡ false
not-eq-true true h = cc
not-eq-true false h = refl

stamp_done :
    {W : Type 0} (peers : Peers W) (ctx : Ctx) (w : W) (s : MulSig) (p : Proposal) {p' : Proposal}
    → stamp peers ctx w s p ≡ done p'
    → (time : ℕ) × (p' ≡ record p { execute_time = time })
unfolding stamp
stamp_done peers ctx w s p {p'} h =
    elim (Bool-cases (leb (peers.fm_threshold w) p.signature_count)) [
      | inl e ↦
          let timed =
            >>=-eq-done (checked_add 256 ctx.timestamp s.confirm_duration)
              (λ time. done (record p { execute_time = time })) (rw e at h) in
          (timed.0, cc (timed.2))
      | inr e ↦ (p.execute_time, cc (rw e at h))
    ]

-- What a successful signature has done to the proposal: the sender is added, the count is one
-- higher, and the execution time may be set.
pub sign_transaction_slot :
    {W : Type 0} (peers : Peers W) (id : ℕ) (ctx : Ctx) (w : W) (s s' : MulSig)
    → sign_transaction peers id ctx w s ≡ done s'
    → (time : ℕ) × (s' ≡ record s {
      proposals = update s.proposals id (record (s.proposals id) {
        signatures = ctx.sender ∷ (s.proposals id).signatures;
        signature_count = (s.proposals id).signature_count + 1;
        execute_time = time;
      });
    })
      × (contains (s.proposals id).signatures ctx.sender ≡ false)
unfolding sign_transaction
sign_transaction_slot peers id ctx w s s' h =
    let p = s.proposals id in
    let allowed = >>=-eq-done (only_foundation_manager peers ctx w) _ h in
    let below =
      >>=-eq-done (require (ltb p.signature_count (peers.fm_threshold w)) (codes "limit")) _
        allowed.2 in
    let first =
      >>=-eq-done (require (not (contains p.signatures ctx.sender)) (codes "already signed")) _
        below.2 in
    let count = >>=-eq-done (checked_add 8 p.signature_count 1) _ first.2 in
    let p₁ : Proposal = record p {
      signatures = ctx.sender ∷ p.signatures;
      signature_count = count.0;
    } in
    let stamped = >>=-eq-done (stamp peers ctx w s p₁) _ count.2 in
    let new =
      require-eq-done (not (contains p.signatures ctx.sender)) (codes "already signed") first.1 in
    let timed = stamp_done peers ctx w s p₁ stamped.1 in
    let counted = (checked_add_done 8 p.signature_count 1 count.1).0 in
    (timed.0, rw (← counted, ← timed.1) (sym (done-injective stamped.2)), not-eq-true _ new)

-- The signers and the count of the signed proposal.
pub sign_transaction_done :
    {W : Type 0} (peers : Peers W) (id : ℕ) (ctx : Ctx) (w : W) (s s' : MulSig)
    → sign_transaction peers id ctx w s ≡ done s'
    → (p' : Proposal) × (s' ≡ record s { proposals = update s.proposals id p' })
      × (p'.signatures ≡ ctx.sender ∷ (s.proposals id).signatures)
      × (p'.signature_count ≡ (s.proposals id).signature_count + 1)
      × (contains (s.proposals id).signatures ctx.sender ≡ false)
sign_transaction_done peers id ctx w s s' h =
    let (time, same, new) = sign_transaction_slot peers id ctx w s s' h in
    (_, same, refl, refl, new)
