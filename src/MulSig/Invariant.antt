-- ===== src/MulSig/Invariant.antt =====
-- What holds of the multisig contract between two transactions: the pending ids ascend below the
-- next id, and the signers of a proposal are distinct and at least as many as its count.
use smart_contracts.Base.{
  ℕ, ◌+◌, ◌≤◌, ◌≡◌, false, leb, codes, ap, List, [], ◌∷◌, ◌++◌, arith, ◌==◌, Bool-cases, inl, inr,
  length,
}
use smart_contracts.MulSig.State.{
  done, Address, Proposal, MulSig, Ctx, update, contains, Peers, done-injective, >>=-eq-done,
  require,
}
use smart_contracts.MulSig.Propose.{only_foundation_manager, sign_transaction}
use smart_contracts.MulSig.Execute.{
  clear_proposal, remove_proposal, apply_proposal, delete_proposals, execute_proposal,
}
use smart_contracts.MulSig.Effects.{sign_transaction_done}
use smart_contracts.MulSig.Delete.{erase, is_pending, remove_proposal_lem}

-- From `lo` up, strictly ascending, below `hi`.
abbrev pub Ascending : ℕ → List ℕ → ℕ → Type 0
Ascending lo [] hi = lo ≤ hi
Ascending lo (x ∷ xs) hi = (lo ≤ x) × Ascending (x + 1) xs hi

abbrev pub Distinct : List Address → Type 0
Distinct [] = Unit
Distinct (x ∷ xs) = (contains xs x ≡ false) × Distinct xs

abbrev pub SignersCounted : Proposal → Type 0
SignersCounted p = Distinct p.signatures × (p.signature_count ≤ length p.signatures)

pub record IsValid (s : MulSig) : Type 0 where
  pub ascending : Ascending 0 s.pending_proposals s.proposal_idx
  pub counted : (id : ℕ) → SignersCounted (s.proposals id)

Ascending-snoc :
    (lo : ℕ) (xs : List ℕ) (n : ℕ) → Ascending lo xs n → Ascending lo (xs ++ n ∷ []) (n + 1)
Ascending-snoc lo [] n h = omega arith
Ascending-snoc lo (x ∷ xs) n h = (h.0, Ascending-snoc (x + 1) xs n h.1)

Ascending-weaken :
    (lo lo' : ℕ) (xs : List ℕ) (hi : ℕ) → lo ≤ lo' → Ascending lo' xs hi → Ascending lo xs hi
Ascending-weaken lo lo' [] hi e h = omega arith
Ascending-weaken lo lo' (x ∷ xs) hi e h = (omega (arith, h.0), h.1)

Ascending-erase :
    (id lo : ℕ) (xs : List ℕ) (hi : ℕ) → Ascending lo xs hi → Ascending lo (erase id xs) hi
Ascending-erase id lo [] hi h = h
Ascending-erase id lo (x ∷ xs) hi h = elim (Bool-cases (id == x)) [
  | inl e ↦ rw e (Ascending-weaken lo (x + 1) xs hi (omega (arith, h.0)) h.1)
  | inr e ↦ rw e (h.0, Ascending-erase id (x + 1) xs hi h.1)
]

-- A write of one slot keeps what holds of every slot.
counted-update :
    (m : ℕ → Proposal) (id : ℕ) (p : Proposal)
    → ((i : ℕ) → SignersCounted (m i))
    → SignersCounted p
    → (i : ℕ) → SignersCounted (update m id p i)
counted-update m id p h hp i = elim (Bool-cases (i == id)) [ inl e ↦ rw e hp | inr e ↦ rw e (h i) ]

-- A new proposal, in the slot of the next id, without a count.
pub filled-IsValid :
    (s : MulSig) (p : Proposal)
    → p.signatures ≡ (s.proposals s.proposal_idx).signatures
    → p.signature_count ≡ 0
    → IsValid s
    → IsValid (record s {
      proposals = update s.proposals s.proposal_idx p;
      pending_proposals = s.pending_proposals ++ s.proposal_idx ∷ [];
      proposal_idx = s.proposal_idx + 1;
    })
filled-IsValid s p signers uncounted v = record {
  ascending = Ascending-snoc 0 s.pending_proposals s.proposal_idx v.ascending;
  counted =
      counted-update s.proposals s.proposal_idx p v.counted
        (rw signers (v.counted s.proposal_idx).0, omega (arith, uncounted));
}

module _ {W : Type 0} (peers : Peers W) where
  pub sign_transaction-IsValid :
      (id : ℕ) (ctx : Ctx) (w : W) (s s' : MulSig)
      → IsValid s
      → sign_transaction peers id ctx w s ≡ done s'
      → IsValid s'
  sign_transaction-IsValid id ctx w s s' v h =
      let signed = sign_transaction_done peers id ctx w s s' h in
      let p' = signed.0 in
      let old = v.counted id in
      rw signed.1 (record {
        ascending = v.ascending;
        counted =
            counted-update s.proposals id p' v.counted
              (rw signed.2 (signed.4, old.0), rw (signed.2, signed.3) (omega (arith, old.1)));
      })

  remove_proposal-IsValid : (id : ℕ) (s : MulSig) → IsValid s → IsValid (remove_proposal id s)
  unfolding clear_proposal
  remove_proposal-IsValid id s v = elim (Bool-cases (is_pending id s.pending_proposals)) [
    | inl e ↦
        rw (remove_proposal_lem id s, e)
          (record {
            ascending = Ascending-erase id 0 s.pending_proposals s.proposal_idx v.ascending;
            counted =
                counted-update s.proposals id (clear_proposal (s.proposals id)) v.counted
                  ((v.counted id).0, omega arith);
          })
    | inr e ↦ rw (remove_proposal_lem id s, e) v
  ]

  pub delete_proposals-IsValid :
      (id : ℕ) (ctx : Ctx) (w : W) (s s' : MulSig)
      → IsValid s
      → delete_proposals peers id ctx w s ≡ done s'
      → IsValid s'
  unfolding delete_proposals
  delete_proposals-IsValid id ctx w s s' v h =
      let allowed = >>=-eq-done (only_foundation_manager peers ctx w) _ h in
      rw (← done-injective allowed.2) (remove_proposal-IsValid id s v)

  pub execute_proposal-IsValid :
      (id : ℕ) (ctx : Ctx) (w w' : W) (s s' : MulSig)
      → IsValid s
      → execute_proposal peers id ctx w s ≡ done (s', w')
      → IsValid s'
  unfolding execute_proposal
  execute_proposal-IsValid id ctx w w' s s' v h =
      let p = s.proposals id in
      let allowed = >>=-eq-done (only_foundation_manager peers ctx w) _ h in
      let due =
        >>=-eq-done (require (leb p.execute_time ctx.timestamp) (codes "executeTime not meet")) _
          allowed.2 in
      let applied = >>=-eq-done (apply_proposal peers s p w) _ due.2 in
      let deleted = >>=-eq-done (delete_proposals peers id ctx applied.0 s) _ applied.2 in
      let same : deleted.0 ≡ s' = ap (λ (t : MulSig × W). t.0) (done-injective deleted.2) in
      delete_proposals-IsValid id ctx applied.0 s s' v (rw (← same) deleted.1)
