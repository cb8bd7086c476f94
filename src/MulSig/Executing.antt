-- ===== src/MulSig/Executing.antt =====
-- The execution of a proposal: what it checks, what it does, and what it does not check.
use smart_contracts.Base.{
  ℕ, ◌+◌, ◌≤◌, ◌<◌, ◌≡◌, ◌≢◌, ◌∙◌, ap, refl, true, false, List, [], ◌∷◌, arith, leb, ◌==◌,
  Bool-cases, le→leb, leb→le, text_eq_refl, lt→leb, ==_ne, inl, inr, Text, codes,
}
use smart_contracts.MulSig.State.{
  done, revert, ◌>>=◌, >>=-eq-done, require, require-eq-done, done-injective, Address, Proposal,
  MulSig, Ctx, update_self, update_ne, Peers, foundation_manager,
}
use smart_contracts.MulSig.Propose.{only_foundation_manager, get_signature_count}
use smart_contracts.MulSig.Execute.{
  clear_proposal, remove_proposal, permission, change_permission, apply_proposal, delete_proposals,
  execute_proposal,
}
use smart_contracts.MulSig.Delete.{erase, is_pending, remove_proposal_lem}
use smart_contracts.MulSig.Invariant.{Ascending, IsValid}

-- In an ascending list nothing is left of an erased id, and the other ids stay.
not-pending_below :
    (id lo : ℕ) (xs : List ℕ) (hi : ℕ) → id < lo → Ascending lo xs hi → is_pending id xs ≡ false
not-pending_below id lo [] hi e h = refl
not-pending_below id lo (x ∷ xs) hi e h =
    rw (==_ne id x (omega (arith, h.0)))
      (not-pending_below id (x + 1) xs hi (omega (arith, h.0)) h.1)

is_pending-erase_self :
    (id lo : ℕ) (xs : List ℕ) (hi : ℕ) → Ascending lo xs hi → is_pending id (erase id xs) ≡ false
is_pending-erase_self id lo [] hi h = refl
is_pending-erase_self id lo (x ∷ xs) hi h = elim (Bool-cases (id == x)) [
  | inl e ↦ rw e (not-pending_below id (x + 1) xs hi (ground arith) h.1)
  | inr e ↦ rw (e) (rw e (is_pending-erase_self id (x + 1) xs hi h.1))
]

is_pending-erase_ne :
    (id j : ℕ) (xs : List ℕ) → j ≢ id → is_pending j (erase id xs) ≡ is_pending j xs
is_pending-erase_ne id j [] h = refl
is_pending-erase_ne id j (x ∷ xs) h = ground (arith, is_pending-erase_ne id j xs h)

-- What is left of a pending id in a valid state when it is removed.
remove_pending :
    (id : ℕ) (s : MulSig)
    → IsValid s
    → is_pending id s.pending_proposals ≡ true
    → (is_pending id (remove_proposal id s).pending_proposals ≡ false)
      × (get_signature_count id (remove_proposal id s) ≡ 0)
      × ((j : ℕ)
          → j ≢ id
          → (is_pending j (remove_proposal id s).pending_proposals
              ≡ is_pending j s.pending_proposals)
            × ((remove_proposal id s).proposals j ≡ s.proposals j))
unfolding get_signature_count clear_proposal
remove_pending id s v pending =
    rw (remove_proposal_lem id s, pending)
      (
        is_pending-erase_self id 0 s.pending_proposals s.proposal_idx v.ascending,
        ap (λ (q : Proposal). q.signature_count)
            (update_self s.proposals id (clear_proposal (s.proposals id))),
        λ j other. (
          is_pending-erase_ne id j s.pending_proposals other,
          update_ne s.proposals id j (clear_proposal (s.proposals id)) other,
        ),
      )

module _ {W : Type 0} (peers : Peers W) where
  apply_permission :
      (s : MulSig) (p : Proposal) (w : W)
      → p.kind ≡ 1
      → apply_proposal peers s p w ≡ change_permission peers (permission p.name) p.add w
  unfolding apply_proposal
  apply_permission s p w kind = rw kind refl

  change_permission_fmd :
      (name : Text) (account : Address) (w : W)
      → name ≡ codes "FMD"
      → change_permission peers (permission name) account w
        ≡ peers.revoke_role foundation_manager account w
  unfolding change_permission permission
  change_permission_fmd name account w e = rw (e, text_eq_refl (codes "FMD")) refl

  -- A foundation manager's execution, once the time has come: the effect, then the second check of
  -- the caller's role, then the removal.
  pub execute_proposal_due :
      (id : ℕ) (ctx : Ctx) (w : W) (s : MulSig)
      → peers.has_role w foundation_manager ctx.sender ≡ true
      → (s.proposals id).execute_time ≤ ctx.timestamp
      → execute_proposal peers id ctx w s ≡ (
          apply_proposal peers s (s.proposals id) w >>= λ w'.
          delete_proposals peers id ctx w' s >>= λ s'. done (s', w'))
  unfolding execute_proposal only_foundation_manager
  execute_proposal_due id ctx w s role due = rw (role, le→leb _ _ due) refl

  -- Before the execution time every execution by a foundation manager is refused.
  pub execute_proposal_early :
      (id : ℕ) (ctx : Ctx) (w : W) (s : MulSig)
      → peers.has_role w foundation_manager ctx.sender ≡ true
      → ctx.timestamp < (s.proposals id).execute_time
      → execute_proposal peers id ctx w s ≡ revert (codes "executeTime not meet")
  unfolding execute_proposal only_foundation_manager
  execute_proposal_early id ctx w s role early = rw (role, lt→leb _ _ early) refl

  -- An execution that succeeds has applied the proposal, in time, by a foundation manager who still
  -- is one. In a valid state it takes a pending id off the list for good and clears its count, and
  -- leaves the other proposals as they are, pending or not.
  pub execute_proposal_effect :
      (id : ℕ) (ctx : Ctx) (w w' : W) (s s' : MulSig)
      → IsValid s
      → is_pending id s.pending_proposals ≡ true
      → execute_proposal peers id ctx w s ≡ done (s', w')
      → (peers.has_role w foundation_manager ctx.sender ≡ true)
        × (peers.has_role w' foundation_manager ctx.sender ≡ true)
        × ((s.proposals id).execute_time ≤ ctx.timestamp)
        × (apply_proposal peers s (s.proposals id) w ≡ done w')
        × (is_pending id s'.pending_proposals ≡ false)
        × (get_signature_count id s' ≡ 0)
        × ((j : ℕ)
            → j ≢ id
            → (is_pending j s'.pending_proposals ≡ is_pending j s.pending_proposals)
              × (s'.proposals j ≡ s.proposals j))
  unfolding execute_proposal delete_proposals only_foundation_manager
  execute_proposal_effect id ctx w w' s s' v pending h =
      let p = s.proposals id in
      let allowed = >>=-eq-done (only_foundation_manager peers ctx w) _ h in
      let due =
        >>=-eq-done (require (leb p.execute_time ctx.timestamp) (codes "executeTime not meet")) _
          allowed.2 in
      let applied = >>=-eq-done (apply_proposal peers s p w) _ due.2 in
      let deleted = >>=-eq-done (delete_proposals peers id ctx applied.0 s) _ applied.2 in
      let again = >>=-eq-done (only_foundation_manager peers ctx applied.0) _ deleted.1 in
      let same : applied.0 ≡ w' = ap (λ (t : MulSig × W). t.1) (done-injective deleted.2) in
      let removed : remove_proposal id s ≡ s' =
        done-injective again.2 ∙ ap (λ (t : MulSig × W). t.0) (done-injective deleted.2) in
      let rest = remove_pending id s v pending in
      (
        require-eq-done _ _ allowed.1,
        rw (← same) (require-eq-done _ _ again.1),
        leb→le _ _ (require-eq-done _ _ due.1),
        rw (← same) applied.1,
        rw (← removed) rest.0,
        rw (← removed) rest.1,
        rw (← removed) rest.2,
      )

  -- A foundation manager cannot execute the proposal that removes itself: the second check of its
  -- role refuses, and nothing changes.
  pub execute_proposal_self_removal :
      (id : ℕ) (ctx : Ctx) (w w' : W) (s : MulSig)
      → (s.proposals id).kind ≡ 1
      → (s.proposals id).name ≡ codes "FMD"
      → (s.proposals id).add ≡ ctx.sender
      → (s.proposals id).execute_time ≤ ctx.timestamp
      → peers.has_role w foundation_manager ctx.sender ≡ true
      → peers.revoke_role foundation_manager ctx.sender w ≡ done w'
      → peers.has_role w' foundation_manager ctx.sender ≡ false
      → execute_proposal peers id ctx w s ≡ revert (codes "only foundation manager")
  unfolding delete_proposals only_foundation_manager
  execute_proposal_self_removal id ctx w w' s kind name account due role revoked gone =
      rw (execute_proposal_due id ctx w s role due) (
        rw
          (
            apply_permission s (s.proposals id) w kind,
            change_permission_fmd (s.proposals id).name (s.proposals id).add w name,
            account,
            revoked,
            gone,
          )
          refl)
