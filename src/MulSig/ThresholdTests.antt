-- ===== src/MulSig/ThresholdTests.antt =====
-- Runs of requests and signatures on the peers of Tests.
use smart_contracts.Base.{
  ℕ, ◌+◌, ◌≡◌, refl, true, List, [], ◌∷◌, arith, leb, if◌then◌else◌, codes, text_eq,
}
use smart_contracts.MulSig.State.{
  done, revert, Address, empty_proposal, MulSig, update, checked_add,
}
use smart_contracts.MulSig.Propose.{
  only_foundation_manager, create_proposal, propose_to_manage_permission, sign_transaction, stamp,
  get_signature_count, has_already_signed,
}
use smart_contracts.MulSig.Execute.{
  remove_proposal, permission, change_permission, apply_proposal, execute_proposal,
}
use smart_contracts.MulSig.Request.{manage_permission, propose, sign-propose_lost}
use smart_contracts.MulSig.Threshold.{sent, sign_each, propose-sign-execute}
use smart_contracts.MulSig.Tests.{peers, managers, by, fresh, adding, with_proposal, propose_run}

-- The manager 2 signs the id 0 before there is a proposal.
abbrev presigned : MulSig
presigned = record fresh {
  proposals =
      update fresh.proposals 0 (record empty_proposal { signatures = 2 ∷ []; signature_count = 1 });
}

abbrev proposed_after : MulSig
proposed_after = record presigned {
  proposals = update presigned.proposals 0 (record adding { signatures = 2 ∷ [] });
  pending_proposals = 0 ∷ [];
  proposal_idx = 1;
}

presign_run : sign_transaction peers 0 (by 2 10) managers fresh ≡ done presigned
unfolding sign_transaction only_foundation_manager stamp checked_add codes
presign_run = refl

propose_after_run :
    propose peers (manage_permission (codes "FMA") 5) (by 1 0) managers presigned
    ≡ done (proposed_after, 0)
unfolding propose propose_to_manage_permission only_foundation_manager create_proposal checked_add
    codes
propose_after_run = refl

sign-propose_lost_example :
    (◌≡◌ {A = ℕ} 0 fresh.proposal_idx)
    × (get_signature_count 0 proposed_after ≡ 0)
    × (has_already_signed 0 2 proposed_after ≡ true)
    × ((time : ℕ) (w₂ : List Address) (s₃ : MulSig)
        → ¬ (sign_transaction peers 0 (by 2 time) w₂ proposed_after ≡ done s₃))
sign-propose_lost_example =
    sign-propose_lost peers (manage_permission (codes "FMA") 5) (by 2 10) (by 1 0) managers managers
      fresh presigned proposed_after 0 presign_run propose_after_run

propose-sign-execute_example :
    (s₂ : MulSig) × (sign_each peers 0 50 managers (2 ∷ 3 ∷ []) (with_proposal adding) ≡ done s₂)
    × (get_signature_count 0 s₂ ≡ 2)
    × ((t : ℕ)
        → execute_proposal peers 0 (sent 1 t) managers s₂ ≡ (
            if leb (50 + 100) t
            then done (remove_proposal 0 s₂, 5 ∷ managers)
            else revert (codes "executeTime not meet")))
unfolding propose apply_proposal change_permission permission codes text_eq
propose-sign-execute_example =
    propose-sign-execute peers 0 (manage_permission (codes "FMA") 5) (by 1 0) 50 1 (2 ∷ 3 ∷ [])
      managers (5 ∷ managers) fresh (with_proposal adding) propose_run refl (refl, (refl, tt))
      (refl, (refl, tt)) refl (omega arith) (omega arith) (omega arith) refl refl refl
