-- ===== src/Proposing/Check.antt =====
-- scripts/check-proposal.js: what it reports of a proposal.
use smart_contracts.Base.{
  ℕ, suc, zero, ◌-◌, ◌+◌, Bool, Option, none, some, List, [], ◌∷◌, leb, if◌then◌else◌, Text, codes,
}
use smart_contracts.Script.{Script, pure, exit_with, try_catch, ◌>>=◌, ◌>>◌}
use smart_contracts.Script.Loop.{each}
use smart_contracts.Web3.{NodeApi, MulSigApi, excute_time_exceeds}
use smart_contracts.Proposing.Api.{ChainApi}

-- The status that is reported: so many signatures missing, a time to wait for, ready, or no
-- details.
pub data Status : Type 0 where
  needs_signatures : ℕ → Status
  waiting : Status
  ready : Status
  gone : Status

pub record Report : Type 0 where
  pub signature_count : ℕ
  pub threshold : ℕ
  pub signed : List (Text × Bool)
  pub status : Status
  pub pending : Option (List ℕ)

-- The numbers from `i` on, `n` of them.
unfoldable pub indices : ℕ → ℕ → List ℕ
indices zero i = []
indices (suc n) i = i ∷ indices n (i + 1)

module _ {W : Type 0} (proposal_id : ℕ) (node : NodeApi W) (mulsig : MulSigApi W)
    (chain : ChainApi W) where
  unfoldable pub member_status : Text → ℕ → Script W (Text × Bool)
  member_status role i = do
    manager ← chain.role_member role i
    signed ← mulsig.has_already_signed proposal_id manager
    pure (manager, signed)

  -- With enough signatures: the time that is read is `NaN`.
  unfoldable pub time_status : Script W Status
  time_status =
      try_catch
        (do
          details ← mulsig.transaction_details proposal_id
          current_time ← node.now
          pure (if excute_time_exceeds details current_time then waiting else ready))
        (λ _. pure gone)

  unfoldable pub proposal_status : ℕ → ℕ → Script W Status
  proposal_status count threshold =
      if leb threshold count then time_status else pure (needs_signatures (threshold - count))

  unfoldable pub check_proposal : Script W Report
  check_proposal =
      try_catch
        (do
          chain.load_abi (codes "MulSig")
          chain.load_abi (codes "Roles")
          chain.load_abi (codes "Governance")
          try_catch (mulsig.transaction_details proposal_id >>= λ _. pure tt) (λ _. pure tt)
          count ← mulsig.get_signature_count proposal_id
          threshold ← chain.fm_threshold
          role ← chain.foundation_manager
          members ← chain.role_member_count role
          signed ← each (member_status role) (indices members 0)
          status ← proposal_status count threshold
          pending ← try_catch (chain.pending_proposals >>= λ ids. pure (some ids)) (λ _. pure none)
          pure (record {
            signature_count = count;
            threshold = threshold;
            signed = signed;
            status = status;
            pending = pending;
          }))
        (λ _. exit_with 1)
