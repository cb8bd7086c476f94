-- ===== src/Proposing/Status.antt =====
-- The status that scripts/check-proposal.js reports.
use smart_contracts.Base.{
  ℕ, ◌-◌, ◌≡◌, refl, inl, inr, Bool, some, List, map, codes, Bool-cases, leb, if◌then◌else◌, arith,
  Text,
}
use smart_contracts.Script.{ok}
use smart_contracts.Script.Loop.{each, each-steady}
use smart_contracts.MulSig
use smart_contracts.MulSig.{MulSig, Address}
use smart_contracts.Web3
use smart_contracts.Web3.{NodeApi, MulSigApi, ReadsContract}
use smart_contracts.Proposing.Api.{ChainApi}
use smart_contracts.Proposing.Check

module _ {W : Type 0} (id : ℕ) (node : NodeApi W) (mulsig : MulSigApi W) (chain : ChainApi W)
    (contract : W → MulSig) (address_of : Text → Address)
    (reads : ReadsContract mulsig contract address_of)
    (clock : (w : W) → (t : ℕ) × (node.now w ≡ (ok t, w))) where
  abbrev expected : ℕ → ℕ → Check.Status
  expected count threshold =
      if leb threshold count then Check.ready else Check.needs_signatures (threshold - count)

  time_status_ready : (w : W) → Check.time_status id node mulsig chain w ≡ (ok Check.ready, w)
  unfolding Check.time_status Web3.excute_time_exceeds Web3.excute_time
  time_status_ready w =
      let detailed = reads.reads_details id w in let (t, told) = clock w in ground arith

  proposal_status_lem :
      (count threshold : ℕ) (w : W)
      → Check.proposal_status id node mulsig chain count threshold w
        ≡ (ok (expected count threshold), w)
  unfolding Check.proposal_status
  proposal_status_lem count threshold w =
      let timed = time_status_ready w in
      elim (Bool-cases (leb threshold count)) [
        | inl enough ↦ rw enough timed
        | inr few ↦ rw few refl
      ]

  -- What the script tells of the foundation manager at `i`.
  abbrev told : (ℕ → Text) → W → ℕ → Text × Bool
  told member w i = (member i, MulSig.has_already_signed id (address_of (member i)) (contract w))

  members_told :
      (role : Text) (member : ℕ → Text) (is : List ℕ) (w : W)
      → ((i : ℕ) → chain.role_member role i w ≡ (ok (member i), w))
      → each (Check.member_status id node mulsig chain role) is w ≡ (ok (map (told member w) is), w)
  unfolding Check.member_status
  members_told role member is w named =
      each-steady (Check.member_status id node mulsig chain role) (told member w) is w
        λ i. let found = named i in let asked = reads.reads_signed id (member i) w in ground arith

  -- With a clock and contracts that answer, the script ends with a report and changes nothing. The
  -- report has the contract's number of signatures, says of each foundation manager, in order,
  -- whether it has signed, and calls the proposal ready as soon as the threshold is reached, at any
  -- time, and else says how many signatures are missing.
  pub check_proposal_reports :
      (role : Text) (threshold members : ℕ) (member : ℕ → Text) (ids : List ℕ) (w : W)
      → ((name : Text) → chain.load_abi name w ≡ (ok tt, w))
      → chain.fm_threshold w ≡ (ok threshold, w)
      → chain.foundation_manager w ≡ (ok role, w)
      → chain.role_member_count role w ≡ (ok members, w)
      → ((i : ℕ) → chain.role_member role i w ≡ (ok (member i), w))
      → chain.pending_proposals w ≡ (ok ids, w)
      → let count = MulSig.get_signature_count id (contract w) in
        Check.check_proposal id node mulsig chain w ≡ (
          ok (record {
            signature_count = count;
            threshold = threshold;
            signed =
                map
                  (λ i.
                    (member i, MulSig.has_already_signed id (address_of (member i)) (contract w)))
                  (Check.indices members 0);
            status =
                if leb threshold count
                then Check.ready
                else Check.needs_signatures (threshold - count);
            pending = some ids;
          }),
          w,
        )
  unfolding Check.check_proposal
  check_proposal_reports role threshold members member ids w loads required named counted found
        pending =
      let first = loads (codes "MulSig") in
      let second = loads (codes "Roles") in
      let third = loads (codes "Governance") in
      let count = MulSig.get_signature_count id (contract w) in
      let detailed = reads.reads_details id w in
      let read = reads.reads_count id w in
      let all = members_told role member (Check.indices members 0) w found in
      let known = proposal_status_lem count threshold w in ground arith
