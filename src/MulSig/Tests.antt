-- ===== src/MulSig/Tests.antt =====
-- Runs of the multisig contract with three foundation managers.
use smart_contracts.Base.{
  ℕ, ◌+◌, ◌/◌, ◌≤◌, ◌≡◌, ◌≢◌, refl, true, false, List, [], ◌∷◌, arith, ◌==◌, if◌then◌else◌, codes,
  text_eq, length,
}
use smart_contracts.MulSig.State.{
  done, revert, Address, Proposal, empty_proposal, MulSig, Ctx, update, checked_add, contains,
  Peers,
}
use smart_contracts.MulSig.Propose.{
  only_foundation_manager, create_proposal, propose_to_manage_permission, sign_transaction, stamp,
  get_signature_count,
}
use smart_contracts.MulSig.Execute.{
  delete_loop, pop, clear_proposal, remove_proposal, permission, change_permission, apply_proposal,
  delete_proposals, execute_proposal,
}
use smart_contracts.MulSig.Delete.{erase, is_pending, remove_proposal_lem}
use smart_contracts.MulSig.Invariant.{IsValid}
use smart_contracts.MulSig.Initialize.{initialize, initialize-IsValid}
use smart_contracts.MulSig.Reach.{Reach, here, next, proposed, sign, Reach-IsValid}
use smart_contracts.MulSig.Request.{manage_permission, propose}
use smart_contracts.MulSig.Waiting.{sign-execute_waits}
use smart_contracts.MulSig.Executing.{execute_proposal_effect, execute_proposal_self_removal}

-- The list without an address.
abbrev without : Address → List Address → List Address
without a [] = []
without a (x ∷ xs) = if a == x then without a xs else x ∷ without a xs

-- The peers as the list of the foundation managers, with the threshold of Governance.
abbrev pub peers : Peers (List Address)
peers = record {
  has_role = λ w role a. contains w a;
  fm_threshold = λ w. length w / 2 + 1;
  get_treasure_by_kind = λ w kind. done (7, 8);
  grant_role = λ role a w. done (a ∷ w);
  revoke_role = λ role a w. done (without a w);
  add_treasure = λ name a b w. done w;
  set_platform_config = λ name n w. done w;
  set_price_discount_config = λ c w. done w;
  register_dapp_connect = λ a t p w. done w;
  set_crosschain_token = λ c w. done w;
}

abbrev pub managers : List Address
managers = 1 ∷ 2 ∷ 3 ∷ []

abbrev pub by : Address → ℕ → Ctx
by a time = record { sender = a; timestamp = time }

abbrev pub fresh : MulSig
fresh = record {
  proposals = λ _. empty_proposal;
  pending_proposals = [];
  proposal_idx = 0;
  confirm_duration = 100;
  dao = 5;
  governance = 6;
  parameter_info = 7;
  roles = 8;
  crosschain_tokens = 9;
}

-- A proposal that makes 5 a foundation manager, and one that removes the manager 1.
abbrev pub adding : Proposal
adding = record empty_proposal {
  proposer = 1;
  name = codes "FMA";
  add = 5;
  kind = 1;
  signature_count = 0;
}

abbrev removing : Proposal
removing = record empty_proposal {
  proposer = 1;
  name = codes "FMD";
  add = 1;
  kind = 1;
  signature_count = 0;
}

abbrev pub with_proposal : Proposal → MulSig
with_proposal p = record fresh {
  proposals = update fresh.proposals 0 p;
  pending_proposals = 0 ∷ [];
  proposal_idx = 1;
}

abbrev signed_once : Proposal
signed_once = record adding { signatures = 2 ∷ []; signature_count = 1 }

abbrev pub signed_twice : Proposal
signed_twice = record adding { signatures = 3 ∷ 2 ∷ []; signature_count = 2; execute_time = 150 }

abbrev executed : MulSig
executed = record (with_proposal adding) {
  proposals =
      update (update fresh.proposals 0 adding) 0 (record empty_proposal { signatures = [] });
  pending_proposals = [];
}

fresh-IsValid : IsValid fresh
unfolding initialize
fresh-IsValid = initialize-IsValid 5 6 8 7 9 100

pub propose_run :
    propose_to_manage_permission peers (codes "FMA") 5 (by 1 0) managers fresh
    ≡ done (with_proposal adding, 0)
unfolding propose_to_manage_permission only_foundation_manager create_proposal checked_add codes
propose_run = refl

sign_run :
    sign_transaction peers 0 (by 2 10) managers (with_proposal adding)
    ≡ done (record (with_proposal adding) {
      proposals = update (with_proposal adding).proposals 0 signed_once;
    })
unfolding sign_transaction only_foundation_manager stamp checked_add codes
sign_run = refl

execute_run :
    execute_proposal peers 0 (by 1 0) managers (with_proposal adding)
    ≡ done (executed, 5 ∷ managers)
unfolding execute_proposal delete_proposals only_foundation_manager remove_proposal delete_loop pop
    clear_proposal apply_proposal change_permission permission codes text_eq
execute_run = refl

abbrev after_signing : MulSig
after_signing = record (with_proposal adding) {
  proposals = update (with_proposal adding).proposals 0 signed_once;
}

reached : Reach peers fresh managers after_signing managers
unfolding propose
reached =
    next (next here (proposed (manage_permission (codes "FMA") 5) (by 1 0) 0 propose_run))
      (sign 0 (by 2 10) sign_run)

Reach-IsValid_example : IsValid after_signing
Reach-IsValid_example = Reach-IsValid peers fresh-IsValid reached

with_proposal-IsValid : IsValid (with_proposal adding)
unfolding propose
with_proposal-IsValid =
    Reach-IsValid peers {w' = managers} fresh-IsValid
      (next here (proposed (manage_permission (codes "FMA") 5) (by 1 0) 0 propose_run))

remove_proposal_lem_example : remove_proposal 0 (with_proposal adding) ≡ (
    if is_pending 0 (0 ∷ [])
    then record (with_proposal adding) {
      pending_proposals = erase 0 (0 ∷ []);
      proposals = update (with_proposal adding).proposals 0 (clear_proposal adding);
    }
    else with_proposal adding)
remove_proposal_lem_example = remove_proposal_lem 0 (with_proposal adding)

abbrev after_second : MulSig
after_second = record after_signing { proposals = update after_signing.proposals 0 signed_twice }

second_run : sign_transaction peers 0 (by 3 50) managers after_signing ≡ done after_second
unfolding sign_transaction only_foundation_manager stamp checked_add codes
second_run = refl

sign-execute_waits_example :
    execute_proposal peers 0 (by 1 149) managers after_second
    ≡ revert (codes "executeTime not meet")
unfolding get_signature_count
sign-execute_waits_example =
    sign-execute_waits peers 0 (by 3 50) (by 1 149) managers managers after_signing after_second
      second_run (omega arith) refl (omega arith)

execute_proposal_effect_example :
    (contains managers 1 ≡ true)
    × (contains (5 ∷ managers) 1 ≡ true)
    × (0 ≤ 0)
    × (apply_proposal peers (with_proposal adding) adding managers ≡ done (5 ∷ managers))
    × (is_pending 0 executed.pending_proposals ≡ false)
    × (get_signature_count 0 executed ≡ 0)
    × ((j : ℕ)
        → j ≢ 0
        → (is_pending j executed.pending_proposals ≡ is_pending j (0 ∷ []))
          × (executed.proposals j ≡ (with_proposal adding).proposals j))
execute_proposal_effect_example =
    execute_proposal_effect peers 0 (by 1 0) managers (5 ∷ managers) (with_proposal adding) executed
      with_proposal-IsValid refl execute_run

execute_proposal_self_removal_example :
    execute_proposal peers 0 (by 1 0) managers (with_proposal removing)
    ≡ revert (codes "only foundation manager")
execute_proposal_self_removal_example =
    execute_proposal_self_removal peers 0 (by 1 0) managers (2 ∷ 3 ∷ []) (with_proposal removing)
      refl refl refl (omega arith) refl refl refl
