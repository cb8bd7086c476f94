-- ===== src/Proposing/Tests.antt =====
-- Runs of the proposal scripts over the multisig contract as the world.
use smart_contracts.Base.{
  ◌≤◌, ◌<◌, ◌^◌, length, ◌≡◌, ap, refl, true, none, some, map, List, [], ◌∷◌, arith, Text, codes,
  text_eq,
}
use smart_contracts.Script.{Outcome, ok, err}
use smart_contracts.MulSig
use smart_contracts.MulSig.{MulSig, done, revert}
use smart_contracts.MulSig.Tests.{peers, managers, with_proposal, signed_twice, adding}
use smart_contracts.Web3.{Receipt, MulSigApi}
use smart_contracts.Web3.Samples.{receipt, node, address_of, api, api_reads}
use smart_contracts.Proposing.Api.{ChainApi}
use smart_contracts.Proposing.Execute
use smart_contracts.Proposing.Register
use smart_contracts.Proposing.Multisig
use smart_contracts.Proposing.Crosschain.{sign_all}
use smart_contracts.Proposing.Collect.{
  sent_by, SignsContract, AllManagers, AllSettled, sign_all_settles,
}
use smart_contracts.Proposing.Check
use smart_contracts.Proposing.Status.{check_proposal_reports}

abbrev chain : ChainApi MulSig
chain = record {
  load_abi = λ name w. (ok tt, w);
  add_account = λ key w. (ok (codes "0x0b"), w);
  foundation_manager = λ w. (ok (codes "FM"), w);
  has_role = λ role a w. (ok true, w);
  role_member_count = λ role w. (ok 2, w);
  role_member = λ role i w. (ok (codes "0x0b"), w);
  role_member_array = λ role w. (ok (codes "0x0b" ∷ []), w);
  producer_of = λ kind w. (ok (codes "0x01"), w);
  fm_threshold = λ w. (ok 2, w);
  pending_proposals = λ w. (ok w.pending_proposals, w);
  propose_to_register_dapp = λ kind name payee from w. (ok 0, w);
  propose_to_set_crosschain_token = λ params from w. (ok receipt, w);
  sign_transaction = λ id from w. (ok receipt, w);
  estimate_execute_proposal = λ id from w. (ok 90000, w);
  execute_proposal = λ id from gas price w. (ok receipt, w);
  crosschain_token_by_chain_id = λ token id w. (ok token, w);
  sleep = λ ms w. w;
  increase_time = λ s w. (ok tt, w);
  mine = λ w. (ok tt, w);
}

abbrev executing : Execute.Config
executing = record {
  proposal_id = 0;
  executor_address = codes "0x0b";
  executor_private_key = codes "key";
}

abbrev registering : Register.Config
registering = record {
  treasure_kind = codes "OIL";
  dapp_name = codes "OTTER";
  payee_address = codes "0x0d";
  network_name = codes "development";
  mulsig_address = codes "0x09";
  roles_address = codes "0x08";
  governance_address = codes "0x07";
  private_key = codes "key";
}

abbrev build : Register.BuildApi MulSig
build = record { is_address = λ t. true; build_address = λ name id w. (ok none, w) }

abbrev two_managers : List Text
two_managers = codes "0x0b" ∷ codes "0x0c" ∷ []

sign_run :
    Register.sign_managers registering build node api chain 0
      (codes "0x0b")
      2
      two_managers
      0
      (with_proposal adding)
    ≡ (ok 1, with_proposal adding)
unfolding Register.sign_managers MulSig.has_already_signed text_eq codes
sign_run = refl

-- An account's address is the length of its name.
abbrev number : Text → MulSig.Address
number a = length a

abbrev numbered_api : MulSigApi MulSig
numbered_api = record api {
  has_already_signed = λ id a w. (ok (MulSig.has_already_signed id (number a) w), w);
}

-- What the node answers for a transaction of the contract.
abbrev answer : MulSig.Tx MulSig → MulSig → Outcome Receipt × MulSig
answer (done s) w = (ok receipt, s)
answer (revert reason) w = (err reason, w)

-- A signature that is sent is the contract's transaction at the time 10.
abbrev signing_chain : ChainApi MulSig
signing_chain = record chain {
  sign_transaction = λ id from w.
      answer (MulSig.sign_transaction peers id (sent_by (number from) 10) managers w) w;
}

signing_signs :
    SignsContract node numbered_api signing_chain peers managers (λ w. w) number (λ w. 10) 100
signing_signs = record {
  reads = record {
    reads_count = λ id w. refl;
    reads_signed = λ id a w. refl;
    reads_details = λ id w. refl;
  };
  prices = λ w. (1, refl);
  accepts = λ id from w s e. (receipt, s, ap (λ (t : MulSig.Tx MulSig). answer t w) e, refl);
  refuses = λ id from w reason e. (reason, ap (λ (t : MulSig.Tx MulSig). answer t w) e);
  fits = λ w. omega arith;
}

small : peers.fm_threshold managers < 2 ^ 8
small = omega arith

abbrev accounts : List Text
accounts = (0 ∷ []) ∷ (0 ∷ 0 ∷ []) ∷ []

accounts-AllManagers :
    AllManagers node numbered_api signing_chain peers managers
      (λ w. w)
      number
      (λ w. 10)
      100
      signing_signs
      small
      0
      accounts
unfolding AllManagers
accounts-AllManagers = (refl, (refl, tt))

sign_all_settles_example :
    (w' : MulSig) × (sign_all node numbered_api signing_chain 0 accounts (with_proposal adding)
      ≡ (ok tt, w'))
    × AllSettled node numbered_api signing_chain peers managers
        (λ w. w)
        number
        (λ w. 10)
        100
        signing_signs
        small
        0
        accounts
        w'
    × ((a : Text)
        → MulSig.has_already_signed 0 (number a) (with_proposal adding) ≡ true
        → MulSig.has_already_signed 0 (number a) w' ≡ true)
    × (MulSig.get_signature_count 0 (with_proposal adding) ≤ MulSig.get_signature_count 0 w')
sign_all_settles_example =
    sign_all_settles node numbered_api signing_chain peers managers (λ w. w) number (λ w. 10) 100
      signing_signs small 0 accounts (with_proposal adding) accounts-AllManagers refl

abbrev migrating : Multisig.Config
migrating = record {
  treasure_kind = codes "OIL";
  dapp_name = codes "OTTER";
  payee_address = codes "0x0d";
  network = codes "development";
}

-- Two have signed, the contract's execution time is 150, and the clock's is 100.
check_proposal_reports_example :
    Check.check_proposal 0 node api chain (with_proposal signed_twice) ≡ (
      ok (record {
        signature_count = 2;
        threshold = 2;
        signed =
            map
              (λ i. (codes "0x0b", MulSig.has_already_signed 0 2 (with_proposal signed_twice)))
              (Check.indices 2 0);
        status = Check.ready;
        pending = some ((with_proposal signed_twice).pending_proposals);
      }),
      with_proposal signed_twice,
    )
unfolding MulSig.get_signature_count
check_proposal_reports_example =
    check_proposal_reports 0 node api chain (λ w. w) address_of api_reads (λ w. (100, refl))
      (codes "FM") 2 2 (λ i. codes "0x0b") ((with_proposal signed_twice).pending_proposals)
      (with_proposal signed_twice) (λ name. refl) refl refl refl (λ i. refl) refl
