-- ===== src/Governance/Tests.antt =====
-- Runs of the contracts that the multisig contract governs; the multisig contract's address is 9.
use smart_contracts.Base.{ℕ, ◌≡◌, ◌≤◌, ◌<◌, refl, List, [], ◌∷◌, arith, codes, text_eq, length}
use smart_contracts.MulSig.{Address, Ctx, Proposal, MulSig, empty_proposal, update, contains, done}
use smart_contracts.Governance.Parameters.{
  Parameters, initialize, price_discount, set_key, set_platform_config, pledge_rate_warning_value,
  loan_liquidation_rate,
}
use smart_contracts.Governance.Ranges.{IsValid, initialize-IsValid, margin_call_below_liquidation}
use smart_contracts.Governance.Calls.{Call, platform, after, after-IsValid}
use smart_contracts.Governance.Discount.{price_discount_monotone}
use smart_contracts.Governance.Treasury.{Treasury, set_treasure}
use smart_contracts.Governance.Roles.{AccessApi}
use smart_contracts.Governance.Contracts.{Contracts}

abbrev by : Address → Ctx
by a = record { sender = a; timestamp = 0 }

abbrev calls : List (Call × Ctx)
calls =
    (platform (codes "TCASHMCT") 1900000, by 9)
    ∷ (platform (codes "TCASHLT") 1800000, by 9)
    ∷ (platform (codes "TCASHMCT") 3000000, by 9)
    ∷ (platform (codes "loanPledgeRate") 20000, by 4)
    ∷ []

after-IsValid_example :
    IsValid (after calls (initialize 9))
    × (loan_liquidation_rate (after calls (initialize 9))
        ≤ pledge_rate_warning_value (after calls (initialize 9)))
after-IsValid_example = after-IsValid calls (initialize 9) (initialize-IsValid 9)

abbrev raised : Parameters
raised = record (initialize 9) {
  platform_config = set_key (initialize 9).platform_config (codes "TCASHLT") 700000;
}

margin_call_below_liquidation_example :
    (s' : Parameters) × (set_platform_config (codes "TCASHMCT") 600000 (by 9) raised ≡ done s')
    × (s'.platform_config (codes "TCASHMCT") < s'.platform_config (codes "TCASHLT"))
unfolding initialize set_key text_eq codes
margin_call_below_liquidation_example =
    margin_call_below_liquidation 600000 (by 9) raised refl (omega arith) (omega arith)
      (omega arith)

-- Access control with one list of members for every role.
abbrev access : AccessApi (List Address)
access = record {
  has_role = λ r role a. contains r a;
  get_role_member_count = λ r role. length r;
  get_role_member = λ r role i. 1;
  grant_role = λ role a ctx r. done (a ∷ r);
  revoke_role = λ role a ctx r. done r;
  setup_role = λ role a r. a ∷ r;
  set_role_admin = λ role admin r. r;
}

abbrev treasury : Treasury
treasury = record {
  treasures = λ _. record { producer_contract = 0; production_data_contract = 0 };
  mul_sig = 9;
}

abbrev world : Contracts (List Address)
world = record {
  roles = 1 ∷ [];
  treasury = treasury;
  parameters = initialize 9;
  tokens = record { tokens = λ _. λ _. empty_proposal.crosschain; mul_sig = 9; owner = 1 };
  producers = λ _. record { dapps = λ _. λ _. 0; mul_sig = 9 };
  mul_sig = 9;
}

-- A proposal for the producer of gold.
abbrev gold : Proposal
gold = record empty_proposal {
  proposer = 1;
  name = codes "GOLD";
  producer = 20;
  production_data = 21;
  kind = 2;
  signature_count = 0;
}

abbrev proposed : MulSig
proposed = record {
  proposals = update (λ _. empty_proposal) 0 gold;
  pending_proposals = 0 ∷ [];
  proposal_idx = 1;
  confirm_duration = 100;
  dao = 5;
  governance = 6;
  parameter_info = 7;
  roles = 8;
  crosschain_tokens = 9;
}

abbrev with_gold : Contracts (List Address)
with_gold = record world {
  treasury = record treasury {
    treasures =
        set_treasure treasury.treasures (codes "GOLD")
          (record { producer_contract = 20; production_data_contract = 21 });
  };
}

price_discount_monotone_example :
    (d d' : ℕ) × (price_discount 3000 600 (initialize 9) ≡ done d)
    × (price_discount 4000 100 (initialize 9) ≡ done d')
    × (d ≤ d')
    × (d' ≤ 10000)
price_discount_monotone_example =
    price_discount_monotone 3000 4000 600 100 (initialize 9) (initialize-IsValid 9) (omega arith)
      (omega arith) (omega arith) (omega arith)
