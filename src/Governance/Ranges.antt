-- ===== src/Governance/Ranges.antt =====
-- The ranges of the parameters of contracts/Governance/ParameterInfo.sol, which every call keeps.
use smart_contracts.Base.{
  ℕ, ◌≤◌, ◌<◌, ◌≡◌, inl, inr, true, Bool-cases, arith, Text, codes, text_eq, text_eq→eq,
}
use mathlib.Core.Path.{subst}
use native.Mathlib.Nat.{mul-le-mul_left}
use smart_contracts.MulSig.{Address, Ctx, PriceDiscountConfig, done, >>=-eq-done}
use smart_contracts.Governance.Parameters.{
  Parameters, set_key, initialize, only_mul_sig, set_by_key, set_platform_config,
  set_price_discount_config, pledge_rate_warning_value, loan_liquidation_rate,
}

-- The parameter at `key` lies between the two bounds.
abbrev Between : Parameters → Text → ℕ → ℕ → Type 0
Between s key low high = (low ≤ s.platform_config key) × (s.platform_config key ≤ high)

-- Every parameter lies in its range. The liquidation threshold of TCash has the range of the margin
-- call threshold as its upper bound.
pub record IsValid (s : Parameters) : Type 0 where
  pub margin : s.platform_config (codes "marginRatio") ≤ 10000
  pub reserve : s.platform_config (codes "reserveRatio") ≤ 10000
  pub interest : s.platform_config (codes "loanInterestRate") ≤ 100
  pub pledge : Between s (codes "loanPledgeRate") 12000 66600
  pub liquidation : (9000 ≤ s.liquidation_ratio) × (s.liquidation_ratio ≤ 9900)
  pub warning : s.warn_ratio ≡ 9900
  pub daily_interest : Between s (codes "TCASHDIR") 1 1000
  pub margin_call : Between s (codes "TCASHMCT") 500001 2000000
  pub tcash_liquidation : Between s (codes "TCASHLT") 400001 2000000
  pub repayment : Between s (codes "TCASHRC") 1 1000
  pub mint_lock : Between s (codes "TCASHMLT") 1 10000
  pub mint_reset : Between s (codes "TCASHMRST") 10001 20000
  pub api : s.price_discount_config.api ≤ 10000
  pub sulphur : s.price_discount_config.sulphur ≤ 10000
  pub discount : s.price_discount_config.discount0 ≤ 10000
  pub falling :
      (s.price_discount_config.discount1 < s.price_discount_config.discount0)
      × (s.price_discount_config.discount2 < s.price_discount_config.discount1)
      × (s.price_discount_config.discount3 < s.price_discount_config.discount2)

pub initialize-IsValid : (mul_sig : Address) → IsValid (initialize mul_sig)
unfolding initialize set_key text_eq codes
initialize-IsValid mul_sig = omega arith

-- One lemma for each key: a value that is accepted is in range, and the other keys stay.
module _ (amount : ℕ) (s s' : Parameters) (v : IsValid s) where
  margin_kept : set_by_key (codes "marginRatio") amount s ≡ done s' → IsValid s'
  unfolding set_by_key set_key text_eq codes
  margin_kept e = ground arith

  reserve_kept : set_by_key (codes "reserveRatio") amount s ≡ done s' → IsValid s'
  unfolding set_by_key set_key text_eq codes
  reserve_kept e = ground arith

  interest_kept : set_by_key (codes "loanInterestRate") amount s ≡ done s' → IsValid s'
  unfolding set_by_key set_key text_eq codes
  interest_kept e = ground arith

  pledge_kept : set_by_key (codes "loanPledgeRate") amount s ≡ done s' → IsValid s'
  unfolding set_by_key set_key text_eq codes
  pledge_kept e = ground arith

  liquidation_kept : set_by_key (codes "liquidationRatio") amount s ≡ done s' → IsValid s'
  unfolding set_by_key set_key text_eq codes
  liquidation_kept e = ground arith

  daily_interest_kept : set_by_key (codes "TCASHDIR") amount s ≡ done s' → IsValid s'
  unfolding set_by_key set_key text_eq codes
  daily_interest_kept e = ground arith

  margin_call_kept : set_by_key (codes "TCASHMCT") amount s ≡ done s' → IsValid s'
  unfolding set_by_key set_key text_eq codes
  margin_call_kept e = ground arith

  tcash_liquidation_kept : set_by_key (codes "TCASHLT") amount s ≡ done s' → IsValid s'
  unfolding set_by_key set_key text_eq codes
  tcash_liquidation_kept e = ground arith

  repayment_kept : set_by_key (codes "TCASHRC") amount s ≡ done s' → IsValid s'
  unfolding set_by_key set_key text_eq codes
  repayment_kept e = ground arith

  mint_lock_kept : set_by_key (codes "TCASHMLT") amount s ≡ done s' → IsValid s'
  unfolding set_by_key set_key text_eq codes
  mint_lock_kept e = ground arith

  mint_reset_kept : set_by_key (codes "TCASHMRST") amount s ≡ done s' → IsValid s'
  unfolding set_by_key set_key text_eq codes
  mint_reset_kept e = ground arith

  abbrev Kept : Text → Type 0
  Kept key = set_by_key key amount s ≡ done s' → IsValid s'

  -- A lemma for one key serves every key that compares equal to it.
  at_key : (key k : Text) → text_eq key k ≡ true → Kept k → Kept key
  at_key key k same kept e =
      kept (subst (λ t. set_by_key t amount s ≡ done s') (text_eq→eq key k same) e)

  set_by_key-IsValid : (key : Text) → Kept key
  unfolding set_by_key
  set_by_key-IsValid key e = elim (Bool-cases (text_eq key (codes "marginRatio"))) [
    | inl same ↦ at_key key (codes "marginRatio") same margin_kept e
    | inr other_margin ↦ elim (Bool-cases (text_eq key (codes "reserveRatio"))) [
      | inl same ↦ at_key key (codes "reserveRatio") same reserve_kept e
      | inr other_reserve ↦ elim (Bool-cases (text_eq key (codes "loanInterestRate"))) [
        | inl same ↦ at_key key (codes "loanInterestRate") same interest_kept e
        | inr other_interest ↦ elim (Bool-cases (text_eq key (codes "loanPledgeRate"))) [
          | inl same ↦ at_key key (codes "loanPledgeRate") same pledge_kept e
          | inr other_pledge ↦ elim (Bool-cases (text_eq key (codes "liquidationRatio"))) [
            | inl same ↦ at_key key (codes "liquidationRatio") same liquidation_kept e
            | inr other_liquidation ↦ elim (Bool-cases (text_eq key (codes "TCASHDIR"))) [
              | inl same ↦ at_key key (codes "TCASHDIR") same daily_interest_kept e
              | inr other_daily_interest ↦ elim (Bool-cases (text_eq key (codes "TCASHMCT"))) [
                | inl same ↦ at_key key (codes "TCASHMCT") same margin_call_kept e
                | inr other_margin_call ↦ elim (Bool-cases (text_eq key (codes "TCASHLT"))) [
                  | inl same ↦ at_key key (codes "TCASHLT") same tcash_liquidation_kept e
                  | inr other_tcash_liquidation ↦
                      elim (Bool-cases (text_eq key (codes "TCASHRC"))) [
                        | inl same ↦ at_key key (codes "TCASHRC") same repayment_kept e
                        | inr other_repayment ↦ elim (Bool-cases (text_eq key (codes "TCASHMLT"))) [
                          | inl same ↦ at_key key (codes "TCASHMLT") same mint_lock_kept e
                          | inr other_mint_lock ↦
                              elim (Bool-cases (text_eq key (codes "TCASHMRST"))) [
                                | inl same ↦ at_key key (codes "TCASHMRST") same mint_reset_kept e
                                | inr other_mint_reset ↦ absurd (ground arith)
                              ]
                        ]
                      ]
                ]
              ]
            ]
          ]
        ]
      ]
    ]
  ]

-- Every call of setPlatformConfig that succeeds keeps all parameters in their ranges.
pub set_platform_config-IsValid :
    (key : Text) (amount : ℕ) (ctx : Ctx) (s s' : Parameters)
    → IsValid s
    → set_platform_config key amount ctx s ≡ done s'
    → IsValid s'
unfolding set_platform_config
set_platform_config-IsValid key amount ctx s s' v e =
    let (u, checked, set) = >>=-eq-done (only_mul_sig ctx s) (λ _. set_by_key key amount s) e in
    set_by_key-IsValid amount s s' v key set

pub set_price_discount_config-IsValid :
    (c : PriceDiscountConfig) (ctx : Ctx) (s s' : Parameters)
    → IsValid s
    → set_price_discount_config c ctx s ≡ done s'
    → IsValid s'
unfolding set_price_discount_config only_mul_sig
set_price_discount_config-IsValid c ctx s s' v e = ground arith

-- The margin call threshold is not compared with the liquidation threshold: where the latter is
-- above 500001, the multisig contract can set the former below it.
pub margin_call_below_liquidation :
    (amount : ℕ) (ctx : Ctx) (s : Parameters)
    → ctx.sender ≡ s.mul_sig
    → 500000 < amount
    → amount ≤ 2000000
    → amount < s.platform_config (codes "TCASHLT")
    → (s' : Parameters) × (set_platform_config (codes "TCASHMCT") amount ctx s ≡ done s')
      × (s'.platform_config (codes "TCASHMCT") < s'.platform_config (codes "TCASHLT"))
unfolding set_platform_config set_by_key only_mul_sig set_key text_eq codes
margin_call_below_liquidation amount ctx s caller low high below = (
  record s { platform_config = set_key s.platform_config (codes "TCASHMCT") amount },
  ground arith,
  ground arith,
)

-- In range, a loan is liquidated at a rate that is not above the one of the warning.
pub liquidation-le-warning :
    (s : Parameters) → IsValid s → loan_liquidation_rate s ≤ pledge_rate_warning_value s
unfolding loan_liquidation_rate pledge_rate_warning_value
liquidation-le-warning s v =
    let below : s.liquidation_ratio ≤ s.warn_ratio = omega (arith, v.liquidation, v.warning) in
    omega (arith, mul-le-mul_left (s.platform_config (codes "loanPledgeRate")) below)
