-- ===== src/Governance/Calls.antt =====
-- Sequences of the calls that change the parameters of contracts/Governance/ParameterInfo.sol.
use smart_contracts.Base.{List, [], ◌∷◌, ℕ, ◌≤◌, inl, inr, Text}
use smart_contracts.MulSig.{Ctx, PriceDiscountConfig, Tx, done, revert, Tx-cases}
use smart_contracts.Governance.Parameters.{
  Parameters, set_platform_config, set_price_discount_config, pledge_rate_warning_value,
  loan_liquidation_rate,
}
use smart_contracts.Governance.Ranges.{
  IsValid, set_platform_config-IsValid, set_price_discount_config-IsValid, liquidation-le-warning,
}

-- The two calls that change parameters.
pub data Call : Type 0 where
  platform : Text → ℕ → Call
  price_discount : PriceDiscountConfig → Call

abbrev pub call : Call → Ctx → Parameters → Tx Parameters
call (platform key amount) = set_platform_config key amount
call (price_discount c) = set_price_discount_config c

-- The parameters after some transactions; one that reverts changes nothing.
abbrev or_same : Tx Parameters → Parameters → Parameters
or_same (done s') s = s'
or_same (revert reason) s = s

unfoldable pub after : List (Call × Ctx) → Parameters → Parameters
after [] s = s
after ((c, ctx) ∷ calls) s = after calls (or_same (call c ctx s) s)

call-IsValid :
    (c : Call) (ctx : Ctx) (s : Parameters) → IsValid s → IsValid (or_same (call c ctx s) s)
call-IsValid (platform key amount) ctx s v =
    elim (Tx-cases (set_platform_config key amount ctx s)) [
      | inl (s', e) ↦ rw e (set_platform_config-IsValid key amount ctx s s' v e)
      | inr (reason, e) ↦ rw e v
    ]
call-IsValid (price_discount c) ctx s v = elim (Tx-cases (set_price_discount_config c ctx s)) [
  | inl (s', e) ↦ rw e (set_price_discount_config-IsValid c ctx s s' v e)
  | inr (reason, e) ↦ rw e v
]

-- After any transactions on parameters in range, of any senders, all parameters are in their
-- ranges, and a loan is liquidated at a rate that is not above the one of the warning.
pub after-IsValid :
    (calls : List (Call × Ctx)) (s : Parameters)
    → IsValid s
    → IsValid (after calls s)
      × (loan_liquidation_rate (after calls s) ≤ pledge_rate_warning_value (after calls s))
unfolding after
after-IsValid [] s v = (v, liquidation-le-warning s v)
after-IsValid ((c, ctx) ∷ calls) s v = after-IsValid calls _ (call-IsValid c ctx s v)
