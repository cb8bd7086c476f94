-- ===== src/Governance/Parameters.antt =====
-- contracts/Governance/ParameterInfo.sol. Two keys with the same keccak256 hash are taken for the
-- same text.
use smart_contracts.Base.{
  ℕ, ◌*◌, ◌/◌, Bool, not, [], ◌&&◌, ltb, leb, ◌==◌, if◌then◌else◌, Text, codes, text_eq,
}
use smart_contracts.MulSig.{Address, Ctx, PriceDiscountConfig, Tx, done, revert, require, ◌>>◌}

-- `_platformConfig` has 0 at every key that was never written.
pub record Parameters : Type 0 where
  pub price_discount_config : PriceDiscountConfig
  pub platform_config : Text → ℕ
  pub warn_ratio : ℕ
  pub liquidation_ratio : ℕ
  pub mul_sig : Address

-- `m[key] = amount`
unfoldable pub set_key : (Text → ℕ) → Text → ℕ → Text → ℕ
set_key m key amount k = if text_eq key k then amount else m k

-- `initialize`, on fresh storage.
unfoldable pub initialize : Address → Parameters
initialize mul_sig =
    let m₀ = set_key (λ _. 0) (codes "marginRatio") 100 in
    let m₁ = set_key m₀ (codes "reserveRatio") 1000 in
    let m₂ = set_key m₁ (codes "loanInterestRate") 5 in
    let m₃ = set_key m₂ (codes "loanPledgeRate") 15000 in
    let m₄ = set_key m₃ (codes "TCASHDIR") 5 in
    let m₅ = set_key m₄ (codes "TCASHMCT") 750000 in
    let m₆ = set_key m₅ (codes "TCASHLT") 500000 in
    let m₇ = set_key m₆ (codes "TCASHRC") 365 in
    let m₈ = set_key m₇ (codes "TCASHMLT") 3000 in
    record {
      price_discount_config = record {
        api = 3110;
        sulphur = 500;
        discount0 = 9000;
        discount1 = 8500;
        discount2 = 8000;
        discount3 = 7500;
      };
      platform_config = set_key m₈ (codes "TCASHMRST") 11000;
      warn_ratio = 9900;
      liquidation_ratio = 9000;
      mul_sig = mul_sig;
    }

unfoldable pub only_mul_sig : Ctx → Parameters → Tx (Unit {0})
only_mul_sig ctx s = require (ctx.sender == s.mul_sig) []

-- `require(test, reason); _platformConfig[key] = amount;`
abbrev pub set_if : Bool → Text → Text → ℕ → Parameters → Tx Parameters
set_if test reason key amount s =
    require test reason
    >> done (record s { platform_config = set_key s.platform_config key amount })

-- The chain of keys with their ranges.
unfoldable pub set_by_key : Text → ℕ → Parameters → Tx Parameters
set_by_key key amount s =
    if text_eq key (codes "marginRatio")
    then set_if (leb amount 10000) (codes "overflow") key amount s
    else if text_eq key (codes "reserveRatio")
    then set_if (leb amount 10000) (codes "overflow") key amount s
    else if text_eq key (codes "loanInterestRate")
    then set_if (leb amount 100) (codes "overflow") key amount s
    else if text_eq key (codes "loanPledgeRate")
    then set_if (leb 12000 amount && leb amount 66600) (codes "overflow") key amount s
    else if text_eq key (codes "liquidationRatio")
    then require (leb 9000 amount && leb amount 9900) (codes "overflow")
      >> done (record s { liquidation_ratio = amount })
    else if text_eq key (codes "TCASHDIR")
    then set_if (ltb 0 amount && leb amount 1000) (codes "Invalid interest rate") key amount s
    else if text_eq key (codes "TCASHMCT")
    then set_if (ltb 500000 amount && leb amount 2000000) (codes "Invalid margin call threshold")
        key amount s
    else if text_eq key (codes "TCASHLT")
    then set_if (ltb 400000 amount && leb amount (s.platform_config (codes "TCASHMCT")))
        (codes "Invalid liquidation threshold") key amount s
    else if text_eq key (codes "TCASHRC")
    then set_if (ltb 0 amount && leb amount 1000) (codes "Invalid repayment cycle") key amount s
    else if text_eq key (codes "TCASHMLT")
    then set_if (ltb 0 amount && leb amount 10000) (codes "Invalid mint lock threshold") key amount
        s
    else if text_eq key (codes "TCASHMRST")
    then set_if (ltb 10000 amount && leb amount 20000) (codes "Invalid mint reset threshold") key
        amount s
    else revert (codes "not support")

unfoldable pub set_platform_config : Text → ℕ → Ctx → Parameters → Tx Parameters
set_platform_config key amount ctx s = only_mul_sig ctx s >> set_by_key key amount s

unfoldable pub set_price_discount_config : PriceDiscountConfig → Ctx → Parameters → Tx Parameters
set_price_discount_config c ctx s = do
  only_mul_sig ctx s
  require (leb c.api 10000) (codes "overflow")
  require (leb c.sulphur 10000) (codes "overflow")
  require (leb c.discount0 10000) (codes "overflow")
  require
      (ltb c.discount1 c.discount0 && ltb c.discount2 c.discount1 && ltb c.discount3 c.discount2)
      (codes "overflow")
  done (record s { price_discount_config = c })

-- `getUSTNLoanPledgeRateWarningValue`, where the product fits its word.
unfoldable pub pledge_rate_warning_value : Parameters → ℕ
pledge_rate_warning_value s = s.platform_config (codes "loanPledgeRate") * s.warn_ratio / 10000

-- `getUSTNLoanLiquidationRate`, likewise.
unfoldable pub loan_liquidation_rate : Parameters → ℕ
loan_liquidation_rate s = s.platform_config (codes "loanPledgeRate") * s.liquidation_ratio / 10000

-- `getPriceDiscountConfig`: each of the four tests may set the discount.
unfoldable pub price_discount : ℕ → ℕ → Parameters → Tx ℕ
price_discount api sulphur s = do
  let c = s.price_discount_config
  require (not (api == 0) && not (sulphur == 0))
      (codes "this mine data is error or not exist this mine.")
  let d₀ : ℕ = if ltb c.api api && ltb sulphur c.sulphur then c.discount0 else 0
  let d₁ : ℕ = if ltb c.api api && leb c.sulphur sulphur then c.discount1 else d₀
  let d₂ : ℕ = if leb api c.api && ltb sulphur c.sulphur then c.discount2 else d₁
  done (if leb api c.api && leb c.sulphur sulphur then c.discount3 else d₂)
