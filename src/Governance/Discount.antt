-- ===== src/Governance/Discount.antt =====
-- The discount of contracts/Governance/ParameterInfo.sol for a kind of oil.
use smart_contracts.Base.{ℕ, ◌≤◌, ◌<◌, ◌≡◌, ltb, arith, if◌then◌else◌}
use smart_contracts.MulSig.{PriceDiscountConfig, done}
use smart_contracts.Governance.Parameters.{Parameters, price_discount}
use smart_contracts.Governance.Ranges.{IsValid}

-- The discount by the two comparisons.
unfoldable pub discount_for : PriceDiscountConfig → ℕ → ℕ → ℕ
discount_for c api sulphur =
    if ltb c.api api
    then (if ltb sulphur c.sulphur then c.discount0 else c.discount1)
    else if ltb sulphur c.sulphur
    then c.discount2
    else c.discount3

price_discount_lem :
    (api sulphur : ℕ) (s : Parameters)
    → 0 < api
    → 0 < sulphur
    → price_discount api sulphur s ≡ done (discount_for s.price_discount_config api sulphur)
unfolding price_discount discount_for
price_discount_lem api sulphur s some_api some_sulphur = ground arith

discount_for-le :
    (api api' sulphur sulphur' : ℕ) (s : Parameters)
    → IsValid s
    → api ≤ api'
    → sulphur' ≤ sulphur
    → discount_for s.price_discount_config api sulphur
      ≤ discount_for s.price_discount_config api' sulphur'
unfolding discount_for
discount_for-le api api' sulphur sulphur' s v lighter sweeter =
    let falling = v.falling in ground arith

discount_for_bounded :
    (api sulphur : ℕ) (s : Parameters)
    → IsValid s
    → discount_for s.price_discount_config api sulphur ≤ 10000
unfolding discount_for
discount_for_bounded api sulphur s v =
    let falling = v.falling in let top = v.discount in ground arith

-- With parameters in range, every oil with an API and a sulphur value has a discount, of at most
-- 10000, and one with a larger API and less sulphur has no smaller one.
pub price_discount_monotone :
    (api api' sulphur sulphur' : ℕ) (s : Parameters)
    → IsValid s
    → 0 < api
    → api ≤ api'
    → 0 < sulphur'
    → sulphur' ≤ sulphur
    → (d d' : ℕ) × (price_discount api sulphur s ≡ done d)
      × (price_discount api' sulphur' s ≡ done d')
      × (d ≤ d')
      × (d' ≤ 10000)
price_discount_monotone api api' sulphur sulphur' s v some_api lighter some_sulphur sweeter = (
  discount_for s.price_discount_config api sulphur,
  discount_for s.price_discount_config api' sulphur',
  price_discount_lem api sulphur s some_api (omega arith),
  price_discount_lem api' sulphur' s (omega arith) some_sulphur,
  discount_for-le api api' sulphur sulphur' s v lighter sweeter,
  discount_for_bounded api' sulphur' s v,
)
