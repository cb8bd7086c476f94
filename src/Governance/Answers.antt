-- ===== src/Governance/Answers.antt =====
-- Each contract that the multisig contract calls answers with what it accepted.
use smart_contracts.Base.{
  ℕ, ◌≡◌, false, Bool-cases, inl, inr, arith, Text, codes, text_eq, text_eq_refl, text_eq→eq,
  if◌then◌else◌,
}
use mathlib.Core.Path.{subst}
use smart_contracts.MulSig.{Address, PriceDiscountConfig, Ctx, CrosschainToken, done}
use smart_contracts.Governance.Parameters
use smart_contracts.Governance.Parameters.{Parameters}
use smart_contracts.Governance.Treasury
use smart_contracts.Governance.Treasury.{Treasury}
use smart_contracts.Governance.Tokens
use smart_contracts.Governance.Tokens.{Tokens}
use smart_contracts.Governance.Dapps
use smart_contracts.Governance.Dapps.{Dapps}

pub add_treasure-get :
    (kind : Text) (producer production_data : Address) (ctx : Ctx) (s s' : Treasury)
    → Treasury.add_treasure kind producer production_data ctx s ≡ done s'
    → Treasury.get_treasure_by_kind s' kind ≡ done (producer, production_data)
unfolding Treasury.add_treasure Treasury.add_treasure_of Treasury.set_treasure
    Treasury.get_treasure_by_kind
add_treasure-get kind producer production_data ctx s s' e =
    let same = text_eq_refl kind in ground arith

pub set_crosschain_token-get :
    (t : CrosschainToken) (ctx : Ctx) (s s' : Tokens)
    → Tokens.set_crosschain_token t ctx s ≡ done s'
    → Tokens.get_crosschain_token_by_chain_id t.token t.chain_id s' ≡ t
unfolding Tokens.set_crosschain_token Tokens.set_token Tokens.get_crosschain_token_by_chain_id
set_crosschain_token-get t ctx s s' e = let same = text_eq_refl t.token in ground arith

pub register_dapp_connect-get :
    (dapp : Text) (payee : Address) (ctx : Ctx) (s s' : Dapps)
    → Dapps.register_dapp_connect dapp payee ctx s ≡ done s'
    → Dapps.get_dapp_payee dapp payee s' ≡ done payee
unfolding Dapps.register_dapp_connect Dapps.set_dapp Dapps.get_dapp_payee
register_dapp_connect-get dapp payee ctx s s' e = let same = text_eq_refl dapp in ground arith

liquidation_ratio_set :
    (amount : ℕ) (ctx : Ctx) (s s' : Parameters)
    → Parameters.set_platform_config (codes "liquidationRatio") amount ctx s ≡ done s'
    → s'.liquidation_ratio ≡ amount
unfolding Parameters.set_platform_config Parameters.set_by_key Parameters.only_mul_sig text_eq codes
liquidation_ratio_set amount ctx s s' e = ground arith

platform_config_set :
    (key : Text) (amount : ℕ) (ctx : Ctx) (s s' : Parameters)
    → text_eq key (codes "liquidationRatio") ≡ false
    → Parameters.set_platform_config key amount ctx s ≡ done s'
    → s'.platform_config key ≡ amount
unfolding Parameters.set_platform_config Parameters.set_by_key Parameters.only_mul_sig
    Parameters.set_key
platform_config_set key amount ctx s s' other e = let same = text_eq_refl key in ground arith

pub set_platform_config-get :
    (key : Text) (amount : ℕ) (ctx : Ctx) (s s' : Parameters)
    → Parameters.set_platform_config key amount ctx s ≡ done s'
    → (if text_eq key (codes "liquidationRatio")
        then s'.liquidation_ratio
        else s'.platform_config key)
      ≡ amount
set_platform_config-get key amount ctx s s' e =
    elim (Bool-cases (text_eq key (codes "liquidationRatio"))) [
      | inl same ↦ rw same (
          liquidation_ratio_set amount ctx s s' (
            subst (λ k. Parameters.set_platform_config k amount ctx s ≡ done s')
              (text_eq→eq key (codes "liquidationRatio") same) e))
      | inr other ↦ rw other (platform_config_set key amount ctx s s' other e)
    ]

pub set_price_discount_config-get :
    (c : PriceDiscountConfig) (ctx : Ctx) (s s' : Parameters)
    → Parameters.set_price_discount_config c ctx s ≡ done s'
    → s'.price_discount_config ≡ c
unfolding Parameters.set_price_discount_config Parameters.only_mul_sig
set_price_discount_config-get c ctx s s' e = ground arith
