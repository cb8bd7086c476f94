-- ===== src/Upgrading/Results.antt =====
-- The loop of scripts/fix-mulsig-addresses.js over the kinds.
use smart_contracts.Base.{
  ℕ, ◌≡◌, refl, inl, inr, List, map, Bool-cases, arith, Text, codes, text_eq, same_address,
}
use smart_contracts.Script.{Outcome-cases, ok}
use smart_contracts.Script.Ends.{NeverExits, Ends}
use smart_contracts.Script.Loop.{each, each-ok}
use smart_contracts.Web3.{NodeApi}
use smart_contracts.Web3.Gas.{gas_with_buffer}
use smart_contracts.Upgrading.Api.{
  skipped, failed, Report, report, sent_report, SetupApi, ProducerApi, zero_address,
}
use smart_contracts.Upgrading.Fix.{Config, set_address, fix_producer, fix_one}

-- The calls of a round.
pub record CallsReturn {W : Type 0} (node : NodeApi W) (api : ProducerApi W) : Type 0 where
  pub producer_returns : (kind : Text) → NeverExits (api.producer_of kind)
  pub get_returns : (p : Text) → NeverExits (api.get_mul_sig_contract p)
  pub estimate_returns : (p t : Text) → NeverExits (api.estimate_set_mul_sig_contract p t)
  pub price_returns : NeverExits node.get_gas_price
  pub set_returns :
      (p t : Text) (gas price : ℕ) → NeverExits (api.set_mul_sig_contract p t gas price)

abbrev About : Text → Report → Type 0
About kind r = r.kind ≡ kind

module _ {W : Type 0} (config : Config) (node : NodeApi W) (setup : SetupApi W)
    (api : ProducerApi W) (returns : CallsReturn node api) where
  set_address_reported :
      (kind producer : Text) (w : W)
      → Ends (About kind) (set_address config node setup api kind producer w)
  unfolding set_address
  set_address_reported kind producer w =
      let target = config.mulsig_address in
      let estimated = api.estimate_set_mul_sig_contract producer target w in
      elim (Outcome-cases estimated.0) [
        | inl (n, e) ↦
            let priced = node.get_gas_price estimated.1 in
            elim (Outcome-cases priced.0) [
              | inl (price, e') ↦
                  let sent =
                    api.set_mul_sig_contract producer target (gas_with_buffer 13 n) price
                      priced.1 in
                  elim (Outcome-cases sent.0) [
                    | inl (receipt, e'') ↦
                        inl (sent_report kind receipt, setup.sleep 15000 sent.1, ground arith, refl)
                    | inr (inl (m, e'')) ↦ inr (m, sent.1, ground arith)
                    | inr (inr (c, e'')) ↦ absurd (
                        returns.set_returns producer target (gas_with_buffer 13 n) price priced.1 c
                          e'')
                  ]
              | inr (inl (m, e')) ↦ inr (m, priced.1, ground arith)
              | inr (inr (c, e')) ↦ absurd (returns.price_returns estimated.1 c e')
            ]
        | inr (inl (m, e)) ↦ inr (m, estimated.1, ground arith)
        | inr (inr (c, e)) ↦ absurd (returns.estimate_returns producer target w c e)
      ]

  fix_producer_reported :
      (kind producer : Text) (w : W)
      → Ends (About kind) (fix_producer config node setup api kind producer w)
  unfolding fix_producer
  fix_producer_reported kind producer w =
      let read = api.get_mul_sig_contract producer w in
      elim (Outcome-cases read.0) [
        | inl (address, e) ↦ elim (Bool-cases (same_address address config.mulsig_address)) [
          | inl same ↦
              inl (report kind (skipped (codes "Already correct")), read.1, ground arith, refl)
          | inr other ↦ elim (set_address_reported kind producer read.1) [
            | inl (r, w', e', k) ↦ inl (r, w', ground arith, k)
            | inr (m, w', e') ↦ inr (m, w', ground arith)
          ]
        ]
        | inr (inl (m, e)) ↦
            inl (report kind (failed (codes "Contract not upgraded")), read.1, ground arith, refl)
        | inr (inr (c, e)) ↦ absurd (returns.get_returns producer w c e)
      ]

  fix_one_reported :
      (kind : Text) (w : W)
      → (r : Report) × (w' : W) × (fix_one config node setup api kind w ≡ (ok r, w'))
        × (r.kind ≡ kind)
  unfolding fix_one
  fix_one_reported kind w =
      let found = api.producer_of kind w in
      elim (Outcome-cases found.0) [
        | inl (producer, e) ↦ elim (Bool-cases (text_eq producer zero_address)) [
          | inl zero ↦
              (report kind (skipped (codes "Producer not found")), found.1, ground arith, refl)
          | inr there ↦ elim (fix_producer_reported kind producer found.1) [
            | inl (r, w', e', k) ↦ (r, w', ground arith, k)
            | inr (m, w', e') ↦ (report kind (failed m), w', ground arith, refl)
          ]
        ]
        | inr (inl (m, e)) ↦ (report kind (failed m), found.1, ground arith, refl)
        | inr (inr (c, e)) ↦ absurd (returns.producer_returns kind w c e)
      ]

  -- Where library calls return or throw, the loop never throws, whatever fails in a round, and it
  -- ends with one report for each kind, in the order of the kinds.
  pub each-fix_one_reports :
      (kinds : List Text) (w : W)
      → (results : List Report) × (w' : W) × (each (fix_one config node setup api) kinds w
          ≡ (ok results, w'))
        × (map (λ (r : Report). r.kind) results ≡ kinds)
  each-fix_one_reports kinds w = each-ok (fix_one_reported) kinds w
