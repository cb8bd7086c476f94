-- ===== src/Upgrading/Reaches.antt =====
-- Where the loops of scripts/upgrade-via-proxyadmin.js lead, on a chain that answers.
use smart_contracts.Base.{
  ℕ, ◌≡◌, ◌≢◌, ◌∙◌, sym, refl, inl, inr, true, not, List, [], ◌∷◌, map, Bool-cases, arith, Text,
  codes, same_address, same_address_refl,
}
use smart_contracts.Script.{ok}
use smart_contracts.Script.Loop.{each, each-steady}
use smart_contracts.Web3.{Receipt, NodeApi}
use smart_contracts.Web3.Gas.{gas_with_buffer}
use smart_contracts.Upgrading.Api.{
  skipped, Report, report, sent_report, SetupApi, ProducerApi, ProxyAdminApi,
}
use smart_contracts.Upgrading.Upgrade.{
  Entry, Checked, Config, check_one, upgrade_entry, upgrade_one, check_and_upgrade,
}

-- The proxies' implementations as a part of the world: reads answer with it, an upgrade sets the
-- one of its proxy, and nothing else touches it.
pub record HonestAdmin {W : Type 0} (node : NodeApi W) (setup : SetupApi W)
    (admin : ProxyAdminApi W) (implementation : W → Text → Text) : Type 0 where
  pub reads : (p : Text) (w : W) → admin.get_proxy_implementation p w ≡ (ok (implementation w p), w)
  pub network : (w : W) → (n : ℕ) × (node.net_id w ≡ (ok n, w))
  pub estimates : (p i : Text) (w : W) → (n : ℕ) × (admin.estimate_upgrade p i w ≡ (ok n, w))
  pub prices : (w : W) → (n : ℕ) × (node.get_gas_price w ≡ (ok n, w))
  pub upgrades :
      (p i : Text) (gas price : ℕ) (w : W)
      → (receipt : Receipt) × (w' : W) × (admin.upgrade p i gas price w ≡ (ok receipt, w'))
        × (implementation w' p ≡ i)
        × ((q : Text) → q ≢ p → implementation w' q ≡ implementation w q)
  pub sleeps :
      (ms : ℕ) (w : W) (q : Text) → implementation (setup.sleep ms w) q ≡ implementation w q

unfoldable pub Elsewhere : Text → List Entry → Type 0
Elsewhere p [] = Unit {0}
Elsewhere p (e ∷ es) = (p ≢ e.proxy) × Elsewhere p es

-- No two entries have the same proxy.
unfoldable pub Distinct : List Entry → Type 0
Distinct [] = Unit {0}
Distinct (e ∷ es) = Elsewhere e.proxy es × Distinct es

-- Every proxy has the implementation of its entry, up to the case of the letters.
pub UpToDate : (Text → Text) → List Entry → Type 0
UpToDate now [] = Unit {0}
UpToDate now (e ∷ es) = (same_address (now e.proxy) e.new_implementation ≡ true) × UpToDate now es

module _ {W : Type 0} (config : Config) (node : NodeApi W) (setup : SetupApi W)
    (admin : ProxyAdminApi W) (api : ProducerApi W) (implementation : W → Text → Text)
    (honest : HonestAdmin node setup admin implementation) where
  -- What the third step finds.
  checked_at : W → Entry → Checked
  checked_at w e = record {
    entry = e;
    needs_upgrade = not (same_address (implementation w e.proxy) e.new_implementation);
  }

  check_one_at :
      (e : Entry) (w : W) → check_one config node setup admin api e w ≡ (ok (checked_at w e), w)
  unfolding check_one checked_at
  check_one_at e w = ground (arith, honest.reads e.proxy w)

  -- One round brings its proxy up to date and leaves the others alone.
  upgrade_one_at :
      (e : Entry) (w₀ w : W)
      → implementation w e.proxy ≡ implementation w₀ e.proxy
      → (r : Report) × (w' : W) × (upgrade_one config node setup admin api (checked_at w₀ e) w
          ≡ (ok r, w'))
        × (same_address (implementation w' e.proxy) e.new_implementation ≡ true)
        × ((q : Text) → q ≢ e.proxy → implementation w' q ≡ implementation w q)
  unfolding upgrade_one upgrade_entry checked_at
  upgrade_one_at e w₀ w same =
      elim (Bool-cases (same_address (implementation w₀ e.proxy) e.new_implementation)) [
        | inl current ↦ rw current (
          report e.kind (skipped (codes "Already up to date")),
          w,
          refl,
          rw same current,
          λ q other. refl,
        )
        | inr old ↦
            let (n, estimated) = honest.estimates e.proxy e.new_implementation w in
            let (price, priced) = honest.prices w in
            let (receipt, w', sent, here, others) =
              honest.upgrades e.proxy e.new_implementation (gas_with_buffer 15 n) price w in
            (
              sent_report e.kind receipt,
              setup.sleep 30000 w',
              ground arith,
              rw (honest.sleeps 30000 w' e.proxy, here) (same_address_refl e.new_implementation),
              λ q other. honest.sleeps 30000 w' q ∙ others q other,
            )
      ]

  -- The two worlds agree on the proxies of the entries.
  Agree : W → W → List Entry → Type 0
  Agree w w' [] = Unit {0}
  Agree w w' (e ∷ es) = (implementation w e.proxy ≡ implementation w' e.proxy) × Agree w w' es

  Agree-refl : (w : W) (es : List Entry) → Agree w w es
  unfolding Agree
  Agree-refl w [] = tt
  Agree-refl w (e ∷ es) = (refl, Agree-refl w es)

  -- A change at one proxy only keeps the agreement on entries elsewhere.
  Agree-step :
      (p : Text) (w₀ w w' : W) (es : List Entry)
      → ((q : Text) → q ≢ p → implementation w' q ≡ implementation w q)
      → Elsewhere p es
      → Agree w w₀ es
      → Agree w' w₀ es
  unfolding Agree Elsewhere
  Agree-step p w₀ w w' [] others apart same = tt
  Agree-step p w₀ w w' (e ∷ es) others apart same = (
    others e.proxy (λ eq. apart.0 (sym eq)) ∙ same.0,
    Agree-step p w₀ w w' es others apart.1 same.1,
  )

  upgrade_all_at :
      (es : List Entry) (w₀ w : W)
      → Distinct es
      → Agree w w₀ es
      → (rs : List Report) × (w' : W) × (each
            (upgrade_one config node setup admin api)
            (map (checked_at w₀) es)
            w
          ≡ (ok rs, w'))
        × UpToDate (implementation w') es
        × ((q : Text) → Elsewhere q es → implementation w' q ≡ implementation w q)
  unfolding each Agree Distinct UpToDate Elsewhere
  upgrade_all_at [] w₀ w apart same = ([], w, refl, tt, λ q none. refl)
  upgrade_all_at (e ∷ es) w₀ w apart same =
      let (r, w₁, first, here, others) = upgrade_one_at e w₀ w same.0 in
      let (rs, w₂, rest, later, kept) =
        upgrade_all_at es w₀ w₁ apart.1 (Agree-step e.proxy w₀ w w₁ es others apart.0 same.1) in
      (
        r ∷ rs,
        w₂,
        ground arith,
        (rw (kept e.proxy apart.0) here, later),
        λ q away. kept q away.1 ∙ others q away.0,
      )

  -- On a chain that accepts the upgrades, entries with different proxies are all up to date after
  -- the third and the fourth step, and no other proxy is touched.
  pub check_and_upgrade_reaches :
      (es : List Entry) (w : W)
      → Distinct es
      → (rs : List Report) × (w' : W) × (check_and_upgrade config node setup admin api es w
          ≡ (ok rs, w'))
        × UpToDate (implementation w') es
        × ((q : Text) → Elsewhere q es → implementation w' q ≡ implementation w q)
  unfolding check_and_upgrade
  check_and_upgrade_reaches es w apart =
      let checked =
        each-steady (check_one config node setup admin api) (checked_at w) es w
          (λ e. check_one_at e w) in
      let online = honest.network w in
      let (rs, w', upgraded, now, kept) = upgrade_all_at es w w apart (Agree-refl w es) in
      (rs, w', ground arith, now, kept)
