-- ===== src/Upgrading/Migration.antt =====
-- scripts/upgrade/producers.js: upgrades the Producer contracts that Governance names.
use smart_contracts.Base.{
  Bool, true, ◌||◌, none, some, List, [], ◌∷◌, if◌then◌else◌, Text, codes, text_eq,
}
use smart_contracts.Script.{ok, Script, pure, try_catch, ◌>>=◌, ◌>>◌}
use smart_contracts.Script.Loop.{each}
use smart_contracts.Deployments.State.{get, set, or_text}
use smart_contracts.Signing.TxHash.{strip_prefix}
use smart_contracts.Upgrading.Api.{zero_address}
use smart_contracts.Upgrading.Truffle.{TruffleApi, to_upper}

-- An element of `results`, without its contract: the proxy and the new address, the reason, or the
-- error.
pub data Status : Type 0 where
  success : Text → Text → Status
  skipped : Text → Status
  failed : Text → Status

pub record Report : Type 0 where
  pub contract : Text
  pub status : Status

-- `text.replace(pattern, '')` for a text as the pattern: its first occurrence goes.
unfoldable pub remove_first : Text → Text → Text
remove_first pattern_text [] = []
remove_first pattern_text (c ∷ s) =
    let rest = remove_first pattern_text s in
    elim (strip_prefix pattern_text (c ∷ s)) [ none ↦ c ∷ rest | some behind ↦ behind ]

-- `contractName.replace('Producer', '').toUpperCase()`
unfoldable pub treasure_kind : Text → Text
treasure_kind name = to_upper (remove_first (codes "Producer") name)

-- The keys of `PRODUCER_CONTRACTS`, and `treasureKinds`.
abbrev pub producer_contracts : List Text
producer_contracts =
    codes "OilProducer" ∷ codes "GasProducer" ∷ codes "EthProducer" ∷ codes "BtcProducer" ∷ []

abbrev pub treasure_kinds : List Text
treasure_kinds = codes "OIL" ∷ codes "GAS" ∷ codes "ETH" ∷ codes "BTC" ∷ []

-- `!proxyAddress || proxyAddress === '0x000…'`
unfoldable pub is_no_proxy : Text → Bool
is_no_proxy a = text_eq a [] || text_eq a zero_address

module _ {W : Type 0} (truffle : TruffleApi W) where
  -- The loop that reads the addresses: an error leaves the kind without one.
  unfoldable pub read_addresses : List Text → List (Text × Text) → Script W (List (Text × Text))
  read_addresses [] addresses = pure addresses
  read_addresses (kind ∷ kinds) addresses = do
    addresses' ←
        try_catch (truffle.get_treasure_by_kind kind >>= λ a. pure (set kind a addresses))
          (λ _. pure addresses)
    read_addresses kinds addresses'

  -- The upgrade, with `force`, and the wait of ten seconds.
  unfoldable pub upgrade_proxy_of : Text → Text → Script W Report
  upgrade_proxy_of name proxy =
      try_catch
        (do
          truffle.require_artifact name
          implementation ← truffle.upgrade_proxy proxy name true
          λ w. (
            ok (record { contract = name; status = success proxy implementation }),
            truffle.sleep 10000 w,
          ))
        (λ message. pure (record { contract = name; status = failed message }))

  unfoldable pub upgrade_producer : List (Text × Text) → Text → Script W Report
  upgrade_producer addresses name =
      let proxy = or_text (get (treasure_kind name) addresses) [] in
      if is_no_proxy proxy
      then pure (record { contract = name; status = skipped (codes "No proxy address found") })
      else upgrade_proxy_of name proxy

  unfoldable pub upgrade_producers : Script W (List Report)
  upgrade_producers = do
    truffle.governance_at (
        or_text (truffle.env (codes "GOVERNANCE_ADDRESS"))
          (codes "0xc69bd55C22664cF319698984211FeD155403C066"))
    addresses ← read_addresses treasure_kinds []
    each (upgrade_producer addresses) producer_contracts
