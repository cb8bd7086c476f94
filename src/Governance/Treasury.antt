-- ===== src/Governance/Treasury.antt =====
-- contracts/Governance/Governance.sol, keyed by the text of a kind in place of its hash.
use smart_contracts.Base.{
  ℕ, ◌+◌, ◌/◌, not, List, [], ◌∷◌, ◌==◌, if◌then◌else◌, Text, codes, text_eq, length,
}
use smart_contracts.MulSig.{Address, Ctx, Tx, done, revert, require, ◌>>=◌, ◌>>◌}

-- `struct Treasure`; both addresses are 0 in a slot that was never written.
pub record Treasure : Type 0 where
  pub producer_contract : Address
  pub production_data_contract : Address

pub record Treasury : Type 0 where
  pub treasures : Text → Treasure
  pub mul_sig : Address

-- `getRoleMemberCount(FOUNDATION_MANAGER) / 2 + 1`
unfoldable pub fm_threshold : ℕ → ℕ
fm_threshold members = members / 2 + 1

unfoldable pub set_treasure : (Text → Treasure) → Text → Treasure → Text → Treasure
set_treasure m kind t k = if text_eq k kind then t else m k

-- `_addTreasure`
unfoldable pub add_treasure_of : Text → Address → Address → Treasury → Tx Treasury
add_treasure_of kind producer production_data s = do
  require ((s.treasures kind).producer_contract == 0) (codes "treasure type already exists")
  require (not (producer == 0)) (codes "empty producer contract")
  require (not (production_data == 0)) (codes "empty production data contract")
  done (record s {
    treasures =
        set_treasure s.treasures kind
          (record { producer_contract = producer; production_data_contract = production_data });
  })

unfoldable pub add_treasure : Text → Address → Address → Ctx → Treasury → Tx Treasury
add_treasure kind producer production_data ctx s =
    require (ctx.sender == s.mul_sig) [] >> add_treasure_of kind producer production_data s

unfoldable pub get_treasure_by_kind : Treasury → Text → Tx (Address × Address)
get_treasure_by_kind s kind =
    require (not ((s.treasures kind).producer_contract == 0)) (codes "treasure not found")
    >> done ((s.treasures kind).producer_contract, (s.treasures kind).production_data_contract)

-- The loop of `initialize`, over lists that are as long as each other.
unfoldable pub add_treasures : List Text → List Address → List Address → Treasury → Tx Treasury
add_treasures [] producers datas s = done s
add_treasures (k ∷ ks) [] datas s = revert []
add_treasures (k ∷ ks) (p ∷ ps) [] s = revert []
add_treasures (k ∷ ks) (p ∷ ps) (d ∷ ds) s = add_treasure_of k p d s >>= add_treasures ks ps ds

unfoldable pub initialize_treasury : Address → List Text → List Address → List Address → Tx Treasury
initialize_treasury mul_sig kinds producers datas = do
  require (length kinds == length producers) (codes "treasure length mismatch")
  require (length kinds == length datas)
      (codes "treasureTypes mismatch with productionDatas length")
  add_treasures kinds producers datas (record {
    treasures = λ _. record { producer_contract = 0; production_data_contract = 0 };
    mul_sig = mul_sig;
  })
