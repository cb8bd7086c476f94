-- ===== src/Governance/Dapps.antt =====
-- The dapps of contracts/Treasure/Producer.sol, keyed by name and payee in place of the hash of
-- both.
use smart_contracts.Base.{◌&&◌, not, [], ◌==◌, if◌then◌else◌, Text, codes, text_eq}
use smart_contracts.MulSig.{Address, Ctx, Tx, done, require, ◌>>◌}

-- `_dapps` is 0 where no dapp is registered.
pub record Dapps : Type 0 where
  pub dapps : Text → Address → Address
  pub mul_sig : Address

unfoldable pub set_dapp : (Text → Address → Address) → Text → Address → Text → Address → Address
set_dapp m dapp payee name account =
    if text_eq name dapp && account == payee then payee else m name account

unfoldable pub register_dapp_connect : Text → Address → Ctx → Dapps → Tx Dapps
register_dapp_connect dapp payee ctx s = do
  require (ctx.sender == s.mul_sig) []
  require (not (text_eq dapp [])) (codes "empty dapp name")
  require (not (payee == 0)) (codes "empty DApp payee")
  require (s.dapps dapp payee == 0) (codes "dapp already registered")
  done (record s { dapps = set_dapp s.dapps dapp payee })

unfoldable pub get_dapp_payee : Text → Address → Dapps → Tx Address
get_dapp_payee dapp payee s =
    require (not (s.dapps dapp payee == 0)) (codes "dapp with this dappId not registered yet")
    >> done (s.dapps dapp payee)
