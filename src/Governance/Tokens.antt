-- ===== src/Governance/Tokens.antt =====
-- contracts/Governance/CrosschainTokens.sol
use smart_contracts.Base.{ℕ, ltb, not, ◌&&◌, ◌==◌, if◌then◌else◌, Text, codes, text_eq, length}
use smart_contracts.MulSig.{Address, Ctx, CrosschainToken, Tx, done, require, ◌>>◌}

-- `_crosschainTokens`, by chain and token. A slot holds the fields of a call; the chain's id, which
-- the source has only as the key, is among them.
pub record Tokens : Type 0 where
  pub tokens : ℕ → Text → CrosschainToken
  pub mul_sig : Address
  pub owner : Address

unfoldable pub set_token :
    (ℕ → Text → CrosschainToken) → CrosschainToken → ℕ → Text → CrosschainToken
set_token m t chain_id token =
    if chain_id == t.chain_id && text_eq token t.token then t else m chain_id token

unfoldable pub set_crosschain_token : CrosschainToken → Ctx → Tokens → Tx Tokens
set_crosschain_token t ctx s = do
  require (ctx.sender == s.mul_sig) (codes "Caller is not MulSig")
  require (ltb 0 (length t.token)) (codes "Token name cannot be empty")
  done (record s { tokens = set_token s.tokens t })

unfoldable pub get_crosschain_token_by_chain_id : Text → ℕ → Tokens → CrosschainToken
get_crosschain_token_by_chain_id token chain_id s = s.tokens chain_id token

-- Only once, and only by the owner.
unfoldable pub set_mul_sig : Address → Ctx → Tokens → Tx Tokens
set_mul_sig mul_sig ctx s = do
  require (ctx.sender == s.owner) (codes "Ownable: caller is not the owner")
  require (not (mul_sig == 0)) (codes "Invalid MulSig address")
  require (s.mul_sig == 0) (codes "MulSig already set")
  done (record s { mul_sig = mul_sig })
