-- ===== src/Kms/Ethereum.antt =====
-- Ethereum addresses and signatures from the key service: `getEthereumAddress`,
-- `toEthereumSignature` and `derToEthSignature`, over the interface of AWS KMS and of the
-- libraries js-sha3, asn1.js and web3.
use smart_contracts.Base.{
  ℕ, ◌-◌, ◌/◌, Option, none, some, [], ◌∷◌, ◌++◌, ltb, leb, if◌then◌else◌, Text, codes, length,
  drop, replicate, slice_last, same_address,
}
use smart_contracts.Script.{Outcome, Script, pure, lift, throw, or_throw, try_catch, rethrow, ◌>>=◌}
use smart_contracts.Kms.Bytes.{Bytes, be_value, be_bytes}
use smart_contracts.Kms.Hex.{to_hex, number_to_hex}
use smart_contracts.Kms.Runner.{secp256k1n, parse_der_signature}
use smart_contracts.Kms.Caller

-- AWS KMS: the world is its connection and whatever else the scripts act on.
pub record KmsApi (W : Type 0) : Type 0 where
  -- `kms.getPublicKey({ KeyId }).promise()`, its field `PublicKey`
  pub get_public_key : Script W Bytes
  -- `kms.sign(params).promise()`, its field `Signature`; a digest in a buffer is its hexadecimal
  -- text
  pub sign : Text → Script W Bytes

-- js-sha3, asn1.js and `web3.eth.accounts.recover`.
pub record CryptoApi : Type 0 where
  -- `EcdsaPubKey.decode(bytes, 'der').pubKey.data`
  pub decode_public_key : Bytes → Outcome Bytes
  pub keccak256 : Bytes → Bytes
  -- The address that signed a message hash; `none` is a throw, whose message is only logged.
  pub recover : Text → Text → Option Text

-- `0x` in front of a hexadecimal text.
unfoldable pub hex_prefixed : Text → Text
hex_prefixed t = b'0' ∷ b'x' ∷ t

-- The 65 bytes r, s and v as `0x…`.
unfoldable pub full_signature : Bytes → Bytes → ℕ → Text
unfolding hex_prefixed to_hex
full_signature r s v = hex_prefixed (to_hex r ++ to_hex s ++ to_hex (v ∷ []))

-- `Buffer.from((n - s).toString(16).padStart(64, '0'), 'hex')`. Where `n - s` is negative its text
-- has a sign in the middle, and the buffer ends with the zeros before that.
unfoldable pub order_minus : Bytes → Bytes
order_minus s =
    if leb (be_value s) secp256k1n
    then be_bytes 32 (secp256k1n - be_value s)
    else replicate ((63 - length (number_to_hex (be_value s - secp256k1n))) / 2) 0

-- If s > n/2, use n - s.
unfoldable pub normalize_s : Bytes → Bytes
normalize_s s = if ltb (secp256k1n / 2) (be_value s) then order_minus s else s

-- The loop stops at the first signature that is found.
abbrev pub or_try : {W : Type 0} → Option Text → Script W (Option Text) → Script W (Option Text)
or_try (some signature) next = pure (some signature)
or_try none next = next

abbrev pub signature_or_throw : {W : Type 0} → Option Text → Script W Text
signature_or_throw (some signature) = pure signature
signature_or_throw none = throw (codes "Unable to generate a valid Ethereum signature")

module _ {W : Type 0} (kms : KmsApi W) (crypto : CryptoApi) where
  -- `getPublicKey`: the key without its 0x04 prefix.
  public_key_body : Script W Bytes
  public_key_body = do
    der ← kms.get_public_key
    key ← lift (crypto.decode_public_key der)
    pure (drop 1 key)

  unfoldable pub get_public_key : Script W Bytes
  unfolding public_key_body
  get_public_key = rethrow "Failed to get public key: " public_key_body

  unfoldable pub get_ethereum_address : Script W Text
  unfolding public_key_body hex_prefixed to_hex
  get_ethereum_address = rethrow "Failed to get Ethereum address: " (do
    key ← public_key_body
    pure (hex_prefixed (to_hex (slice_last 20 (crypto.keccak256 key)))))

  -- One round of the loop over the recovery values: `some` is the signature that is returned,
  -- `none` goes on with the next round, also after a throw inside the `try`.
  unfoldable pub try_recovery : Text → Bytes → Bytes → ℕ → Script W (Option Text)
  try_recovery msg_hash r s v =
      try_catch
        (do
          let signature = full_signature r s v
          recovered ← or_throw (crypto.recover msg_hash signature) []
          expected ← get_ethereum_address
          pure (if same_address recovered expected then some signature else none))
        (λ _. pure none)

  -- v = 27, then v = 28.
  unfoldable pub to_ethereum_signature : Bytes → Bytes → Text → Script W Text
  to_ethereum_signature r s msg_hash = do
    let normalized_s = normalize_s s
    first ← try_recovery msg_hash r normalized_s 27
    found ← or_try first (try_recovery msg_hash r normalized_s 28)
    signature_or_throw found

  -- `signMessageHash` of the runner.
  unfoldable pub sign_message_hash : Text → Script W Text
  sign_message_hash msg_hash = rethrow "Failed to sign with KMS: " (do
    der ← kms.sign msg_hash
    (r, s) ← lift (parse_der_signature der)
    to_ethereum_signature r s msg_hash)

  -- `derToEthSignature` of the caller; its loop is that of the runner.
  unfoldable pub der_to_eth_signature : Bytes → Text → Script W Text
  der_to_eth_signature der msg_hash =
      let (r, s) = Caller.parse_der_signature der in to_ethereum_signature r s msg_hash
