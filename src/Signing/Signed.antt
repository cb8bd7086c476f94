-- ===== src/Signing/Signed.antt =====
-- What the hand-written conversion of scripts/aws-multisig-runner.js returns when it returns.
use smart_contracts.Base.{
  ℕ, ◌/◌, ◌≤◌, ◌<◌, ◌≡◌, ◌∙◌, ap, refl, ◌⊎◌, inl, inr, [], ◌∷◌, arith, Text, length, slice,
}
use smart_contracts.Script.{Outcome-cases, ok}
use smart_contracts.Kms.Bytes.{Bytes, be_value}
use smart_contracts.Kms.Hex.{to_hex}
use smart_contracts.Kms.Runner.{secp256k1n, parse_der_signature}
use smart_contracts.Kms.Components.{InRange}
use smart_contracts.Kms.Der.{parse_der_signature_sound}
use smart_contracts.Kms.Ethereum.{
  KmsApi, CryptoApi, full_signature, hex_prefixed, normalize_s, to_ethereum_signature,
  sign_message_hash,
}
use smart_contracts.Web3.{TxData, NodeApi, MulSigApi}
use smart_contracts.Signing.Runner.{Config, AccountsApi, SignedTxData, zero_key, sign_transaction}
use smart_contracts.Kms.Signature.{
  normalize_s_low, full_signature_layout, to_ethereum_signature_sound,
}

-- A signature as Ethereum wants it: r in range, s in the lower half, v 27 or 28, and the text that
-- they make.
pub record IsEthereumSignature (signature : Text) (r s : Bytes) (v : ℕ) : Type 0 where
  pub r_range : InRange r
  pub s_low : (0 < be_value s) × (be_value s ≤ secp256k1n / 2)
  pub v_known : (v ≡ 27) ⊎ (v ≡ 28)
  pub r_length : length r ≡ 32
  pub s_length : length s ≡ 32
  pub text : signature ≡ full_signature r s v

front :
    (r s : Bytes) (v : ℕ)
    → slice 0 66 (full_signature r s v) ≡ hex_prefixed (slice 2 66 (full_signature r s v))
unfolding full_signature hex_prefixed
front r s v = refl

module _ {W : Type 0} (kms : KmsApi W) (crypto : CryptoApi) where
  -- The steps of a signing that succeeded.
  signing_steps :
      (h signature : Text) (w w' : W)
      → sign_message_hash kms crypto h w ≡ (ok signature, w')
      → (der : Bytes) × (r s : Bytes) × (w₁ : W) × (kms.sign h w ≡ (ok der, w₁))
        × (parse_der_signature der ≡ ok (r, s))
        × (to_ethereum_signature kms crypto r s h w₁ ≡ (ok signature, w'))
  unfolding sign_message_hash
  signing_steps h signature w w' e = elim (Outcome-cases (kms.sign h w).0) [
    | inl (der, signed) ↦ elim (Outcome-cases (parse_der_signature der)) [
      | inl (rs, parsed) ↦
          elim (Outcome-cases (to_ethereum_signature kms crypto rs.0 rs.1 h (kms.sign h w).1).0) [
            | inl (t, found) ↦
                (der, rs.0, rs.1, (kms.sign h w).1, ground arith, parsed, ground arith)
            | inr (inl (m, failed)) ↦ absurd (ground arith)
            | inr (inr (c, left)) ↦ absurd (ground arith)
          ]
      | inr (inl (m, failed)) ↦ absurd (ground arith)
      | inr (inr (c, left)) ↦ absurd (ground arith)
    ]
    | inr (inl (m, failed)) ↦ absurd (ground arith)
    | inr (inr (c, left)) ↦ absurd (ground arith)
  ]

  -- A message hash that the runner signs gets an Ethereum signature: some r in range and s in the
  -- lower half, of 32 bytes each, and v = 27 or 28, written one after the other.
  pub sign_message_hash_ethereum :
      (h signature : Text) (w w' : W)
      → sign_message_hash kms crypto h w ≡ (ok signature, w')
      → (r s : Bytes) × (v : ℕ) × IsEthereumSignature signature r s v
  sign_message_hash_ethereum h signature w w' e =
      let (der, r, s, w₁, signed, parsed, built) = signing_steps h signature w w' e in
      let good = parse_der_signature_sound der r s parsed in
      let found = to_ethereum_signature_sound kms crypto r s h signature w₁ w' built in
      let low = normalize_s_low s good.1 good.3 in
      (
        r,
        normalize_s s,
        found.0,
        record {
          r_range = good.2;
          s_low = (low.1, low.2);
          v_known = found.1;
          r_length = good.0;
          s_length = low.0;
          text = found.2;
        },
      )

  -- The steps of a transaction that was signed.
  transaction_steps :
      (config : Config) (node : NodeApi W) (accounts : AccountsApi W) (api : MulSigApi W)
      (tx : TxData) (d : SignedTxData) (w w' : W)
      → sign_transaction config kms crypto node accounts api tx w ≡ (ok d, w')
      → (signature : Text) × (w₁ : W) × (sign_message_hash kms crypto d.message_hash w₁
          ≡ (ok signature, w'))
        × (d.r ≡ slice 0 66 signature)
        × (d.s ≡ hex_prefixed (slice 66 130 signature))
        × (d.v ≡ slice 130 132 signature)
        × (d.raw_transaction ≡ signature)
  unfolding sign_transaction
  transaction_steps config node accounts api tx d w w' e =
      let hashed = accounts.message_hash tx zero_key w in
      elim (Outcome-cases hashed.0) [
        | inl (h, found) ↦ elim (Outcome-cases (sign_message_hash kms crypto h hashed.1).0) [
          | inl (t, signed) ↦
              (t, hashed.1, ground arith, ground arith, ground arith, ground arith, ground arith)
          | inr (inl (m, failed)) ↦ absurd (ground arith)
          | inr (inr (c, left)) ↦ absurd (ground arith)
        ]
        | inr (inl (m, failed)) ↦ absurd (ground arith)
        | inr (inr (c, left)) ↦ absurd (ground arith)
      ]

  -- The fields of a transaction that the runner signs are those of an Ethereum signature: r and s
  -- as 0x and 64 digits, v as two digits, and the whole signature as the raw transaction.
  sign_transaction_fields :
      (config : Config) (node : NodeApi W) (accounts : AccountsApi W) (api : MulSigApi W)
      (tx : TxData) (d : SignedTxData) (w w' : W)
      → sign_transaction config kms crypto node accounts api tx w ≡ (ok d, w')
      → (r s : Bytes) × (v : ℕ) × IsEthereumSignature d.raw_transaction r s v
        × (d.r ≡ hex_prefixed (to_hex r))
        × (d.s ≡ hex_prefixed (to_hex s))
        × (d.v ≡ to_hex (v ∷ []))
  sign_transaction_fields config node accounts api tx d w w' e =
      let (sig, w₁, signed, dr, ds, dv, raw) =
        transaction_steps config node accounts api tx d w w' e in
      let (r, s, v, good) = sign_message_hash_ethereum d.message_hash sig w₁ w' signed in
      let (long, rs, ss, vs) = full_signature_layout r s v good.r_length good.s_length in
      (
        r,
        s,
        v,
        rw raw good,
        dr ∙ ap (slice 0 66) good.text ∙ (front r s v ∙ ap hex_prefixed rs),
        ds ∙ ap (λ (t : Text). hex_prefixed (slice 66 130 t)) good.text ∙ ap hex_prefixed ss,
        dv ∙ ap (slice 130 132) good.text ∙ vs,
      )
