-- ===== src/Signing/Calling.antt =====
-- What a call with scripts/kms-contract-caller.js comes to.
use smart_contracts.Base.{
  ℕ, ◌+◌, ◌*◌, ◌<◌, ◌≡◌, ◌≢◌, inl, inr, [], ◌∷◌, ◌++◌, Bool-cases, ltb, ltb→lt, ltb-false→le, arith,
  Text, same_address, length, replicate, ◌-◌, length-append, length-replicate, length-slice_last,
}
use smart_contracts.Script.{Outcome-cases, ok, err}
use smart_contracts.Web3.{Receipt, TxData, NodeApi}
use smart_contracts.Kms.Bytes.{Bytes}
use smart_contracts.Kms.Runner.{read_integer}
use smart_contracts.Kms.Hex.{to_hex, length-to_hex}
use smart_contracts.Kms.Caller.{normalize_signature_component, drop_zeros}
use smart_contracts.Kms.Ethereum.{
  KmsApi, CryptoApi, hex_prefixed, get_ethereum_address, full_signature, normalize_s,
  der_to_eth_signature,
}
use smart_contracts.Kms.Signature.{to_ethereum_signature_sound}
use smart_contracts.Kms.Caller.{parse_der_signature}
use smart_contracts.Signing.Caller

length-normalize : (bs : Bytes) → length (normalize_signature_component bs) ≡ 32
unfolding normalize_signature_component
length-normalize bs = elim (Bool-cases (ltb (length (drop_zeros bs)) 32)) [
  | inl e ↦ rw e (
      omega (
        arith,
        length-append (replicate (32 - length (drop_zeros bs)) 0) (drop_zeros bs),
        length-replicate {A = ℕ} (32 - length (drop_zeros bs)) 0,
        ltb→lt _ _ e,
      ))
  | inr e ↦ rw e (omega (arith, length-slice_last 32 (drop_zeros bs), ltb-false→le _ _ e))
]

length-full_signature :
    (r s : Bytes) (v : ℕ) → length (full_signature r s v) ≡ 2 * length r + 2 * length s + 4
unfolding full_signature hex_prefixed to_hex
length-full_signature r s v =
    let hex_v : Text = to_hex (v ∷ []) in
    omega (
      arith,
      length-append (to_hex r ++ to_hex s) hex_v,
      length-append (to_hex r) (to_hex s),
      length-to_hex r,
      length-to_hex s,
    )

module _ {W : Type 0} (kms : KmsApi W) (crypto : CryptoApi) where
  -- The text of a signature is never as short as the text of a private key.
  long_signature :
      (der : Bytes) (h sig : Text) (w w' : W)
      → der_to_eth_signature kms crypto der h w ≡ (ok sig, w')
      → 66 < length sig
  unfolding der_to_eth_signature parse_der_signature
  long_signature der h sig w w' e =
      let (r, s) = parse_der_signature der in
      let (v, known, text, _, _, _, _, _, _) =
        to_ethereum_signature_sound kms crypto r s h sig w w' e in
      rw text (
        omega
          (arith, length-full_signature r (normalize_s s) v, length-normalize (read_integer der 3)))

module _ {W : Type 0} (kms : KmsApi W) (crypto : CryptoApi) (node : NodeApi W)
    (accounts : Caller.AccountsApi W) where
  -- With a web3 that refuses a private key which is not 0x and 64 digits, no transaction is ever
  -- signed: the key of the second signing is a signature.
  never_signed :
      ((tx : TxData) (key : Text) (w : W)
        → length key ≢ 66
        → (m : Text) × (accounts.sign_transaction tx key w ≡ (err m, w)))
      → (tx : TxData) (raw : Text) (w w' : W)
      → Caller.sign_transaction kms crypto node accounts tx w ≢ (ok raw, w')
  unfolding Caller.sign_transaction
  never_signed refuses tx raw w w' e =
      let temp = accounts.sign_transaction tx Caller.zero_key w in
      elim (Outcome-cases temp.0) [
        | inl (t, hashed) ↦
            let der = Caller.sign_transaction_hash kms crypto node accounts t.message_hash temp.1 in
            elim (Outcome-cases der.0) [
              | inl (d, signed) ↦
                  let built = der_to_eth_signature kms crypto d t.message_hash der.1 in
                  elim (Outcome-cases built.0) [
                    | inl (sig, found) ↦
                        let long =
                          long_signature kms crypto d t.message_hash sig der.1 built.1
                            (ground arith) in
                        let no =
                          refuses tx sig built.1 (λ same. absurd (omega (arith, long, same))) in
                        absurd (ground arith)
                    | inr (inl (m, failed)) ↦ absurd (ground arith)
                    | inr (inr (c, left)) ↦ absurd (ground arith)
                  ]
              | inr (inl (m, failed)) ↦ absurd (ground arith)
              | inr (inr (c, left)) ↦ absurd (ground arith)
            ]
        | inr (inl (m, failed)) ↦ absurd (ground arith)
        | inr (inr (c, left)) ↦ absurd (ground arith)
      ]

  -- With a web3 that refuses a private key which is not 0x and 64 digits, a call of a contract
  -- method never succeeds, whatever the key service and the node answer.
  pub call_contract_method_fails :
      ((tx : TxData) (key : Text) (w : W)
        → length key ≢ 66
        → (m : Text) × (accounts.sign_transaction tx key w ≡ (err m, w)))
      → (params : Caller.CallParams) (receipt : Receipt) (w w' : W)
      → Caller.call_contract_method kms crypto node accounts params w
        ≢ (ok (Caller.success receipt), w')
  unfolding Caller.call_contract_method
  call_contract_method_fails refuses params receipt w w' e =
      let built = Caller.build_transaction_data kms crypto node accounts params in
      let address = get_ethereum_address kms crypto w in
      elim (Outcome-cases address.0) [
        | inl (a, derived) ↦ elim (Bool-cases (same_address a params.from_address)) [
          | inl same ↦ elim (Outcome-cases (built address.1).0) [
            | inl (tx, made) ↦
                let signed =
                  Caller.sign_transaction kms crypto node accounts tx (built address.1).1 in
                elim (Outcome-cases signed.0) [
                  | inl (raw, found) ↦
                      absurd
                        (never_signed refuses tx raw (built address.1).1 signed.1 (ground arith))
                  | inr (inl (m, failed)) ↦ absurd (ground arith)
                  | inr (inr (c, left)) ↦ absurd (ground arith)
                ]
            | inr (inl (m, failed)) ↦ absurd (ground arith)
            | inr (inr (c, left)) ↦ absurd (ground arith)
          ]
          | inr other ↦ absurd (ground arith)
        ]
        | inr (inl (m, failed)) ↦ absurd (ground arith)
        | inr (inr (c, left)) ↦ absurd (ground arith)
      ]
