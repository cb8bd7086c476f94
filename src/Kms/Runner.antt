-- ===== src/Kms/Runner.antt =====
-- The class AWSKMSSigner of scripts/aws-multisig-runner.js: reading the DER signature of the key
-- service.
use smart_contracts.Base.{
  ℕ, ◌+◌, ◌-◌, Bool, false, none, some, [], ◌∷◌, ◌++◌, ◌||◌, ltb, leb, ◌==◌, if◌then◌else◌, Text,
  codes, length, get_elem?, replicate, slice, slice_last,
}
use smart_contracts.Script.{Outcome, ok, err, exit}
use smart_contracts.Kms.Bytes.{Bytes, be_value}
use smart_contracts.Kms.Hex.{number_to_hex}

-- The order of the group of secp256k1.
abbrev pub secp256k1n : ℕ
secp256k1n = 0xFFFFFFFFFFFFFFFFFFFFFFFFFFFFFFFEBAAEDCE6AF48A03BBFD25E8CD0364141

unfoldable pub remove_leading_zeros : Bytes → Bytes
remove_leading_zeros [] = []
remove_leading_zeros (b ∷ bs) =
    let rest = remove_leading_zeros bs in if b == 0 then rest else b ∷ bs

unfoldable pub ensure32_bytes : Bytes → Bytes
ensure32_bytes buf =
    if length buf == 32
    then buf
    else if ltb 32 (length buf)
    then slice_last 32 buf
    else replicate (32 - length buf) 0 ++ buf

unfoldable pub validate_signature_components : Bytes → Bytes → Outcome (Unit {0})
validate_signature_components r s =
    if leb (be_value r) 0 || leb secp256k1n (be_value r)
    then err (codes "Invalid r value: " ++ number_to_hex (be_value r))
    else if leb (be_value s) 0 || leb secp256k1n (be_value s)
    then err (codes "Invalid s value: " ++ number_to_hex (be_value s))
    else ok tt

-- `signature[offset] === value`; past the end the buffer gives `undefined`.
unfoldable pub byte_is : Bytes → ℕ → ℕ → Bool
byte_is signature offset value = elim (get_elem? signature offset) [
  | none ↦ false
  | some b ↦ b == value
]

-- The body of an integer whose length byte is at `offset`. With no length byte the end is `NaN`,
-- and the slice is empty.
unfoldable pub read_integer : Bytes → ℕ → Bytes
read_integer signature offset = elim (get_elem? signature offset) [
  | none ↦ []
  | some len ↦ slice (offset + 1) (offset + 1 + len) signature
]

-- The `catch` of `parseDERSignature`.
abbrev pub der_failed : {A : Type 0} → Text → Outcome A
der_failed message = err (codes "DER parsing failed: " ++ message)

-- The last part of `parseDERSignature`: from the integers' bodies to checked 32-byte components.
unfoldable pub finish_components : Bytes → Bytes → Outcome (Bytes × Bytes)
finish_components r s =
    let r' = ensure32_bytes (remove_leading_zeros r) in
    let s' = ensure32_bytes (remove_leading_zeros s) in
    elim (validate_signature_components r' s') [
      | ok _ ↦ ok (r', s')
      | err message ↦ der_failed message
      | exit code ↦ exit code
    ]

-- What follows R, which ends before `offset`.
unfoldable pub parse_s : Bytes → Bytes → ℕ → Outcome (Bytes × Bytes)
parse_s signature r offset =
    if byte_is signature offset 0x02
    then finish_components r (read_integer signature (offset + 1))
    else der_failed (codes "Invalid DER format: missing S integer tag")

-- 0x30 [total-length] 0x02 [R-length] [R] 0x02 [S-length] [S]. With no R-length the offset of S is
-- `NaN`, where the tag of S is missing.
unfoldable pub parse_der_signature : Bytes → Outcome (Bytes × Bytes)
parse_der_signature signature =
    if byte_is signature 0 0x30
    then if byte_is signature 2 0x02
      then elim (get_elem? signature 3) [
        | none ↦ der_failed (codes "Invalid DER format: missing S integer tag")
        | some r_length ↦ parse_s signature (read_integer signature 3) (4 + r_length)
      ]
      else der_failed (codes "Invalid DER format: missing R integer tag")
    else der_failed (codes "Invalid DER format: missing sequence tag")
