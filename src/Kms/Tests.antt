-- ===== src/Kms/Tests.antt =====
-- Runs of the signature conversion on a short signature, with a key service that always answers.
use smart_contracts.Base.{
  ℕ, ◌+◌, ◌/◌, ◌≤◌, ◌<◌, ◌≡◌, refl, ◌⊎◌, inl, true, some, [], ◌∷◌, ◌++◌, arith, Text, codes, length,
  replicate, same_address, same_address_refl,
}
use smart_contracts.Script.{ok}
use smart_contracts.Kms.Bytes.{Bytes, be_value}
use smart_contracts.Kms.Runner.{
  secp256k1n, remove_leading_zeros, ensure32_bytes, validate_signature_components, byte_is,
  read_integer, finish_components, parse_s, parse_der_signature,
}
use smart_contracts.Kms.Caller
use smart_contracts.Kms.Components.{InRange}
use smart_contracts.Kms.Der.{
  der_encoding, parse-der_encoding, parse_der_signature_sound, Caller-parse_agrees,
}
use smart_contracts.Kms.Ethereum.{
  KmsApi, CryptoApi, full_signature, normalize_s, try_recovery, to_ethereum_signature,
  get_ethereum_address,
}
use smart_contracts.Kms.Signature.{
  normalize_s_low, to_ethereum_signature_sound, to_ethereum_signature_complete,
}

-- The encoding of r = 1 and s = 2.
abbrev pub der : Bytes
der = 48 ∷ 6 ∷ 2 ∷ 1 ∷ 1 ∷ 2 ∷ 1 ∷ 2 ∷ []

abbrev pub r_bytes : Bytes
r_bytes = replicate 31 0 ++ 1 ∷ []

abbrev pub s_bytes : Bytes
s_bytes = replicate 31 0 ++ 2 ∷ []

abbrev pub address : Text
address = codes "0x0707070707070707070707070707070707070707"

abbrev pub kms : {W : Type 0} → KmsApi W
kms = record { get_public_key = λ w. (ok (4 ∷ []), w); sign = λ h w. (ok der, w) }

abbrev pub crypto : CryptoApi
crypto = record {
  decode_public_key = λ bs. ok bs;
  keccak256 = λ bs. replicate 32 7;
  recover = λ h sig. some address;
}

pub parse_run : parse_der_signature der ≡ ok (r_bytes, s_bytes)
unfolding parse_der_signature byte_is parse_s finish_components validate_signature_components
    be_value ensure32_bytes remove_leading_zeros read_integer
parse_run = refl

one-InRange : InRange (1 ∷ [])
unfolding be_value
one-InRange = (omega arith, omega arith)

two-InRange : InRange (2 ∷ [])
unfolding be_value
two-InRange = (omega arith, omega arith)

s_bytes-InRange : InRange s_bytes
unfolding be_value
s_bytes-InRange = (omega arith, omega arith)

pub address_run : get_ethereum_address kms crypto tt ≡ (ok address, tt)
unfolding get_ethereum_address codes
address_run = refl

abbrev pub signature : Text
signature = full_signature r_bytes (normalize_s s_bytes) 27

pub signature_run :
    to_ethereum_signature kms crypto r_bytes s_bytes (codes "0x01") tt ≡ (ok signature, tt)
unfolding to_ethereum_signature try_recovery get_ethereum_address same_address codes
signature_run = refl

parse-der_encoding_example :
    (r s : Bytes) × (parse_der_signature (der_encoding 6 (1 ∷ []) (2 ∷ [])) ≡ ok (r, s))
    × (length r ≡ 32)
    × (length s ≡ 32)
    × (be_value r ≡ be_value (1 ∷ []))
    × (be_value s ≡ be_value (2 ∷ []))
parse-der_encoding_example = parse-der_encoding 6 (1 ∷ []) (2 ∷ []) one-InRange two-InRange

parse_der_signature_sound_example :
    (length r_bytes ≡ 32) × (length s_bytes ≡ 32) × InRange r_bytes × InRange s_bytes
parse_der_signature_sound_example = parse_der_signature_sound der r_bytes s_bytes parse_run

Caller-parse_agrees_example : Caller.parse_der_signature der ≡ (r_bytes, s_bytes)
Caller-parse_agrees_example = Caller-parse_agrees der r_bytes s_bytes parse_run

normalize_s_low_example :
    (length (normalize_s s_bytes) ≡ 32)
    × (0 < be_value (normalize_s s_bytes))
    × (be_value (normalize_s s_bytes) ≤ secp256k1n / 2)
    × ((be_value (normalize_s s_bytes) ≡ be_value s_bytes)
        ⊎ (be_value (normalize_s s_bytes) + be_value s_bytes ≡ secp256k1n))
normalize_s_low_example = normalize_s_low s_bytes refl s_bytes-InRange

to_ethereum_signature_sound_example :
    (v : ℕ) × ((v ≡ 27) ⊎ (v ≡ 28))
    × (signature ≡ full_signature r_bytes (normalize_s s_bytes) v)
    × (a b : Text) × (w₁ : Unit {0}) × (crypto.recover (codes "0x01") signature ≡ some a)
    × (get_ethereum_address kms crypto w₁ ≡ (ok b, tt))
    × (same_address a b ≡ true)
to_ethereum_signature_sound_example =
    to_ethereum_signature_sound kms crypto r_bytes s_bytes (codes "0x01") signature tt tt
      signature_run

to_ethereum_signature_complete_example :
    (sig : Text) × (to_ethereum_signature kms crypto r_bytes s_bytes (codes "0x01") tt
      ≡ (ok sig, tt))
to_ethereum_signature_complete_example =
    to_ethereum_signature_complete kms crypto r_bytes s_bytes (codes "0x01") address address 27 tt
      address_run (inl refl) refl (same_address_refl address)
