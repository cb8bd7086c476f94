-- ===== src/Kms/Signature.antt =====
-- The Ethereum signature that `toEthereumSignature` builds: its low s, its layout, and that it is
-- returned only if it recovers to the address of the key.
use mathlib.Core.List.{append_assoc}
use smart_contracts.Base.{
  ℕ, ◌+◌, ◌-◌, ◌/◌, ◌≤◌, ◌<◌, ◌≡◌, refl, ◌⊎◌, inl, inr, true, Option, none, some, [], ◌∷◌, ◌++◌,
  arith, ltb, Bool-cases, ltb→lt, ltb-false→le, le→leb, Option-cases, Text, length, slice,
  same_address, length-append, take-append_at, drop-append_at,
}
use smart_contracts.Script.{Outcome, ok, Outcome-cases, Script, ◌>>=◌}
use smart_contracts.Kms.Bytes.{Bytes, be_value, length-be_bytes, be_value-be_bytes}
use smart_contracts.Kms.Hex.{to_hex, length-to_hex}
use smart_contracts.Kms.Runner.{secp256k1n}
use smart_contracts.Kms.Components.{InRange}
use smart_contracts.Kms.Ethereum.{
  KmsApi, CryptoApi, full_signature, order_minus, normalize_s, get_ethereum_address, try_recovery,
  to_ethereum_signature, signature_or_throw,
}

order_minus_lem :
    (s : Bytes)
    → be_value s ≤ secp256k1n
    → (length (order_minus s) ≡ 32) × (be_value (order_minus s) ≡ secp256k1n - be_value s)
unfolding order_minus
order_minus_lem s h = rw (le→leb _ _ h) (
  length-be_bytes 32 (secp256k1n - be_value s),
  be_value-be_bytes 32 (secp256k1n - be_value s) (omega arith),
)

-- The normalised s has 32 bytes, is at least 1 and at most n/2, and it is s or n - s.
pub normalize_s_low :
    (s : Bytes)
    → length s ≡ 32
    → InRange s
    → (length (normalize_s s) ≡ 32)
      × (0 < be_value (normalize_s s))
      × (be_value (normalize_s s) ≤ secp256k1n / 2)
      × ((be_value (normalize_s s) ≡ be_value s)
          ⊎ (be_value (normalize_s s) + be_value s ≡ secp256k1n))
unfolding normalize_s
normalize_s_low s len h = elim (Bool-cases (ltb (secp256k1n / 2) (be_value s))) [
  | inl high ↦
      let low = order_minus_lem s (omega (arith, h.1)) in
      let above : secp256k1n / 2 < be_value s = ltb→lt _ _ high in
      rw high (
        low.0,
        omega (arith, low.1, h.1),
        omega (arith, low.1, above),
        inr (omega (arith, low.1, h.1)),
      )
  | inr small ↦
      let below : be_value s ≤ secp256k1n / 2 = ltb-false→le _ _ small in
      rw small (len, h.0, below, inl refl)
]

-- The text of a signature: 0x, then 64 digits of r, 64 of s and 2 of v.
pub full_signature_layout :
    (r s : Bytes) (v : ℕ)
    → length r ≡ 32
    → length s ≡ 32
    → (length (full_signature r s v) ≡ 132)
      × (slice 2 66 (full_signature r s v) ≡ to_hex r)
      × (slice 66 130 (full_signature r s v) ≡ to_hex s)
      × (slice 130 132 (full_signature r s v) ≡ to_hex (v ∷ []))
unfolding full_signature
full_signature_layout r s v hr hs =
    let hex_v : Text = to_hex (v ∷ []) in
    let len_r : length (to_hex r) ≡ 64 = omega (arith, length-to_hex r) in
    let len_s : length (to_hex s) ≡ 64 = omega (arith, length-to_hex s) in
    let len_rs : length (to_hex r ++ to_hex s) ≡ 128 =
      omega (arith, length-append (to_hex r) (to_hex s)) in
    (
      omega (arith, length-append (to_hex r ++ to_hex s) hex_v),
      rw (append_assoc (to_hex r) (to_hex s) hex_v)
          (take-append_at (to_hex r) (to_hex s ++ hex_v) len_r),
      rw (append_assoc (to_hex r) (to_hex s) hex_v) (
          rw (drop-append_at {n = 64} (to_hex r) (to_hex s ++ hex_v) len_r)
            (take-append_at (to_hex s) hex_v len_s)),
      rw (drop-append_at {n = 128} (to_hex r ++ to_hex s) hex_v len_rs) refl,
    )

-- The second round ends the search.
second_found :
    {W : Type 0} (round : Outcome (Option Text) × W) (sig : Text) (w : W)
    → let search : Script W Text = (λ (_ : W). round) >>= signature_or_throw in
      search round.1 ≡ (ok sig, w) → round ≡ (ok (some sig), w)
second_found round sig w e = ground arith

module _ {W : Type 0} (kms : KmsApi W) (crypto : CryptoApi) where
  -- One round that finds a signature has checked it: it recovers to the address of the key.
  try_recovery-some :
      (h : Text) (r s : Bytes) (v : ℕ) (w w' : W) (sig : Text)
      → try_recovery kms crypto h r s v w ≡ (ok (some sig), w')
      → (sig ≡ full_signature r s v)
        × (a b : Text) × (crypto.recover h sig ≡ some a)
        × (get_ethereum_address kms crypto w ≡ (ok b, w'))
        × (same_address a b ≡ true)
  unfolding try_recovery
  try_recovery-some h r s v w w' sig e =
      elim (Option-cases (crypto.recover h (full_signature r s v))) [
        | inl failed ↦ absurd (ground arith)
        | inr (a, recovered) ↦ elim (Outcome-cases (get_ethereum_address kms crypto w).0) [
          | inl (b, expected) ↦ (ground arith, a, b, ground arith, ground arith, ground arith)
          | inr (inl (m, failed)) ↦ absurd (ground arith)
          | inr (inr (c, left)) ↦ absurd (ground arith)
        ]
      ]

  -- A signature that is returned has v = 27 or 28 and the normalised s, and it recovers to the
  -- address of the key, up to the case of the letters.
  pub to_ethereum_signature_sound :
      (r s : Bytes) (h sig : Text) (w w' : W)
      → to_ethereum_signature kms crypto r s h w ≡ (ok sig, w')
      → (v : ℕ) × ((v ≡ 27) ⊎ (v ≡ 28))
        × (sig ≡ full_signature r (normalize_s s) v)
        × (a b : Text) × (w₁ : W) × (crypto.recover h sig ≡ some a)
        × (get_ethereum_address kms crypto w₁ ≡ (ok b, w'))
        × (same_address a b ≡ true)
  unfolding to_ethereum_signature
  to_ethereum_signature_sound r s h sig w w' e =
      let t = normalize_s s in
      let round = try_recovery kms crypto h r t 27 w in
      elim (Outcome-cases round.0) [
        | inl (found, first) ↦ elim (Option-cases found) [
          | inl nothing ↦
              let round' = try_recovery kms crypto h r t 28 round.1 in
              let again : round' ≡ (ok (some sig), w') =
                second_found round' sig w' (ground arith) in
              let parts = try_recovery-some h r t 28 round.1 w' sig again in
              (28, inr refl, parts.0, parts.1, parts.2, round.1, parts.3, parts.4, parts.5)
          | inr (sig₁, here) ↦
              let parts = try_recovery-some h r t 27 w w' sig (ground arith) in
              (27, inl refl, parts.0, parts.1, parts.2, w, parts.3, parts.4, parts.5)
        ]
        | inr (inl (m, failed)) ↦ absurd (ground arith)
        | inr (inr (c, left)) ↦ absurd (ground arith)
      ]

  -- A round with a key service that answers `b` and changes nothing.
  try_recovery_hit :
      (r s : Bytes) (h a b : Text) (v : ℕ) (w : W)
      → get_ethereum_address kms crypto w ≡ (ok b, w)
      → crypto.recover h (full_signature r s v) ≡ some a
      → same_address a b ≡ true
      → try_recovery kms crypto h r s v w ≡ (ok (some (full_signature r s v)), w)
  unfolding try_recovery
  try_recovery_hit r s h a b v w steady recovered same = ground arith

  try_recovery_any :
      (r s : Bytes) (h b : Text) (v : ℕ) (w : W)
      → get_ethereum_address kms crypto w ≡ (ok b, w)
      → (try_recovery kms crypto h r s v w ≡ (ok (some (full_signature r s v)), w))
        ⊎ (try_recovery kms crypto h r s v w ≡ (ok none, w))
  unfolding try_recovery
  try_recovery_any r s h b v w steady = ground arith

  -- With a key service that answers with the address and changes nothing, a signature is returned
  -- as soon as one of the two recovery values recovers to that address.
  pub to_ethereum_signature_complete :
      (r s : Bytes) (h a b : Text) (v : ℕ) (w : W)
      → get_ethereum_address kms crypto w ≡ (ok b, w)
      → (v ≡ 27) ⊎ (v ≡ 28)
      → crypto.recover h (full_signature r (normalize_s s) v) ≡ some a
      → same_address a b ≡ true
      → (sig : Text) × (to_ethereum_signature kms crypto r s h w ≡ (ok sig, w))
  unfolding to_ethereum_signature
  to_ethereum_signature_complete r s h a b v w steady (inl is27) recovered same =
      let hit = try_recovery_hit r (normalize_s s) h a b 27 w steady (rw (← is27) recovered) same in
      (full_signature r (normalize_s s) 27, ground (arith, hit))
  to_ethereum_signature_complete r s h a b v w steady (inr is28) recovered same =
      let hit = try_recovery_hit r (normalize_s s) h a b 28 w steady (rw (← is28) recovered) same in
      elim (try_recovery_any r (normalize_s s) h b 27 w steady) [
        | inl first ↦ (full_signature r (normalize_s s) 27, ground arith)
        | inr missed ↦ (full_signature r (normalize_s s) 28, ground (arith, hit))
      ]
