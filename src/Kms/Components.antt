-- ===== src/Kms/Components.antt =====
-- What the components of a signature keep: their value, and their 32 bytes.
use native.Mathlib.Nat.{pow-le-pow_right}
use smart_contracts.Base.{
  ℕ, ◌+◌, ◌-◌, ◌*◌, ◌^◌, ◌≤◌, ◌<◌, ◌≡◌, ◌∙◌, ◌||◌, refl, ◌⊎◌, inl, inr, false, [], ◌∷◌, ◌++◌, arith,
  ltb, leb, ◌==◌, Bool-cases, ltb→lt, ==_iff, length, replicate, slice_last, length-append,
  length-replicate, length-slice_last, if◌then◌else◌,
}
use smart_contracts.Script.{ok}
use smart_contracts.Kms.Bytes.{Bytes, be_value, be_value-replicate, value_from_lower}
use smart_contracts.Kms.Runner.{
  secp256k1n, remove_leading_zeros, ensure32_bytes, validate_signature_components,
}
use smart_contracts.Kms.Caller.{drop_zeros, normalize_signature_component}

-- Dropping the zeros in front does not change the value.
pub be_value-remove_leading_zeros : (bs : Bytes) → be_value (remove_leading_zeros bs) ≡ be_value bs
unfolding be_value remove_leading_zeros
be_value-remove_leading_zeros [] = refl
be_value-remove_leading_zeros (b ∷ bs) = ground (arith, be_value-remove_leading_zeros bs)

be_value_zero_head : (b : ℕ) (bs : Bytes) → b ≡ 0 → be_value (b ∷ bs) ≡ be_value bs
unfolding be_value
be_value_zero_head b bs h = rw h

-- A buffer with no zero in front has the value of its length at least.
long_value : (b : ℕ) (bs : Bytes) → 0 < b → 256 ^ length bs ≤ be_value (b ∷ bs)
unfolding be_value
long_value b bs h = grind (arith, value_from_lower (0 * 256 + b) bs)

-- A value below 256 ^ 32 leaves no room for a thirty-third byte behind a first one.
short_tail : (b : ℕ) (bs : Bytes) → 0 < b → be_value (b ∷ bs) < 256 ^ 32 → length bs < 32
short_tail b bs p h = elim (Bool-cases (ltb (length bs) 32)) [
  | inl e ↦ ltb→lt _ _ e
  | inr e ↦ absurd (
      ground (
        arith,
        long_value b bs p,
        pow-le-pow_right {n = 256} (omega arith) {i = 32} {j = length bs} (ground arith),
      ))
]

pub length-remove_leading_zeros :
    (bs : Bytes) → be_value bs < 256 ^ 32 → length (remove_leading_zeros bs) ≤ 32
unfolding remove_leading_zeros
length-remove_leading_zeros [] h = omega arith
length-remove_leading_zeros (b ∷ bs) h = elim (Bool-cases (b == 0)) [
  | inl e ↦
      rw e
        (length-remove_leading_zeros bs (omega (arith, be_value_zero_head b bs ((==_iff b 0).0 e))))
  | inr e ↦ rw e (short_tail b bs (ground arith) h)
]

pub length-ensure32_bytes : (bs : Bytes) → length (ensure32_bytes bs) ≡ 32
unfolding ensure32_bytes
length-ensure32_bytes bs = ground (
  arith,
  length-append (replicate (32 - length bs) 0) bs,
  length-replicate {A = ℕ} (32 - length bs) 0,
  length-slice_last 32 bs,
)

pub be_value-ensure32_bytes :
    (bs : Bytes) → length bs ≤ 32 → be_value (ensure32_bytes bs) ≡ be_value bs
unfolding ensure32_bytes
be_value-ensure32_bytes bs h = ground (arith, be_value-replicate (32 - length bs) bs)

-- A value that fits 32 bytes keeps its value, and gets 32 bytes.
pub be_value-component :
    (bs : Bytes)
    → be_value bs < 256 ^ 32
    → be_value (ensure32_bytes (remove_leading_zeros bs)) ≡ be_value bs
be_value-component bs h =
    be_value-ensure32_bytes (remove_leading_zeros bs) (length-remove_leading_zeros bs h)
    ∙ be_value-remove_leading_zeros bs

range_test : (a n : ℕ) → 0 < a → a < n → (leb a 0 || leb n a) ≡ false
range_test a n h k = ground arith

range_test_inv : (a n : ℕ) → (leb a 0 || leb n a) ≡ false → (0 < a) × (a < n)
range_test_inv a n h = ground arith

-- The range check of the runner.
abbrev pub InRange : Bytes → Type 0
InRange bs = (0 < be_value bs) × (be_value bs < secp256k1n)

pub validate_ok : (r s : Bytes) → InRange r → InRange s → validate_signature_components r s ≡ ok tt
unfolding validate_signature_components
validate_ok r s h k =
    rw (range_test (be_value r) secp256k1n h.0 h.1, range_test (be_value s) secp256k1n k.0 k.1) refl

pub validate-InRange :
    (r s : Bytes) → validate_signature_components r s ≡ ok tt → InRange r × InRange s
unfolding validate_signature_components
validate-InRange r s h = elim (Bool-cases (leb (be_value r) 0 || leb secp256k1n (be_value r))) [
  | inl bad ↦ cc (rw bad at h)
  | inr good_r ↦ elim (Bool-cases (leb (be_value s) 0 || leb secp256k1n (be_value s))) [
    | inl bad ↦ cc (rw (good_r, bad) at h)
    | inr good_s ↦ (range_test_inv _ _ good_r, range_test_inv _ _ good_s)
  ]
]

-- The two loops over the zeros in front differ only on a buffer of zeros, where one zero stays.
drop_zeros-cases :
    (bs : Bytes)
    → (drop_zeros bs ≡ remove_leading_zeros bs)
      ⊎ ((drop_zeros bs ≡ 0 ∷ []) × (remove_leading_zeros bs ≡ []))
unfolding drop_zeros remove_leading_zeros
drop_zeros-cases [] = inl refl
drop_zeros-cases (b ∷ []) = ground arith
drop_zeros-cases (b ∷ c ∷ bs) = ground (arith, drop_zeros-cases (c ∷ bs))

slice_last_all : (n : ℕ) (bs : Bytes) → length bs ≡ n → slice_last n bs ≡ bs
slice_last_all n bs h = let e : length bs - n ≡ 0 = omega arith in rw e refl

pad_or_cut :
    (c : Bytes)
    → (if ltb (length c) 32 then replicate (32 - length c) 0 ++ c else slice_last 32 c)
      ≡ ensure32_bytes c
unfolding ensure32_bytes
pad_or_cut c = ground (arith, slice_last_all 32 c)

-- The caller's normalisation gives what the runner's two steps give.
pub normalize-eq-ensure32 :
    (bs : Bytes) → normalize_signature_component bs ≡ ensure32_bytes (remove_leading_zeros bs)
unfolding normalize_signature_component
normalize-eq-ensure32 bs = elim (drop_zeros-cases bs) [
  | inl same ↦ rw same (pad_or_cut (remove_leading_zeros bs))
  | inr (one, nothing) ↦ rw (one, nothing) (unfold ensure32_bytes in refl)
]
