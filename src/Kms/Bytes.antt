-- ===== src/Kms/Bytes.antt =====
-- Node buffers as lists of bytes, the BigInt that a buffer's hexadecimal text stands for, and
-- hexadecimal texts.
use native.Mathlib.Nat.{pow-suc}
use smart_contracts.Base.{
  ℕ, zero, suc, ◌+◌, ◌*◌, ◌/◌, ◌%◌, ◌^◌, ◌≤◌, ◌<◌, ◌≡◌, refl, List, [], ◌∷◌, ◌++◌, arith, length,
  replicate, length-append,
}

abbrev pub Bytes : Type 0
Bytes = List ℕ

-- `BigInt('0x' + buffer.toString('hex'))`, with the digits read so far.
unfoldable pub value_from : ℕ → Bytes → ℕ
value_from acc [] = acc
value_from acc (b ∷ bs) = value_from (acc * 256 + b) bs

unfoldable pub be_value : Bytes → ℕ
unfolding value_from
be_value bs = value_from 0 bs

-- The `k` low bytes of `n`: `Buffer.from(n.toString(16).padStart(2 * k, '0'), 'hex')`, for
-- `n < 256 ^ k`.
unfoldable pub be_bytes : ℕ → ℕ → Bytes
be_bytes zero n = []
be_bytes (suc k) n = be_bytes k (n / 256) ++ (n % 256) ∷ []

pub length-be_bytes : (k n : ℕ) → length (be_bytes k n) ≡ k
unfolding be_bytes
length-be_bytes zero n = refl
length-be_bytes (suc k) n =
    omega
      (arith, length-append (be_bytes k (n / 256)) ((n % 256) ∷ []), length-be_bytes k (n / 256))

pub value_from-append :
    (acc : ℕ) (xs ys : Bytes) → value_from acc (xs ++ ys) ≡ value_from (value_from acc xs) ys
unfolding value_from
value_from-append acc [] ys = refl
value_from-append acc (x ∷ xs) ys = value_from-append (acc * 256 + x) xs ys

be_value-be_bytes_step : (n m : ℕ) → n < m * 256 → n / 256 < m
be_value-be_bytes_step n m h = omega arith

pub be_value-be_bytes : (k n : ℕ) → n < 256 ^ k → be_value (be_bytes k n) ≡ n
unfolding be_value be_bytes
be_value-be_bytes zero n h = omega arith
be_value-be_bytes (suc k) n h = rw (value_from-append 0 (be_bytes k (n / 256)) ((n % 256) ∷ [])) (
    omega
      (arith, be_value-be_bytes k (n / 256) (be_value-be_bytes_step n (256 ^ k) (rw pow-suc at h))))

-- A prefix of zero bytes does not change the value.
pub be_value-replicate : (k : ℕ) (bs : Bytes) → be_value (replicate k 0 ++ bs) ≡ be_value bs
unfolding be_value
be_value-replicate zero bs = refl
be_value-replicate (suc k) bs = be_value-replicate k bs

-- A value is at least what its first digits give.
pub value_from_lower : (acc : ℕ) (bs : Bytes) → acc * 256 ^ length bs ≤ value_from acc bs
unfolding value_from
value_from_lower acc [] = omega arith
value_from_lower acc (b ∷ bs) = rw pow-suc (grind (arith, value_from_lower (acc * 256 + b) bs))
