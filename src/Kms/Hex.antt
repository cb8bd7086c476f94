-- ===== src/Kms/Hex.antt =====
-- Texts of numbers: `buffer.toString('hex')`, `BigInt.toString(16)` and a number in a template.
use smart_contracts.Base.{
  ℕ, zero, suc, ◌+◌, ◌*◌, ◌/◌, ◌%◌, ◌≡◌, refl, [], ◌∷◌, ◌++◌, arith, ltb, ◌==◌, if◌then◌else◌, Text,
  length,
}
use smart_contracts.Kms.Bytes.{Bytes, be_bytes}

unfoldable pub hex_digit : ℕ → ℕ
hex_digit d = if ltb d 10 then 48 + d else 87 + d

-- `buffer.toString('hex')`
unfoldable pub to_hex : Bytes → Text
unfolding hex_digit
to_hex [] = []
to_hex (b ∷ bs) = hex_digit (b / 16) ∷ hex_digit (b % 16) ∷ to_hex bs

pub length-to_hex : (bs : Bytes) → length (to_hex bs) ≡ 2 * length bs
unfolding to_hex
length-to_hex [] = refl
length-to_hex (b ∷ bs) = omega (arith, length-to_hex bs)

pub to_hex-append : (xs ys : Bytes) → to_hex (xs ++ ys) ≡ to_hex xs ++ to_hex ys
unfolding to_hex
to_hex-append [] ys = refl
to_hex-append (x ∷ xs) ys = rw (to_hex-append xs ys)

-- The digits without the zeros in front; the last digit stays.
strip_zeros : Text → Text
strip_zeros [] = []
strip_zeros (c ∷ []) = c ∷ []
strip_zeros (c ∷ d ∷ t) = let rest = strip_zeros (d ∷ t) in if c == 48 then rest else c ∷ d ∷ t

-- `n.toString(16)` for `n < 256 ^ 32`.
unfoldable pub number_to_hex : ℕ → Text
unfolding strip_zeros to_hex be_bytes
number_to_hex n = strip_zeros (to_hex (be_bytes 32 n))

-- The last `fuel` digits of a number; 78 are enough below 2 ^ 256.
decimal_digits : ℕ → ℕ → Text
decimal_digits zero n = []
decimal_digits (suc fuel) n =
    let front = decimal_digits fuel (n / 10) in
    (if ltb n 10 then [] else front) ++ ((48 + n % 10) ∷ [])

-- `${n}`
unfoldable pub decimal : ℕ → Text
unfolding decimal_digits
decimal n = decimal_digits 78 n
