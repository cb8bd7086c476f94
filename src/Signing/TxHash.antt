-- ===== src/Signing/TxHash.antt =====
-- The transaction hash in an error message: `message.includes(…)` and the match of
-- /Transaction Hash: (0x[a-fA-F0-9]{64})/.
use smart_contracts.Base.{
  ℕ, zero, suc, Bool, true, false, ◌&&◌, ◌||◌, Option, none, some, [], ◌∷◌, leb, ◌==◌,
  if◌then◌else◌, Text, codes,
}

unfoldable pub is_hex_digit : ℕ → Bool
is_hex_digit c = leb b'a' c && leb c b'f' || leb b'A' c && leb c b'F' || leb b'0' c && leb c b'9'

-- `[a-fA-F0-9]{n}` at the start of a text: the characters that it takes.
unfoldable pub hex_digits : ℕ → Text → Option Text
hex_digits zero t = some []
hex_digits (suc n) [] = none
hex_digits (suc n) (c ∷ t) =
    let rest = hex_digits n t in
    if is_hex_digit c then elim rest [ none ↦ none | some ds ↦ some (c ∷ ds) ] else none

-- What follows a literal at the start of a text.
unfoldable pub strip_prefix : Text → Text → Option Text
strip_prefix [] t = some t
strip_prefix (a ∷ p) [] = none
strip_prefix (a ∷ p) (c ∷ t) = let rest = strip_prefix p t in if a == c then rest else none

unfoldable pub includes : Text → Text → Bool
includes p [] = elim (strip_prefix p []) [ none ↦ false | some _ ↦ true ]
includes p (c ∷ t) =
    let rest = includes p t in elim (strip_prefix p (c ∷ t)) [ none ↦ rest | some _ ↦ true ]

-- The capture of the match that starts here: 0x and 64 digits.
unfoldable pub hash_here : Text → Option Text
hash_here t = elim (strip_prefix (codes "Transaction Hash: 0x") t) [
  | none ↦ none
  | some rest ↦ elim (hex_digits 64 rest) [ none ↦ none | some ds ↦ some (b'0' ∷ b'x' ∷ ds) ]
]

-- The first match.
unfoldable pub find_hash : Text → Option Text
find_hash [] = hash_here []
find_hash (c ∷ t) =
    let rest = find_hash t in elim (hash_here (c ∷ t)) [ none ↦ rest | some h ↦ some h ]
