-- ===== src/Kms/Caller.antt =====
-- The class KMSHelper of scripts/kms-contract-caller.js: the second copy of the reading of a DER
-- signature, with no check of tags and ranges.
use smart_contracts.Base.{
  ℕ, ◌+◌, ◌-◌, Option, none, some, [], ◌∷◌, ◌++◌, ltb, ◌==◌, if◌then◌else◌, length, get_elem?,
  replicate, slice_last,
}
use smart_contracts.Kms.Bytes.{Bytes}
use smart_contracts.Kms.Runner.{read_integer}

-- `while (component.length > 1 && component[0] === 0x00) component = component.slice(1)`
unfoldable pub drop_zeros : Bytes → Bytes
drop_zeros [] = []
drop_zeros (b ∷ []) = b ∷ []
drop_zeros (b ∷ c ∷ bs) = let rest = drop_zeros (c ∷ bs) in if b == 0 then rest else b ∷ c ∷ bs

unfoldable pub normalize_signature_component : Bytes → Bytes
unfolding drop_zeros
normalize_signature_component component =
    let c = drop_zeros component in
    if ltb (length c) 32 then replicate (32 - length c) 0 ++ c else slice_last 32 c

-- The body of S. With no R-length the offset is `NaN`, and the slice is empty.
unfoldable pub parse_s_body : Bytes → Option ℕ → Bytes
parse_s_body signature none = []
parse_s_body signature (some r_length) = read_integer signature (4 + r_length + 1)

unfoldable pub parse_der_signature : Bytes → Bytes × Bytes
parse_der_signature signature = (
  normalize_signature_component (read_integer signature 3),
  normalize_signature_component (parse_s_body signature (get_elem? signature 3)),
)
