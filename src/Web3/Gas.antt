-- ===== src/Web3/Gas.antt =====
-- `Math.floor(Number(gasEstimate) * factor)` for the factors 1.2, 1.3 and 1.5, in tenths. Below
-- 2 ^ 50 the rounding of the double product does not reach the next integer.
use smart_contracts.Base.{ℕ, ◌*◌, ◌/◌}

unfoldable pub gas_with_buffer : ℕ → ℕ → ℕ
gas_with_buffer tenths estimate = estimate * tenths / 10
