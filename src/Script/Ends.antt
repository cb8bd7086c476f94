-- ===== src/Script/Ends.antt =====
-- Scripts that return or throw, and do not leave.
use smart_contracts.Base.{ℕ, ◌≡◌, ◌≢◌, ◌⊎◌, Text}
use smart_contracts.Script.{Outcome, ok, err, exit, Script}

-- A call of a library returns or throws: it does not end the process.
abbrev pub NeverExits : {W A : Type 0} → Script W A → Type 0
NeverExits {W} s = (w : W) (c : ℕ) → (s w).0 ≢ exit c

-- A run that ended with a result of the kind `P`, or with an error.
abbrev pub Ends : {W A : Type 0} → (A → Type 0) → Outcome A × W → Type 0
Ends {W} {A} P run =
    ((a : A) × (w : W) × (run ≡ (ok a, w)) × P a) ⊎ ((m : Text) × (w : W) × (run ≡ (err m, w)))
