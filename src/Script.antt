-- ===== src/Script.antt =====
-- How the scripts under scripts/ run: a script acts on a world (the chain, the key service, the
-- files), and it returns, throws, or leaves through `process.exit`. What a script logs is left out.
pub mod Loop
pub mod Ends
pub mod Chain
use Prim.Native.String.{String}
use smart_contracts.Base.{
  ℕ, ◌≡◌, refl, ◌⊎◌, inl, inr, Bool, true, false, Option, none, some, ◌++◌, Text, codes,
}

pub data Outcome {ℓ} (A : Type ℓ) : Type ℓ where
  ok : A → Outcome A
  err : Text → Outcome A
  exit : ℕ → Outcome A

-- How a run ended, with the equation.
pub Outcome-cases {ℓ} :
    {A : Type ℓ} (o : Outcome A)
    → ((a : A) × (o ≡ ok a)) ⊎ ((e : Text) × (o ≡ err e)) ⊎ ((c : ℕ) × (o ≡ exit c))
Outcome-cases (ok a) = inl (a, refl)
Outcome-cases (err e) = inr (inl (e, refl))
Outcome-cases (exit c) = inr (inr (c, refl))

-- An `await` chain. What a call changed before a throw stays changed.
abbrev pub Script : Type 0 → Type 0 → Type 0
Script W A = W → Outcome A × W

module _ {W : Type 0} {A : Type 0} where
  abbrev pub pure : A → Script W A
  pure a w = (ok a, w)

  abbrev pub lift : Outcome A → Script W A
  lift o w = (o, w)

  -- `throw new Error(message)`
  abbrev pub throw : Text → Script W A
  throw message w = (err message, w)

  -- A library call that may throw `message`.
  abbrev pub or_throw : Option A → Text → Script W A
  or_throw none message = throw message
  or_throw (some a) message = pure a

  -- `process.exit(code)`, which no `catch` sees.
  abbrev pub exit_with : ℕ → Script W A
  exit_with code w = (exit code, w)

  -- `try { m } catch (error) { handler(error.message) }`
  abbrev pub try_catch : Script W A → (Text → Script W A) → Script W A
  try_catch m handler w =
      let (o, w') = m w in
      elim o [ ok a ↦ (ok a, w') | err e ↦ handler e w' | exit c ↦ (exit c, w') ]

  -- `catch (error) { throw new Error(`${prefix}${error.message}`) }`
  abbrev pub rethrow : String → Script W A → Script W A
  rethrow prefix m = try_catch m (λ e. throw (codes prefix ++ e))

infixl 5 ◌>>=◌ ◌>>◌
abbrev pub ◌>>=◌ : {W A B : Type 0} → Script W A → (A → Script W B) → Script W B
◌>>=◌ m f w =
    let (o, w') = m w in elim o [ ok a ↦ f a w' | err e ↦ (err e, w') | exit c ↦ (exit c, w') ]

abbrev pub ◌>>◌ : {W A B : Type 0} → Script W A → Script W B → Script W B
m >> k = m >>= λ _. k

-- `if (!test) throw new Error(message)`
abbrev pub ensure : {W : Type 0} → Bool → Text → Script W (Unit {0})
ensure true message w = (ok tt, w)
ensure false message w = (err message, w)
