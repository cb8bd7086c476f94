-- ===== src/Script/Chain.antt =====
-- Long scripts: the same chains as in the parent, kept shut, with one rule for each step.
use smart_contracts.Base.{◌≡◌, refl, Bool, true, false, if◌then◌else◌, arith, Text}
use smart_contracts.Script
use smart_contracts.Script.{ok, err, exit, Script, pure, try_catch, exit_with}

infixl 5 ◌>>=◌ ◌>>◌
unfoldable pub ◌>>=◌ : {W A B : Type 0} → Script W A → (A → Script W B) → Script W B
m >>= f = Script.◌>>=◌ m f

abbrev pub ◌>>◌ : {W A B : Type 0} → Script W A → Script W B → Script W B
m >> k = m >>= λ _. k

-- A script that returns from `w`, with a result and a world of the kind `Q`.
pub record Returns {W A : Type 0} (m : Script W A) (w : W) (Q : A → W → Type 0) : Type 0 where
  pub result : A
  pub world : W
  pub ran : m w ≡ (ok result, world)
  pub post : Q result world

module _ {W A : Type 0} {Q : A → W → Type 0} where
  pub Returns-pure : (a : A) (w : W) → Q a w → Returns (pure a) w Q
  Returns-pure a w q = record { result = a; world = w; ran = refl; post = q }

  pub Returns-if :
      (b : Bool) (m n : Script W A) (w : W)
      → b ≡ true
      → Returns m w Q
      → Returns (if b then m else n) w Q
  Returns-if b m n w yes_b r = rw yes_b r

  pub Returns-unless :
      (b : Bool) (m n : Script W A) (w : W)
      → b ≡ false
      → Returns n w Q
      → Returns (if b then m else n) w Q
  Returns-unless b m n w no_b r = rw no_b r

  pub Returns-try_catch :
      (m : Script W A) (handler : Text → Script W A) (w : W)
      → Returns m w Q
      → Returns (try_catch m handler) w Q
  Returns-try_catch m handler w r =
      let ran = r.ran in
      record { result = r.result; world = r.world; ran = ground arith; post = r.post }

module _ {W A B : Type 0} {R : A → W → Type 0} {Q : B → W → Type 0} where
  pub Returns-bind :
      (m : Script W A) (f : A → Script W B) (w : W)
      → Returns m w R
      → ((a : A) (w' : W) → R a w' → Returns (f a) w' Q)
      → Returns (m >>= f) w Q
  unfolding ◌>>=◌
  Returns-bind m f w r next =
      let after = next r.result r.world r.post in
      let ran = r.ran in
      let done = after.ran in
      record { result = after.result; world = after.world; ran = ground arith; post = after.post }
