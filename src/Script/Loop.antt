-- ===== src/Script/Loop.antt =====
-- A `for (const k of list)` whose rounds each push one result.
use smart_contracts.Base.{◌≡◌, refl, List, [], ◌∷◌, map, arith}
use smart_contracts.Script.{ok, Script, pure, ◌>>=◌}

module _ {W A B : Type 0} where
  unfoldable pub each : (A → Script W B) → List A → Script W (List B)
  each f [] = pure []
  each f (a ∷ xs) = do b ← f a; bs ← each f xs; pure (b ∷ bs)

  -- A round that always ends with a result, and the loop over such rounds.
  pub each-ok :
      {f : A → Script W B} {key : B → A}
      → ((a : A) (w : W) → (b : B) × (w' : W) × (f a w ≡ (ok b, w')) × (key b ≡ a))
      → (xs : List A) (w : W)
      → (bs : List B) × (w' : W) × (each f xs w ≡ (ok bs, w')) × (map key bs ≡ xs)
  unfolding each
  each-ok good [] w = ([], w, refl, refl)
  each-ok good (a ∷ xs) w =
      let (b, w₁, first, keyed) = good a w in
      let (bs, w₂, rest, keys) = each-ok good xs w₁ in (b ∷ bs, w₂, ground arith, ground arith)

  -- Rounds that change nothing.
  pub each-steady :
      (f : A → Script W B) (g : A → B) (xs : List A) (w : W)
      → ((a : A) → f a w ≡ (ok (g a), w))
      → each f xs w ≡ (ok (map g xs), w)
  unfolding each
  each-steady f g [] w h = refl
  each-steady f g (a ∷ xs) w h = ground (arith, h a, each-steady f g xs w h)

module _ {A B : Type 0} where
  -- The two lists are as long as each other, and `P` holds place by place.
  unfoldable pub Zip : (A → B → Type 0) → List A → List B → Type 0
  Zip P [] [] = Unit {0}
  Zip P [] (b ∷ bs) = ⊥
  Zip P (a ∷ as') [] = ⊥
  Zip P (a ∷ as') (b ∷ bs) = P a b × Zip P as' bs

module _ {W A B : Type 0} where
  -- Rounds that always end with a result of the kind `P`.
  pub each-Zip :
      {f : A → Script W B} {P : A → B → Type 0}
      → ((a : A) (w : W) → (b : B) × (w' : W) × (f a w ≡ (ok b, w')) × P a b)
      → (xs : List A) (w : W) → (bs : List B) × (w' : W) × (each f xs w ≡ (ok bs, w')) × Zip P xs bs
  unfolding each Zip
  each-Zip good [] w = ([], w, refl, tt)
  each-Zip good (a ∷ xs) w =
      let (b, w₁, first, fits) = good a w in
      let (bs, w₂, rest, all) = each-Zip good xs w₁ in (b ∷ bs, w₂, ground arith, (fits, all))
