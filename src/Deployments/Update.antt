-- ===== src/Deployments/Update.antt =====
-- What an assignment to an object's key changes.
use smart_contracts.Base.{
  ◌≡◌, ◌≢◌, ◌∙◌, sym, refl, inl, inr, false, some, List, [], ◌∷◌, Bool-cases, Text, text_eq,
  text_eq_refl, text_eq→eq,
}
use smart_contracts.Deployments.State.{get, set}

-- Different texts compare unequal.
pub text_eq_ne : (a b : Text) → a ≢ b → text_eq a b ≡ false
text_eq_ne a b other = elim (Bool-cases (text_eq a b)) [
  | inl e ↦ absurd (other (text_eq→eq a b e))
  | inr e ↦ e
]

module _ {A : Type 0} where
  -- The key that was set has the new value.
  pub get-set_same : (key : Text) (a : A) (ps : List (Text × A)) → get key (set key a ps) ≡ some a
  unfolding get set
  get-set_same key a [] = rw (text_eq_refl key) refl
  get-set_same key a (p ∷ ps) = elim (Bool-cases (text_eq key p.0)) [
    | inl e ↦ rw e (rw e refl)
    | inr e ↦ rw e (rw e (get-set_same key a ps))
  ]

  -- Every other key keeps its value.
  pub get-set_other :
      (key other : Text) (a : A) (ps : List (Text × A))
      → other ≢ key
      → get other (set key a ps) ≡ get other ps
  unfolding get set
  get-set_other key other a [] differ = rw (text_eq_ne other key differ) refl
  get-set_other key other a (p ∷ ps) differ = elim (Bool-cases (text_eq key p.0)) [
    | inl e ↦
        let missed = text_eq_ne other p.0 (λ eq. differ (eq ∙ sym (text_eq→eq key p.0 e))) in
        rw (e, missed) refl
    | inr e ↦ rw (e, get-set_other key other a ps differ) refl
  ]
