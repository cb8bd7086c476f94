-- ===== src/MulSig/Reach.antt =====
-- The transactions of the multisig contract as a step relation, and the invariant along every run.
use smart_contracts.Base.{ℕ, ◌≡◌}
use smart_contracts.MulSig.State.{done, MulSig, Ctx, Peers}
use smart_contracts.MulSig.Propose.{sign_transaction}
use smart_contracts.MulSig.Execute.{delete_proposals, execute_proposal}
use smart_contracts.MulSig.Invariant.{
  IsValid, filled-IsValid, sign_transaction-IsValid, delete_proposals-IsValid,
  execute_proposal-IsValid,
}
use smart_contracts.MulSig.Request.{Request, propose, propose-Fills}

module _ {W : Type 0} (peers : Peers W) where
  -- A transaction of anybody that succeeds, or a step of the other contracts.
  pub data Step (s : MulSig) (w : W) (s' : MulSig) (w' : W) : Type 0 where
    proposed :
        (r : Request) (ctx : Ctx) (id : ℕ)
        → propose peers r ctx w s ≡ done (s', id)
        → Step s w s' w'
    sign : (id : ℕ) (ctx : Ctx) → sign_transaction peers id ctx w s ≡ done s' → Step s w s' w'
    delete : (id : ℕ) (ctx : Ctx) → delete_proposals peers id ctx w s ≡ done s' → Step s w s' w'
    execute :
        (id : ℕ) (ctx : Ctx) → execute_proposal peers id ctx w s ≡ done (s', w') → Step s w s' w'
    outside : s' ≡ s → Step s w s' w'

  pub data Reach (s : MulSig) (w : W) : MulSig → W → Type 0 where
    here : Reach s w s w
    next : {s₁ s₂ : MulSig} {w₁ w₂ : W} → Reach s w s₁ w₁ → Step s₁ w₁ s₂ w₂ → Reach s w s₂ w₂

  -- Every kind of transaction keeps the invariant.
  pub Step-IsValid : (s s' : MulSig) (w w' : W) → IsValid s → Step s w s' w' → IsValid s'
  Step-IsValid s s' w w' v (proposed r ctx id h) =
      let (same, p, unsigned, uncounted, untimed, made) = propose-Fills peers r ctx w s s' id h in
      rw made (filled-IsValid s p unsigned uncounted v)
  Step-IsValid s s' w w' v (sign id ctx h) = sign_transaction-IsValid peers id ctx w s s' v h
  Step-IsValid s s' w w' v (delete id ctx h) = delete_proposals-IsValid peers id ctx w s s' v h
  Step-IsValid s s' w w' v (execute id ctx h) = execute_proposal-IsValid peers id ctx w w' s s' v h
  Step-IsValid s s' w w' v (outside h) = rw h v

  -- Whatever transactions are made, by whomever, from a valid state: the pending ids are distinct
  -- and below the next id, and a proposal's count never exceeds the number of its distinct signers.
  pub Reach-IsValid :
      {s : MulSig} {w : W} {s' : MulSig} {w' : W} → IsValid s → Reach s w s' w' → IsValid s'
  Reach-IsValid v here = v
  Reach-IsValid v (next r st) = Step-IsValid _ _ _ _ (Reach-IsValid v r) st
