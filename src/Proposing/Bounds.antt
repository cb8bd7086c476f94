-- ===== src/Proposing/Bounds.antt =====
-- What scripts/execute-proposal.js and the signing loop of scripts/register-dapp-node.js do.
use smart_contracts.Base.{
  ℕ, suc, ◌+◌, ◌≤◌, ◌≡◌, inl, inr, true, false, List, [], ◌∷◌, ltb, arith, Bool-cases, ltb→lt, Text,
  text_eq, length,
}
use smart_contracts.Script.{Outcome-cases, ok, Script}
use smart_contracts.MulSig
use smart_contracts.MulSig.{MulSig}
use smart_contracts.Web3
use smart_contracts.Web3.{NodeApi, MulSigApi}
use smart_contracts.Proposing.Api.{ChainApi}
use smart_contracts.Proposing.Execute
use smart_contracts.Proposing.Register

module _ {W : Type 0} (config : Register.Config) (build : Register.BuildApi W) (node : NodeApi W)
    (mulsig : MulSigApi W) (chain : ChainApi W) where
  -- The signing loop never counts more signatures than are required, nor more than there are
  -- managers.
  sign_managers_bound :
      (id required : ℕ) (account : Text) (managers : List Text) (count n : ℕ) (w w' : W)
      → count ≤ required
      → Register.sign_managers config build node mulsig chain id account required managers count w
        ≡ (ok n, w')
      → (n ≤ required) × (n ≤ count + length managers)
  unfolding Register.sign_managers
  sign_managers_bound id required account [] count n w w' below e = ground arith
  sign_managers_bound id required account (m ∷ ms) count n w w' below e =
      let loop = Register.sign_managers config build node mulsig chain id account required ms in
      elim (Bool-cases (ltb count required)) [
        | inr full ↦ ground arith
        | inl room ↦
            let more : suc count ≤ required = ltb→lt count required room in
            let asked = mulsig.has_already_signed id m w in
            elim (Outcome-cases asked.0) [
              | inr (inl (x, failed)) ↦ absurd (ground arith)
              | inr (inr (c, left)) ↦ absurd (ground arith)
              | inl (true, told) ↦
                  let ih =
                    sign_managers_bound id required account ms (count + 1) n asked.1 w'
                      (omega (arith, more)) (ground arith) in
                  (ih.0, omega (arith, ih.1))
              | inl (false, told) ↦ elim (Bool-cases (text_eq m account)) [
                | inr other ↦
                    let ih =
                      sign_managers_bound id required account ms count n asked.1 w' below
                        (ground arith) in
                    (ih.0, omega (arith, ih.1))
                | inl own ↦
                    let sent = chain.sign_transaction id account asked.1 in
                    elim (Outcome-cases sent.0) [
                      | inr (inl (x, failed)) ↦ absurd (ground arith)
                      | inr (inr (c, left)) ↦ absurd (ground arith)
                      | inl (receipt, mined) ↦
                          let counted = mulsig.get_signature_count id sent.1 in
                          elim (Outcome-cases counted.0) [
                            | inr (inl (x, failed)) ↦ absurd (ground arith)
                            | inr (inr (c, left)) ↦ absurd (ground arith)
                            | inl (k, read) ↦
                                let ih =
                                  sign_managers_bound id required account ms (count + 1) n counted.1
                                    w' (omega (arith, more)) (ground arith) in
                                (ih.0, omega (arith, ih.1))
                          ]
                    ]
              ]
            ]
      ]
