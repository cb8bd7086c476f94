-- ===== src/Proposing/Collect.antt =====
-- The signing loop of scripts/setup-crosschain-tokens.js over the multisig contract.
use smart_contracts.Base.{
  ℕ, ◌+◌, ◌≤◌, ◌<◌, ◌^◌, ◌≡◌, ◌∙◌, ap, refl, ◌⊎◌, inl, inr, Bool, true, false, List, [], ◌∷◌, ltb,
  Bool-cases, ltb→lt, ltb-false→le, ◌==◌, ==_iff, arith, Text,
}
use smart_contracts.Script.{ok, err}
use smart_contracts.MulSig
use smart_contracts.MulSig.{MulSig, Address, Ctx, Peers, Tx-cases}
use smart_contracts.MulSig.Effects.{sign_transaction_done}
use smart_contracts.MulSig.Signing.{sign_transaction_effect, sign_transaction_succeeds}
use smart_contracts.Web3.{Receipt, NodeApi, MulSigApi, ReadsContract}
use smart_contracts.Proposing.Api.{ChainApi}
use smart_contracts.Proposing.Crosschain.{sign_as, sign_all}

abbrev pub sent_by : Address → ℕ → Ctx
sent_by sender timestamp = record { sender = sender; timestamp = timestamp }

-- A chain on which nobody else acts: the other contracts stay as `p`, and a signature that is sent
-- is the contract's transaction, or an error where that reverts.
pub record SignsContract {W P : Type 0} (node : NodeApi W) (mulsig : MulSigApi W)
    (chain : ChainApi W) (peers : Peers P) (p : P) (contract : W → MulSig)
    (address_of : Text → Address) (time : W → ℕ) (duration : ℕ) : Type 0 where
  pub reads : ReadsContract mulsig contract address_of
  pub prices : (w : W) → (n : ℕ) × (node.get_gas_price w ≡ (ok n, w))
  pub accepts :
      (id : ℕ) (from : Text) (w : W) (s : MulSig)
      → MulSig.sign_transaction peers id (sent_by (address_of from) (time w)) p (contract w)
        ≡ MulSig.done s
      → (r : Receipt) × (w' : W) × (chain.sign_transaction id from w ≡ (ok r, w'))
        × (contract w' ≡ s)
  pub refuses :
      (id : ℕ) (from : Text) (w : W) (reason : Text)
      → MulSig.sign_transaction peers id (sent_by (address_of from) (time w)) p (contract w)
        ≡ MulSig.revert reason
      → (m : Text) × (chain.sign_transaction id from w ≡ (err m, w))
  -- the time of the confirmation fits its word
  pub fits : (w : W) → time w + duration < 2 ^ 256

module _ {W P : Type 0} (node : NodeApi W) (mulsig : MulSigApi W) (chain : ChainApi W)
    (peers : Peers P) (p : P) (contract : W → MulSig) (address_of : Text → Address) (time : W → ℕ)
    (duration : ℕ)
    (signs : SignsContract node mulsig chain peers p contract address_of time duration)
    (small : peers.fm_threshold p < 2 ^ 8) (id : ℕ) where
  abbrev pub count : W → ℕ
  count w = MulSig.get_signature_count id (contract w)

  abbrev pub signed : Text → W → Bool
  signed a w = MulSig.has_already_signed id (address_of a) (contract w)

  -- The account has signed, or the proposal has all the signatures that it takes.
  abbrev pub Settled : Text → W → Type 0
  Settled a w = (signed a w ≡ true) ⊎ (peers.fm_threshold p ≤ count w)

  -- No signature is lost, and the confirmation period stays.
  abbrev Grows : W → W → Type 0
  Grows w w' =
      ((a : Text) → signed a w ≡ true → signed a w' ≡ true)
      × (count w ≤ count w')
      × ((contract w').confirm_duration ≡ (contract w).confirm_duration)

  Settled-grows :
      (a : Text) (w w' : W)
      → ((a : Text) → signed a w ≡ true → signed a w' ≡ true)
      → count w ≤ count w'
      → Settled a w
      → Settled a w'
  Settled-grows a w w' kept more (inl has) = inl (kept a has)
  Settled-grows a w w' kept more (inr full) = inr (omega (arith, full, more))

  accepted :
      (m : Text) (w w' : W) (s : MulSig)
      → MulSig.sign_transaction peers id (sent_by (address_of m) (time w)) p (contract w)
        ≡ MulSig.done s
      → contract w' ≡ s
      → Settled m w' × Grows w w'
  accepted m w w' s e same =
      let effect =
        sign_transaction_effect peers id (sent_by (address_of m) (time w)) p (contract w) s e in
      (
        inl (rw same effect.4),
        (
          λ a h. rw same (elim (Bool-cases (address_of a == address_of m)) [
            | inl own ↦ rw ((==_iff (address_of a) (address_of m)).0 own) effect.4
            | inr other ↦
                effect.5 (address_of a) (λ eq.
                  absurd (ground (arith, (==_iff (address_of a) (address_of m)).1 eq, other)))
                ∙ h
          ]),
          rw same (omega (arith, effect.3)),
          rw same (
              ap (λ (t : MulSig). t.confirm_duration)
                (sign_transaction_done peers id (sent_by (address_of m) (time w)) p (contract w) s
                  e).1),
        ),
      )

  refused :
      (m : Text) (w : W) (reason : Text)
      → peers.has_role p MulSig.foundation_manager (address_of m) ≡ true
      → (contract w).confirm_duration ≡ duration
      → signed m w ≡ false
      → MulSig.sign_transaction peers id (sent_by (address_of m) (time w)) p (contract w)
        ≡ MulSig.revert reason
      → Settled m w
  refused m w reason role lasts new e = elim (Bool-cases (ltb (count w) (peers.fm_threshold p))) [
    | inl below ↦
        let less = ltb→lt _ _ below in
        let (s, done, _) =
          sign_transaction_succeeds peers id (sent_by (address_of m) (time w)) p (contract w) role
            less new (omega (arith, less, small)) (rw lasts (signs.fits w)) in
        absurd (ground arith)
    | inr full ↦ inr (ltb-false→le _ _ full)
  ]

  sign_as_settles :
      (m : Text) (w : W)
      → peers.has_role p MulSig.foundation_manager (address_of m) ≡ true
      → (contract w).confirm_duration ≡ duration
      → (w' : W) × (sign_as node mulsig chain id m w ≡ (ok tt, w')) × Settled m w' × Grows w w'
  unfolding sign_as
  sign_as_settles m w role lasts =
      let asked = signs.reads.reads_signed id m w in
      let (n, priced) = signs.prices w in
      elim (Bool-cases (signed m w)) [
        | inl has ↦ (w, ground arith, inl has, (λ a h. h, omega arith, refl))
        | inr new ↦
            elim (Tx-cases
              (MulSig.sign_transaction peers id (sent_by (address_of m) (time w)) p (contract w))) [
                | inl (s, e) ↦
                    let (r, w', sent, same) = signs.accepts id m w s e in
                    (w', ground arith, (accepted m w w' s e same).0, (accepted m w w' s e same).1)
                | inr (reason, e) ↦
                    let (x, failed) = signs.refuses id m w reason e in
                    (
                      w,
                      ground arith,
                      refused m w reason role lasts new e,
                      (λ a h. h, omega arith, refl),
                    )
              ]
      ]

  unfoldable pub AllManagers : List Text → Type 0
  AllManagers [] = Unit {0}
  AllManagers (m ∷ ms) =
      (peers.has_role p MulSig.foundation_manager (address_of m) ≡ true) × AllManagers ms

  unfoldable pub AllSettled : List Text → W → Type 0
  AllSettled [] w = Unit {0}
  AllSettled (m ∷ ms) w = Settled m w × AllSettled ms w

  -- On a chain where nobody else acts, with a threshold below 2 ^ 8, the loop over foundation
  -- managers ends without an error, loses no signature, and leaves each of them a signer, or the
  -- proposal with all the signatures that it takes.
  pub sign_all_settles :
      (managers : List Text) (w : W)
      → AllManagers managers
      → (contract w).confirm_duration ≡ duration
      → (w' : W) × (sign_all node mulsig chain id managers w ≡ (ok tt, w'))
        × AllSettled managers w'
        × ((a : Text) → signed a w ≡ true → signed a w' ≡ true)
        × (count w ≤ count w')
  unfolding sign_all AllManagers AllSettled
  sign_all_settles [] w role lasts = (w, refl, tt, λ a h. h, omega arith)
  sign_all_settles (m ∷ ms) w role lasts =
      let (w₁, first, settled, (kept, more, same)) = sign_as_settles m w role.0 lasts in
      let (w₂, rest, others, kept', more') = sign_all_settles ms w₁ role.1 (same ∙ lasts) in
      (
        w₂,
        ground arith,
        (Settled-grows m w₁ w₂ kept' more' settled, others),
        λ a h. kept' a (kept a h),
        omega (arith, more, more'),
      )
