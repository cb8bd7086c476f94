-- ===== src/MulSig/Threshold.antt =====
-- From a proposal to its effect: as many foundation managers as the threshold sign, and after the
-- confirmation period one of them executes.
use smart_contracts.Base.{
  ℕ, ◌+◌, ◌^◌, ◌<◌, ◌≡◌, ◌≢◌, ◌∙◌, ap, refl, true, false, List, [], ◌∷◌, arith, leb, if◌then◌else◌,
  Bool-cases, inl, inr, length, codes,
}
use smart_contracts.MulSig.State.{
  Tx, done, revert, ◌>>=◌, Address, Proposal, MulSig, Ctx, update_self, Peers, contains,
  foundation_manager,
}
use smart_contracts.MulSig.Propose.{
  only_foundation_manager, sign_transaction, get_signature_count, has_already_signed,
}
use smart_contracts.MulSig.Execute.{
  apply_proposal, register_dapp, set_crosschain, delete_proposals, execute_proposal,
  remove_proposal,
}
use smart_contracts.MulSig.Effects.{sign_transaction_slot}
use smart_contracts.MulSig.Invariant.{Distinct}
use smart_contracts.MulSig.Signing.{sign_transaction_succeeds, sign_transaction_effect}
use smart_contracts.MulSig.Executing.{execute_proposal_due, execute_proposal_early}
use smart_contracts.MulSig.Request.{Request, propose, propose-Fills}

abbrev pub sent : Address → ℕ → Ctx
sent sender timestamp = record { sender = sender; timestamp = timestamp }

module _ {W : Type 0} (peers : Peers W) (id : ℕ) where
  -- One signature after the other, all at one time.
  unfoldable pub sign_each : ℕ → W → List Address → MulSig → Tx MulSig
  sign_each time w [] s = done s
  sign_each time w (a ∷ signers) s =
      sign_transaction peers id (sent a time) w s >>= sign_each time w signers

  abbrev pub AllManagers : W → List Address → Type 0
  AllManagers w [] = Unit
  AllManagers w (a ∷ signers) =
      (peers.has_role w foundation_manager a ≡ true) × AllManagers w signers

  -- None of the addresses has signed.
  abbrev NoneSigned : List Address → MulSig → Type 0
  NoneSigned [] s = Unit
  NoneSigned (a ∷ signers) s = (has_already_signed id a s ≡ false) × NoneSigned signers s

  -- A signature leaves the effect of the proposal as it is.
  sign_transaction-apply :
      (ctx : Ctx) (w w' : W) (s s' : MulSig)
      → sign_transaction peers id ctx w s ≡ done s'
      → apply_proposal peers s' (s'.proposals id) w' ≡ apply_proposal peers s (s.proposals id) w'
  unfolding apply_proposal set_crosschain register_dapp
  sign_transaction-apply ctx w w' s s' h =
      let (time, same, new) = sign_transaction_slot peers id ctx w s s' h in
      rw same (rw (update_self s.proposals id _) refl)

  NoneSigned-after :
      (a : Address) (signers : List Address) (s s' : MulSig)
      → contains signers a ≡ false
      → ((b : Address) → b ≢ a → has_already_signed id b s' ≡ has_already_signed id b s)
      → NoneSigned signers s
      → NoneSigned signers s'
  NoneSigned-after a [] s s' apart kept none = tt
  NoneSigned-after a (b ∷ signers) s s' apart kept none =
      let other : b ≢ a = λ same. ground (arith, same) in
      (kept b other ∙ none.0, NoneSigned-after a signers s s' (ground arith) kept none.1)

  -- The time that the last of the signatures leaves, if there is one.
  abbrev Timed : ℕ → List Address → MulSig → MulSig → Type 0
  Timed time [] s s' = (s'.proposals id).execute_time ≡ (s.proposals id).execute_time
  Timed time (a ∷ signers) s s' = (s'.proposals id).execute_time ≡ time + s.confirm_duration

  signers-Timed :
      (time : ℕ) (w : W) (a : Address) (signers : List Address) (s s₁ s' : MulSig)
      → get_signature_count id s + length (a ∷ signers) ≡ peers.fm_threshold w
      → (s₁.proposals id).execute_time ≡ (
          if leb (peers.fm_threshold w) (get_signature_count id s + 1)
          then time + s.confirm_duration
          else (s.proposals id).execute_time)
      → s₁.confirm_duration ≡ s.confirm_duration
      → Timed time signers s₁ s'
      → (s'.proposals id).execute_time ≡ time + s.confirm_duration
  signers-Timed time w a [] s s₁ s' enough timed duration last = ground arith
  signers-Timed time w a (b ∷ signers) s s₁ s' enough timed duration last = omega arith

  sign_each_succeeds :
      (time : ℕ) (w : W) (signers : List Address) (s : MulSig)
      → AllManagers w signers
      → Distinct signers
      → NoneSigned signers s
      → get_signature_count id s + length signers ≡ peers.fm_threshold w
      → peers.fm_threshold w < 2 ^ 8
      → time + s.confirm_duration < 2 ^ 256
      → (s' : MulSig) × (sign_each time w signers s ≡ done s')
        × (get_signature_count id s' ≡ peers.fm_threshold w)
        × Timed time signers s s'
        × ((w' : W)
            → apply_proposal peers s' (s'.proposals id) w'
              ≡ apply_proposal peers s (s.proposals id) w')
  unfolding sign_each
  sign_each_succeeds time w [] s roles apart none enough small fits =
      (s, refl, omega arith, refl, λ w'. refl)
  sign_each_succeeds time w (a ∷ signers) s roles apart none enough small fits =
      let ctx = sent a time in
      let (s₁, signed, timed) =
        sign_transaction_succeeds peers id ctx w s roles.0 (omega arith) none.0 (omega arith)
          fits in
      let effect = sign_transaction_effect peers id ctx w s s₁ signed in
      let duration : s₁.confirm_duration ≡ s.confirm_duration =
        ap (λ (t : MulSig). t.confirm_duration)
          (sign_transaction_slot peers id ctx w s s₁ signed).1 in
      let (s', rest, counted, last, same) =
        sign_each_succeeds time w signers s₁ roles.1 apart.1
          (NoneSigned-after a signers s s₁ apart.0 effect.5 none.1) (omega (arith, effect.3)) small
          (omega (arith, duration)) in
      (
        s',
        rw signed rest,
        counted,
        signers-Timed time w a signers s s₁ s' enough timed duration last,
        λ w'. same w' ∙ sign_transaction-apply ctx w w' s s₁ signed,
      )

  NoneSigned-empty :
      (signers : List Address) (s : MulSig)
      → (s.proposals id).signatures ≡ []
      → NoneSigned signers s
  unfolding has_already_signed
  NoneSigned-empty [] s empty = tt
  NoneSigned-empty (a ∷ signers) s empty = (rw empty refl, NoneSigned-empty signers s empty)

  execute_when_timed :
      (m : Address) (t due : ℕ) (w w' : W) (s : MulSig)
      → (s.proposals id).execute_time ≡ due
      → apply_proposal peers s (s.proposals id) w ≡ done w'
      → peers.has_role w foundation_manager m ≡ true
      → peers.has_role w' foundation_manager m ≡ true
      → execute_proposal peers id (sent m t) w s ≡ (
          if leb due t
          then done (remove_proposal id s, w')
          else revert (codes "executeTime not meet"))
  unfolding delete_proposals only_foundation_manager
  execute_when_timed m t due w w' s timed applied role role' = elim (Bool-cases (leb due t)) [
    | inl reached ↦
        rw
          (
            reached,
            execute_proposal_due peers id (sent m t) w s role (ground arith),
            applied,
            role',
          )
          refl
    | inr early ↦ rw early (execute_proposal_early peers id (sent m t) w s role (ground arith))
  ]

  -- A request that the contract takes, on a slot that nobody has signed: when as many distinct
  -- foundation managers as the threshold sign it at one time, all are accepted. From then on a
  -- foundation manager who stays one executes it from the end of the confirmation period on, with
  -- the effect that the other contracts give it, and is refused before.
  pub propose-sign-execute :
      (r : Request) (proposer : Ctx) (time : ℕ) (m : Address) (signers : List Address) (w w' : W)
      (s s₁ : MulSig)
      → propose peers r proposer w s ≡ done (s₁, id)
      → (s.proposals s.proposal_idx).signatures ≡ []
      → AllManagers w signers
      → Distinct signers
      → length signers ≡ peers.fm_threshold w
      → 0 < peers.fm_threshold w
      → peers.fm_threshold w < 2 ^ 8
      → time + s.confirm_duration < 2 ^ 256
      → apply_proposal peers s₁ (s₁.proposals id) w ≡ done w'
      → peers.has_role w foundation_manager m ≡ true
      → peers.has_role w' foundation_manager m ≡ true
      → (s₂ : MulSig) × (sign_each time w signers s₁ ≡ done s₂)
        × (get_signature_count id s₂ ≡ peers.fm_threshold w)
        × ((t : ℕ)
            → execute_proposal peers id (sent m t) w s₂ ≡ (
                if leb (time + s.confirm_duration) t
                then done (remove_proposal id s₂, w')
                else revert (codes "executeTime not meet")))
  unfolding get_signature_count
  propose-sign-execute r proposer time m [] w w' s s₁ h empty roles apart enough some_needed small
        fits applied role role' =
      absurd (omega arith)
  propose-sign-execute r proposer time m (a ∷ signers) w w' s s₁ h empty roles apart enough
        some_needed small fits applied role role' =
      let (same, p, unsigned, uncounted, untimed, made) =
        propose-Fills peers r proposer w s s₁ id h in
      let slot : s₁.proposals id ≡ p = rw same (
        ap (λ (t : MulSig). t.proposals s.proposal_idx) made
        ∙ update_self s.proposals s.proposal_idx p) in
      let duration : s₁.confirm_duration ≡ s.confirm_duration =
        ap (λ (t : MulSig). t.confirm_duration) made in
      let none =
        NoneSigned-empty (a ∷ signers) s₁
          (ap (λ (q : Proposal). q.signatures) slot ∙ unsigned ∙ empty) in
      let begun : (s₁.proposals id).signature_count ≡ 0 =
        ap (λ (q : Proposal). q.signature_count) slot ∙ uncounted in
      let (s₂, signed, counted, timed, effect) =
        sign_each_succeeds time w (a ∷ signers) s₁ roles apart none (omega arith) small
          (omega arith) in
      (
        s₂,
        signed,
        counted,
        λ t.
            execute_when_timed m t (time + s.confirm_duration) w w' s₂ (omega arith)
              (effect w ∙ applied) role role',
      )
