-- ===== src/MulSig/Delete.antt =====
-- `deleteProposals` against its description: the first entry with the id leaves the pending list,
-- and the proposal's slot is cleared.
use mathlib.Core.List.{append-nil, append_assoc}
use smart_contracts.Base.{
  ℕ, suc, ◌+◌, ◌-◌, ◌≡◌, ◌∙◌, sym, ap, refl, Bool, true, false, List, [], ◌∷◌, ◌++◌, ◌||◌, arith,
  ◌==◌, if◌then◌else◌, Bool-cases, inl, inr, length, get_or, set, length-append,
}
use smart_contracts.MulSig.State.{MulSig, update}
use smart_contracts.MulSig.Execute.{delete_loop, pop, clear_proposal, remove_proposal}

-- The description: what is left of a list without the first `id`.
abbrev pub erase : ℕ → List ℕ → List ℕ
erase id [] = []
erase id (x ∷ xs) = let rest = erase id xs in if id == x then xs else x ∷ rest

abbrev pub is_pending : ℕ → List ℕ → Bool
is_pending id [] = false
is_pending id (x ∷ xs) = id == x || is_pending id xs

get_or-end {ℓ} :
    {A : Type ℓ} (xs : List A) (y : A) (ys : List A) (d : A)
    → get_or (xs ++ y ∷ ys) (length xs) d ≡ y
get_or-end [] y ys d = refl
get_or-end (x ∷ xs) y ys d = get_or-end xs y ys d

set-end {ℓ} :
    {A : Type ℓ} (xs : List A) (y z : A) (ys : List A)
    → set (xs ++ y ∷ ys) (length xs) z ≡ xs ++ z ∷ ys
set-end [] y z ys = refl
set-end (x ∷ xs) y z ys = ap (λ t. x ∷ t) (set-end xs y z ys)

pop-end : (xs : List ℕ) (x : ℕ) → pop (xs ++ x ∷ []) ≡ xs
unfolding pop
pop-end [] x = refl
pop-end (y ∷ []) x = refl
pop-end (y ∷ z ∷ xs) x = ap (λ t. y ∷ t) (pop-end (z ∷ xs) x)

length-snoc : (xs : List ℕ) (x : ℕ) → length (xs ++ x ∷ []) ≡ length xs + 1
length-snoc xs x = omega (arith, length-append xs (x ∷ []))

second :
    (front : List ℕ) (x y : ℕ) (rest : List ℕ)
    → get_or (front ++ x ∷ y ∷ rest) (length front + 1) 0 ≡ y
second front x y rest =
    rw (← append_assoc front (x ∷ []) (y ∷ rest), ← length-snoc front x)
      (get_or-end (front ++ x ∷ []) y rest 0)

delete_loop-suc :
    (id rounds i : ℕ) (replace : Bool) (l : List ℕ)
    → delete_loop id (suc rounds) i replace l
      ≡ delete_loop id rounds
          (i + 1)
          (replace || id == get_or l i 0)
          (if replace then set l (i - 1) (get_or l i 0) else l)
unfolding delete_loop
delete_loop-suc id rounds i replace l = refl

-- Behind the deleted id the loop moves the rest down, and leaves the last entry twice.
shift_loop :
    (id : ℕ) (front : List ℕ) (x : ℕ) (rest : List ℕ)
    → let (replace, shifted) =
        delete_loop id (length rest) (length front + 1) true (front ++ x ∷ rest) in
      (replace ≡ true) × (pop shifted ≡ front ++ rest)
unfolding delete_loop
shift_loop id front x [] = (refl, pop-end front x ∙ sym (append-nil front))
shift_loop id front x (y ∷ rest) =
    let back : length front + 1 - 1 ≡ length front = omega arith in
    let next : length front + 1 + 1 ≡ length (front ++ y ∷ []) + 1 =
      omega (arith, length-snoc front y) in
    rw (delete_loop-suc id (length rest) (length front + 1) true (front ++ x ∷ y ∷ rest)) (
      rw
        (
          second front x y rest,
          back,
          set-end front x y (y ∷ rest),
          next,
          ← append_assoc front (y ∷ []) (y ∷ rest),
          ← append_assoc front (y ∷ []) rest,
        )
        (shift_loop id (front ++ y ∷ []) y rest))

-- The whole loop finds the id exactly if it is pending; then dropping the last entry leaves the
-- list without its first occurrence, and otherwise nothing has moved.
abbrev Deleted : ℕ → List ℕ → List ℕ → Bool × List ℕ → Type 0
Deleted id front rest (true, shifted) =
    (is_pending id rest ≡ true) × (pop shifted ≡ front ++ erase id rest)
Deleted id front rest (false, shifted) = (is_pending id rest ≡ false) × (shifted ≡ front ++ rest)

Deleted-skip :
    (id x : ℕ) (front rest : List ℕ) (r : Bool × List ℕ)
    → (id == x) ≡ false
    → Deleted id (front ++ x ∷ []) rest r
    → Deleted id front (x ∷ rest) r
Deleted-skip id x front rest (true, shifted) e h =
    rw e (h.0, h.1 ∙ append_assoc front (x ∷ []) (erase id rest))
Deleted-skip id x front rest (false, shifted) e h =
    rw e (h.0, h.1 ∙ append_assoc front (x ∷ []) rest)

Deleted-hit :
    (id x : ℕ) (front rest : List ℕ) (r : Bool × List ℕ)
    → (id == x) ≡ true
    → (r.0 ≡ true) × (pop r.1 ≡ front ++ rest)
    → Deleted id front (x ∷ rest) r
Deleted-hit id x front rest (true, shifted) e h = rw e (refl, h.1)
Deleted-hit id x front rest (false, shifted) e h = cc (h.0)

search_loop :
    (id : ℕ) (front rest : List ℕ)
    → Deleted id front rest (delete_loop id (length rest) (length front) false (front ++ rest))
search_loop id front [] = unfold delete_loop in (refl, refl)
search_loop id front (x ∷ rest) = elim (Bool-cases (id == x)) [
  | inl found ↦
      rw
        (
          delete_loop-suc id (length rest) (length front) false (front ++ x ∷ rest),
          get_or-end front x rest 0,
        )
        (rw found (Deleted-hit id x front rest _ found (shift_loop id front x rest)))
  | inr other ↦
      rw
        (
          delete_loop-suc id (length rest) (length front) false (front ++ x ∷ rest),
          get_or-end front x rest 0,
        )
        (rw other (
          Deleted-skip id x front rest _ other (
            rw (length-snoc front x, append_assoc front (x ∷ []) rest) at
              (search_loop id (front ++ x ∷ []) rest))))
]

removed :
    (id : ℕ) (s : MulSig) (r : Bool × List ℕ)
    → delete_loop id (length s.pending_proposals) 0 false s.pending_proposals ≡ r
    → Deleted id [] s.pending_proposals r
    → remove_proposal id s ≡ (
        if is_pending id s.pending_proposals
        then record s {
          pending_proposals = erase id s.pending_proposals;
          proposals = update s.proposals id (clear_proposal (s.proposals id));
        }
        else s)
unfolding remove_proposal
removed id s (true, shifted) e h = rw (e, h.0, h.1)
removed id s (false, shifted) e h = rw (e, h.0, h.1)

-- `deleteProposals` does what it is for: a pending id leaves the list, which keeps its order, and
-- its proposal is cleared; with another id nothing changes.
pub remove_proposal_lem :
    (id : ℕ) (s : MulSig)
    → remove_proposal id s ≡ (
        if is_pending id s.pending_proposals
        then record s {
          pending_proposals = erase id s.pending_proposals;
          proposals = update s.proposals id (clear_proposal (s.proposals id));
        }
        else s)
remove_proposal_lem id s = removed id s _ refl (search_loop id [] s.pending_proposals)
