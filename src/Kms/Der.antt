-- ===== src/Kms/Der.antt =====
-- Reading a DER signature: the round trip from the encoding, what a success of the runner's
-- parser shows, and the two parsers side by side.
use mathlib.Core.List.{append-nil}
use smart_contracts.Base.{
  ℕ, ◌+◌, ◌-◌, ◌≡◌, ◌∙◌, sym, ap, refl, inl, inr, some, List, [], ◌∷◌, ◌++◌, arith, Option-cases,
  length, get_elem?, get_elem?-append, drop-append, take-length-append,
}
use smart_contracts.Script.{Outcome, ok, Outcome-cases}
use smart_contracts.Kms.Bytes.{Bytes, be_value}
use smart_contracts.Kms.Runner.{
  remove_leading_zeros, ensure32_bytes, validate_signature_components, byte_is, read_integer,
  finish_components, parse_s, parse_der_signature,
}
use smart_contracts.Kms.Caller.{parse_s_body}
use smart_contracts.Kms.Caller
use smart_contracts.Kms.Components.{
  length-ensure32_bytes, be_value-component, InRange, validate_ok, validate-InRange,
  normalize-eq-ensure32,
}

-- 0x30 [total] 0x02 [length of R] [R] 0x02 [length of S] [S]: the DER text of a pair of integers.
abbrev pub der_encoding : ℕ → Bytes → Bytes → Bytes
der_encoding total rb sb = (0x30 ∷ total ∷ 0x02 ∷ length rb ∷ rb) ++ 0x02 ∷ length sb ∷ sb

abbrev pub component : Bytes → Bytes
component bs = ensure32_bytes (remove_leading_zeros bs)

component-InRange : (bs : Bytes) → InRange bs → InRange (component bs)
component-InRange bs h = rw (be_value-component bs (omega arith)) h

finish_ok :
    (rb sb : Bytes)
    → InRange rb
    → InRange sb
    → finish_components rb sb ≡ ok (component rb, component sb)
unfolding finish_components
finish_ok rb sb h k = rw (
  validate_ok (component rb) (component sb) (component-InRange rb h) (component-InRange sb k),
  finish_components,
)

get_elem?-end {ℓ} :
    {A : Type ℓ} (xs : List A) (y : A) (ys : List A) → get_elem? (xs ++ y ∷ ys) (length xs) ≡ some y
get_elem?-end [] y ys = refl
get_elem?-end (x ∷ xs) y ys = get_elem?-end xs y ys

-- Text in front of an integer only shifts its offset.
read_integer-append :
    (xs ys : Bytes) (i : ℕ) → read_integer (xs ++ ys) (length xs + i) ≡ read_integer ys i
unfolding read_integer
read_integer-append xs ys i = elim (Option-cases (get_elem? ys i)) [
  | inl nothing ↦ rw (get_elem?-append xs ys i, read_integer) (rw (nothing, read_integer) refl)
  | inr (len, found) ↦
      let shift : length xs + i + 1 ≡ length xs + (i + 1) = omega arith in
      let cut : length xs + (i + 1) + len - (length xs + (i + 1)) ≡ i + 1 + len - (i + 1) =
        omega arith in
      rw (get_elem?-append xs ys i, found, read_integer)
        (rw (shift, cut, drop-append xs ys (i + 1)) refl)
]

read_integer_here :
    (tag : ℕ) (bs rest : Bytes) → read_integer (tag ∷ length bs ∷ (bs ++ rest)) 1 ≡ bs
unfolding read_integer
read_integer_here tag bs rest =
    let cut : 1 + 1 + length bs - (1 + 1) ≡ length bs = omega arith in
    rw cut (take-length-append bs rest)

read_integer_all : (tag : ℕ) (bs : Bytes) → read_integer (tag ∷ length bs ∷ bs) 1 ≡ bs
read_integer_all tag bs =
    ap (λ (t : Bytes). read_integer (tag ∷ length bs ∷ t) 1) (sym (append-nil bs))
    ∙ read_integer_here tag bs []

parse_s_lem :
    (xs r sb : Bytes) → parse_s (xs ++ 2 ∷ length sb ∷ sb) r (length xs) ≡ finish_components r sb
unfolding parse_s byte_is
parse_s_lem xs r sb =
    rw (get_elem?-end xs 2 (length sb ∷ sb), byte_is)
      (rw (read_integer-append xs (2 ∷ length sb ∷ sb) 1)
        (ap (finish_components r) (read_integer_all 2 sb)))

-- The DER encoding of two integers in range, with any number of zeros in front of them, is
-- read back: the parser succeeds with 32-byte components of the same values.
pub parse-der_encoding :
    (total : ℕ) (rb sb : Bytes)
    → InRange rb
    → InRange sb
    → (r : Bytes) × (s : Bytes) × (parse_der_signature (der_encoding total rb sb) ≡ ok (r, s))
      × (length r ≡ 32)
      × (length s ≡ 32)
      × (be_value r ≡ be_value rb)
      × (be_value s ≡ be_value sb)
unfolding parse_der_signature byte_is read_integer
parse-der_encoding total rb sb h k =
    let cut_r : 4 + length rb - 4 ≡ length rb = omega arith in
    let end_r : 4 + length rb ≡ length (48 ∷ total ∷ 2 ∷ length rb ∷ rb) = omega arith in
    (
      component rb,
      component sb,
      rw (cut_r, take-length-append rb (2 ∷ length sb ∷ sb), end_r)
          (parse_s_lem (48 ∷ total ∷ 2 ∷ length rb ∷ rb) rb sb ∙ finish_ok rb sb h k),
      length-ensure32_bytes (remove_leading_zeros rb),
      length-ensure32_bytes (remove_leading_zeros sb),
      be_value-component rb (omega (arith, h.1)),
      be_value-component sb (omega (arith, k.1)),
    )

finish-components :
    (rb sb r s : Bytes)
    → finish_components rb sb ≡ ok (r, s)
    → (r ≡ component rb) × (s ≡ component sb) × InRange r × InRange s
unfolding finish_components
finish-components rb sb r s h =
    elim (Outcome-cases (validate_signature_components (component rb) (component sb))) [
      | inl (u, good) ↦
          let e : ◌≡◌ {A = Outcome (Bytes × Bytes)} (ok (component rb, component sb)) (ok (r, s)) =
            rw (good, finish_components) at h in
          let e_r : component rb ≡ r = cc in
          let e_s : component sb ≡ s = cc in
          let ranges : InRange (component rb) × InRange (component sb) =
            validate-InRange (component rb) (component sb) good in
          (sym e_r, sym e_s, rw (← e_r) ranges.0, rw (← e_s) ranges.1)
      | inr (inl (message, bad)) ↦ cc (rw (bad, finish_components) at h)
      | inr (inr (code, bad)) ↦ cc (rw (bad, finish_components) at h)
    ]

parse_s-components :
    (sig rb r s : Bytes) (i : ℕ)
    → parse_s sig rb i ≡ ok (r, s)
    → finish_components rb (read_integer sig (i + 1)) ≡ ok (r, s)
unfolding parse_s
parse_s-components sig rb r s i h = ground arith

-- What a successful parse took apart.
parse-components :
    (sig r s : Bytes)
    → parse_der_signature sig ≡ ok (r, s)
    → (len : ℕ) × (get_elem? sig 3 ≡ some len)
      × (r ≡ component (read_integer sig 3))
      × (s ≡ component (read_integer sig (4 + len + 1)))
      × InRange r
      × InRange s
unfolding parse_der_signature
parse-components sig r s h = elim (Option-cases (get_elem? sig 3)) [
  | inl nothing ↦ absurd (ground arith)
  | inr (len, found) ↦
      let parsed : parse_s sig (read_integer sig 3) (4 + len) ≡ ok (r, s) = ground arith in
      let parts =
        finish-components (read_integer sig 3) (read_integer sig (4 + len + 1)) r s
          (parse_s-components sig (read_integer sig 3) r s (4 + len) parsed) in
      (len, found, parts.0, parts.1, parts.2, parts.3)
]

-- A success of the runner's parser gives two components of 32 bytes, each at least 1 and below
-- the order of the group.
pub parse_der_signature_sound :
    (sig r s : Bytes)
    → parse_der_signature sig ≡ ok (r, s)
    → (length r ≡ 32) × (length s ≡ 32) × InRange r × InRange s
parse_der_signature_sound sig r s h =
    let parts = parse-components sig r s h in
    (
      ap length parts.2 ∙ length-ensure32_bytes (remove_leading_zeros (read_integer sig 3)),
      ap length parts.3
          ∙ length-ensure32_bytes (remove_leading_zeros (read_integer sig (4 + parts.0 + 1))),
      parts.4,
      parts.5,
    )

-- Where the runner's parser succeeds, the caller's parser gives the same components.
pub Caller-parse_agrees :
    (sig r s : Bytes)
    → parse_der_signature sig ≡ ok (r, s)
    → Caller.parse_der_signature sig ≡ (r, s)
unfolding Caller.parse_der_signature parse_s_body
Caller-parse_agrees sig r s h =
    let parts = parse-components sig r s h in
    rw
      (
        parts.1,
        parts.2,
        parts.3,
        normalize-eq-ensure32 (read_integer sig 3),
        normalize-eq-ensure32 (read_integer sig (4 + parts.0 + 1)),
      )
      refl
