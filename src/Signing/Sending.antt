-- ===== src/Signing/Sending.antt =====
-- What the search for a transaction's hash finds, and what a pending send of
-- scripts/kms-multisig-signer.js stands for.
use smart_contracts.Base.{
  ℕ, zero, suc, ◌≡◌, refl, inl, inr, true, some, [], ◌∷◌, ◌++◌, ◌==◌, ==_iff, Bool-cases,
  Option-cases, arith, ap, Text, codes, length,
}
use smart_contracts.Script.{Outcome-cases, ok, err}
use smart_contracts.Web3.{NodeApi, MulSigApi}
use smart_contracts.Signing.TxHash.{
  is_hex_digit, hex_digits, strip_prefix, includes, hash_here, find_hash,
}
use smart_contracts.Signing.Signer.{Config, WalletApi, pending, on_send_error, send_transaction}

-- Only the digits 0 to 9 and the letters a to f in both cases.
pub AllHex : Text → Type 0
AllHex [] = Unit {0}
AllHex (c ∷ t) = (is_hex_digit c ≡ true) × AllHex t

strip_prefix-some : (p t rest : Text) → strip_prefix p t ≡ some rest → t ≡ p ++ rest
unfolding strip_prefix
strip_prefix-some [] t rest h = ground arith
strip_prefix-some (a ∷ p) [] rest h = absurd (ground arith)
strip_prefix-some (a ∷ p) (c ∷ t) rest h = elim (Bool-cases (a == c)) [
  | inl e ↦ ground (arith, strip_prefix-some p t rest, ==_iff a c)
  | inr e ↦ absurd (ground arith)
]

hex_digits-some :
    (n : ℕ) (t ds : Text)
    → hex_digits n t ≡ some ds
    → (length ds ≡ n) × AllHex ds × (post : Text) × (t ≡ ds ++ post)
unfolding hex_digits AllHex
hex_digits-some zero t ds h =
    let nothing : [] ≡ ds = ground arith in rw (← nothing) (refl, tt, t, refl)
hex_digits-some (suc n) [] ds h = absurd (ground arith)
hex_digits-some (suc n) (c ∷ t) ds h = elim (Bool-cases (is_hex_digit c)) [
  | inl digit ↦ elim (Option-cases (hex_digits n t)) [
    | inl missing ↦ absurd (ground arith)
    | inr (es, read) ↦
        let (count, hex, post, split) = hex_digits-some n t es read in
        let all : c ∷ es ≡ ds = ground arith in
        rw (← all) (ap suc count, (digit, hex), post, ap (λ (x : Text). c ∷ x) split)
  ]
  | inr other ↦ absurd (ground arith)
]

-- A text that is `pre`, the words before a hash, the hash 0x and 64 digits, and `post`.
pub record HasHash (message hash : Text) : Type 0 where
  pub digits : Text
  pub before : Text
  pub after : Text
  pub count : length digits ≡ 64
  pub hex : AllHex digits
  pub shape : hash ≡ b'0' ∷ b'x' ∷ digits
  pub found : message ≡ before ++ (codes "Transaction Hash: 0x" ++ (digits ++ after))

hash_here-some : (t hash : Text) → hash_here t ≡ some hash → HasHash t hash
unfolding hash_here
hash_here-some t hash h = elim (Option-cases (strip_prefix (codes "Transaction Hash: 0x") t)) [
  | inl missing ↦ absurd (ground arith)
  | inr (rest, stripped) ↦ elim (Option-cases (hex_digits 64 rest)) [
    | inl missing ↦ absurd (ground arith)
    | inr (ds, read) ↦
        let (count, hex, after, split) = hex_digits-some 64 rest ds read in
        record {
          digits = ds;
          before = [];
          after = after;
          count = count;
          hex = hex;
          shape = ground arith;
          found = rw (← split) (strip_prefix-some (codes "Transaction Hash: 0x") t rest stripped);
        }
  ]
]

find_hash-some : (t hash : Text) → find_hash t ≡ some hash → HasHash t hash
unfolding find_hash
find_hash-some [] hash h = hash_here-some [] hash h
find_hash-some (c ∷ t) hash h = elim (Option-cases (hash_here (c ∷ t))) [
  | inl missing ↦
      let later = find_hash-some t hash (ground arith) in
      record {
        digits = later.digits;
        before = c ∷ later.before;
        after = later.after;
        count = later.count;
        hex = later.hex;
        shape = later.shape;
        found = ap (λ (x : Text). c ∷ x) later.found;
      }
  | inr (hash', here) ↦ hash_here-some (c ∷ t) hash (ground arith)
]

-- A send is reported as pending only where the node threw a timeout whose message names the hash.
pub send_transaction_pending :
    {W : Type 0} (config : Config) (node : NodeApi W) (api : MulSigApi W) (wallet : WalletApi W)
    (tx hash : Text) (w w' : W)
    → send_transaction config node api wallet tx w ≡ (ok (pending hash), w')
    → (message : Text) × (node.send_signed_transaction tx w ≡ (err message, w'))
      × (includes (codes "Transaction was not mined within") message ≡ true)
      × HasHash message hash
unfolding send_transaction on_send_error
send_transaction_pending config node api wallet tx hash w w' e =
    elim (Outcome-cases (node.send_signed_transaction tx w).0) [
      | inl (receipt, sent) ↦ absurd (ground arith)
      | inr (inl (m, failed)) ↦
          elim (Bool-cases (includes (codes "Transaction was not mined within") m)) [
            | inl timeout ↦ elim (Option-cases (find_hash m)) [
              | inl missing ↦ absurd (ground arith)
              | inr (h, found) ↦ (m, ground arith, timeout, find_hash-some m hash (ground arith))
            ]
            | inr other ↦ absurd (ground arith)
          ]
      | inr (inr (c, left)) ↦ absurd (ground arith)
    ]
