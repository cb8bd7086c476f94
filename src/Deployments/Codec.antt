-- ===== src/Deployments/Codec.antt =====
-- A codec of states, which the tests take in place of JSON: it reads back what it wrote.
use smart_contracts.Base.{ℕ, zero, suc, ◌≡◌, refl, Option, none, some, List, [], ◌∷◌, Text, length}
use smart_contracts.Deployments.State.{Deployed, Entry, State}

-- `enc a rest` writes `a` in front of `rest`.
pub record Codec (A : Type 0) : Type 0 where
  pub enc : A → Text → Text
  pub dec : Text → Option (A × Text)
  pub law : (a : A) (rest : Text) → dec (enc a rest) ≡ some (a, rest)

-- The rest of a decoder, on what a first decoder read.
abbrev and_then :
    {A B : Type 0} → Option (A × Text) → (A → Text → Option (B × Text)) → Option (B × Text)
and_then none f = none
and_then (some (a, rest)) f = f a rest

abbrev read_number : Text → Option (ℕ × Text)
read_number [] = none
read_number (n ∷ rest) = some (n, rest)

abbrev number_codec : Codec ℕ
number_codec = record { enc = λ n rest. n ∷ rest; dec = read_number; law = λ n rest. refl }

module _ {A B : Type 0} (c : Codec A) (to : B → A) (from : A → B)
    (back : (b : B) → from (to b) ≡ b) where
  pub as_law :
      (b : B) (rest : Text)
      → and_then (c.dec (c.enc (to b) rest)) (λ a rest'. some (from a, rest')) ≡ some (b, rest)
  as_law b rest = let read = c.law (to b) rest in rw (read, back b) refl

  abbrev as_codec : Codec B
  as_codec = record {
    enc = λ b rest. c.enc (to b) rest;
    dec = λ t. and_then (c.dec t) (λ a rest. some (from a, rest));
    law = as_law;
  }

module _ {A B : Type 0} (c : Codec A) (d : Codec B) where
  pub pair_law :
      (p : A × B) (rest : Text)
      → and_then
          (c.dec (c.enc p.0 (d.enc p.1 rest)))
          (λ a t. and_then (d.dec t) (λ b t'. some ((a, b), t')))
        ≡ some (p, rest)
  pair_law (a, b) rest =
      let first = c.law a (d.enc b rest) in let second = d.law b rest in rw (first, second) refl

  abbrev pair_codec : Codec (A × B)
  pair_codec = record {
    enc = λ p rest. c.enc p.0 (d.enc p.1 rest);
    dec = λ t. and_then (c.dec t) (λ a t'. and_then (d.dec t') (λ b t''. some ((a, b), t'')));
    law = pair_law;
  }

module _ {A : Type 0} (c : Codec A) where
  abbrev write_option : Option A → Text → Text
  write_option none rest = 0 ∷ rest
  write_option (some a) rest = 1 ∷ c.enc a rest

  abbrev read_option : Text → Option (Option A × Text)
  read_option [] = none
  read_option (zero ∷ rest) = some (none, rest)
  read_option (suc n ∷ rest) = and_then (c.dec rest) (λ a rest'. some (some a, rest'))

  pub option_law : (o : Option A) (rest : Text) → read_option (write_option o rest) ≡ some (o, rest)
  option_law none rest = refl
  option_law (some a) rest = let read = c.law a rest in rw read refl

  abbrev option_codec : Codec (Option A)
  option_codec = record { enc = write_option; dec = read_option; law = option_law }

  abbrev write_all : List A → Text → Text
  write_all [] rest = rest
  write_all (a ∷ as') rest = c.enc a (write_all as' rest)

  abbrev read_all : ℕ → Text → Option (List A × Text)
  read_all zero t = some ([], t)
  read_all (suc n) t =
      and_then (c.dec t) (λ a t'. and_then (read_all n t') (λ as' t''. some (a ∷ as', t'')))

  pub all_law :
      (as' : List A) (rest : Text) → read_all (length as') (write_all as' rest) ≡ some (as', rest)
  all_law [] rest = refl
  all_law (a ∷ as') rest =
      let read = c.law a (write_all as' rest) in let more = all_law as' rest in rw (read, more) refl

  abbrev list_codec : Codec (List A)
  list_codec = record {
    enc = λ as' rest. length as' ∷ write_all as' rest;
    dec = λ t. and_then (read_number t) read_all;
    law = all_law;
  }

abbrev text_codec : Codec Text
text_codec = list_codec number_codec

abbrev deployed_codec : Codec Deployed
deployed_codec =
    as_codec
      (pair_codec text_codec (pair_codec (option_codec number_codec) (option_codec text_codec)))
      (λ (d : Deployed). (d.address, (d.block, d.tx)))
      (λ p. record { address = p.0; block = p.1.0; tx = p.1.1 }) (λ d. refl)

abbrev entry_codec : Codec Entry
entry_codec =
    as_codec
      (pair_codec text_codec
        (pair_codec text_codec (list_codec (pair_codec text_codec deployed_codec))))
      (λ (e : Entry). (e.network, (e.generated_at, e.contracts)))
      (λ p. record { network = p.0; generated_at = p.1.0; contracts = p.1.1 }) (λ e. refl)

abbrev pub state_codec : Codec State
state_codec =
    as_codec
      (pair_codec
        (pair_codec (option_codec (list_codec entry_codec))
          (option_codec (list_codec (pair_codec text_codec text_codec))))
        (pair_codec
          (pair_codec (option_codec (list_codec (pair_codec text_codec number_codec)))
            (option_codec (list_codec (pair_codec text_codec text_codec))))
          (pair_codec (option_codec text_codec) (option_codec text_codec))))
      (λ (s : State). ((s.entries, s.addresses), ((s.blocks, s.txs), (s.network, s.generated_at))))
      (λ p. record {
        entries = p.0.0;
        addresses = p.0.1;
        blocks = p.1.0.0;
        txs = p.1.0.1;
        network = p.1.1.0;
        generated_at = p.1.1.1;
      })
      (λ s. refl)
