-- ===== src/Deploying/Tests.antt =====
-- A deployment on a network that always answers; the world is the state in the network's file.
use smart_contracts.Base.{true, false, Option, none, some, [], ◌∷◌, Text, codes}
use smart_contracts.Script.{ok}
use smart_contracts.Deployments.State.{State, FileApi, only_entries}
use smart_contracts.Deployments.Codec.{state_codec}
use smart_contracts.Deploying.Api.{HardhatApi}
use smart_contracts.Deploying.Answers.{Answers}

abbrev World : Type 0
World = Option State

abbrev read_state : Option (State × Text) → Option State
read_state none = none
read_state (some (s, rest)) = some s

abbrev files : FileApi World
files = record {
  exists = λ path w. elim w [ none ↦ false | some s ↦ true ];
  make_directory = λ path w. (ok tt, w);
  read_file = λ path w. (elim w [ none ↦ ok [] | some s ↦ ok (state_codec.enc s []) ], w);
  write_file = λ path content w. (ok tt, read_state (state_codec.dec content));
  now = λ w. codes "2024";
  join = λ a b. b;
  working_directory = codes "/";
  parse = λ t. read_state (state_codec.dec t);
  stringify = λ s. state_codec.enc s [];
}

abbrev hardhat : HardhatApi World Text
hardhat = record {
  network_name = codes "dev";
  get_contract_factory = λ name w. (ok tt, w);
  deploy_proxy = λ name args initializer w. (ok name, w);
  deployment_hash = λ i. codes "0xaa";
  wait_deployment = λ i w. (ok 7, w);
  get_address = λ i w. (ok (codes "0x09"), w);
  attach = λ name address. name;
  send = λ i method args w. (ok (codes "0xbb"), w);
  wait_for = λ hash w. (ok tt, w);
  send_as = λ signer i method args w. (ok (codes "0xcc"), w);
  get_signers = λ w. (ok (codes "0x0a" ∷ []), w);
  get_code = λ a w. (ok (codes "0x60"), w);
  role = λ i name w. (ok name, w);
  has_role = λ i role account w. (ok true, w);
  owner = λ i w. (ok (codes "0x0a"), w);
  to_checksum = λ t. some t;
  env = λ name. none;
}

abbrev stored : World → Option State
stored w = w

-- An entry with nothing in it.
abbrev fresh : State
fresh =
    only_entries
      (record { network = codes "dev"; generated_at = codes "2024"; contracts = [] } ∷ [])
