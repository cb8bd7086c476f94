-- ===== src/Proposing/Setup.antt =====
-- scripts/execute-setup-crosschain-tokens.js: the mappings of both chains. Each chain has its own
-- node and contracts.
use smart_contracts.Base.{Text, codes}
use smart_contracts.Script.{Script, exit_with, try_catch, ◌>>◌}
use smart_contracts.Web3.{NodeApi, MulSigApi}
use smart_contracts.Proposing.Api.{ChainApi}
use smart_contracts.Proposing.Crosschain.{ChainAddresses, Addresses, setup_crosschain_tokens}

abbrev pub treasurenet_chain : ChainAddresses
treasurenet_chain = record {
  unit = codes "0x0000000000000000000000000000000000000000";
  tcash = codes "0x830f39E20F0aB5e54C3EA2A0Acd3139Cc1c3698A";
  bridge = codes "0xCBD6B4FCfbcBfEbE60c11Ce035054824c0A63AC6";
}

abbrev pub ethereum_chain : ChainAddresses
ethereum_chain = record {
  unit = codes "0x8Fc8d557D73a718ee3485ed82d19a46B7912a6CF";
  tcash = codes "0x53819C1F1752F46Ccd5FC062DD7FaF764C514f55";
  bridge = codes "0xdC5AEA0014a2ff768F60f39A357F15a6D070f8C9";
}

-- `config.treasurenet`
abbrev pub treasurenet : Addresses
treasurenet = record {
  source_network_name = codes "treasurenet";
  source_chain = treasurenet_chain;
  source_chain_id = 6666;
  target_chain = ethereum_chain;
  target_chain_id = 6566;
}

-- `config.ethereum`
abbrev pub ethereum : Addresses
ethereum = record {
  source_network_name = codes "ethereum";
  source_chain = ethereum_chain;
  source_chain_id = 6566;
  target_chain = treasurenet_chain;
  target_chain_id = 6666;
}

-- What a script reaches over the address of one node.
pub record Network (W : Type 0) : Type 0 where
  pub node : NodeApi W
  pub mulsig : MulSigApi W
  pub chain : ChainApi W

module _ {W : Type 0} (role : Text) (home away : Network W) where
  -- `main`, which ends the process on an error, and the exit behind it.
  unfoldable pub execute_setup : Script W (Unit {0})
  execute_setup =
      try_catch
        (do
          setup_crosschain_tokens home.node home.mulsig home.chain role treasurenet
          setup_crosschain_tokens away.node away.mulsig away.chain role ethereum)
        (λ _. exit_with 1)
      >> exit_with 0
