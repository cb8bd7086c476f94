-- ===== src/Web3/Samples.antt =====
-- A node that always answers, and the multisig contract as the world.
use smart_contracts.Base.{Text, codes, refl}
use smart_contracts.Script.{ok}
use smart_contracts.MulSig
use smart_contracts.MulSig.{MulSig, Address}
use smart_contracts.Web3.{Receipt, NodeApi, MulSigApi, ReadsContract}

abbrev pub receipt : Receipt
receipt = record { transaction_hash = codes "0x05"; block_number = 7; gas_used = 21000 }

abbrev pub node : {W : Type 0} → NodeApi W
node = record {
  net_id = λ w. (ok 5570, w);
  block_number = λ w. (ok 7, w);
  get_gas_price = λ w. (ok 1, w);
  get_transaction_count = λ a w. (ok 3, w);
  get_balance = λ a w. (ok 100, w);
  send_signed_transaction = λ tx w. (ok receipt, w);
  now = λ w. (ok 100, w);
}

abbrev pub address_of : Text → Address
address_of a = 2

abbrev pub api : MulSigApi MulSig
api = record {
  get_signature_count = λ id w. (ok (MulSig.get_signature_count id w), w);
  has_already_signed = λ id a w. (ok (MulSig.has_already_signed id 2 w), w);
  transaction_details = λ id w. (ok (MulSig.transaction_details id w), w);
  estimate_sign_transaction = λ id a w. (ok 50000, w);
  encode_sign_transaction = λ id. codes "0xaa";
}

pub api_reads : ReadsContract api (λ w. w) address_of
api_reads = record {
  reads_count = λ id w. refl;
  reads_signed = λ id a w. refl;
  reads_details = λ id w. refl;
}
