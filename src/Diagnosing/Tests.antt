-- ===== src/Diagnosing/Tests.antt =====
-- A check of proxies on a chain whose proxies all have an admin.
use smart_contracts.Base.{ℕ, some, [], ◌∷◌, true, Text, codes}
use smart_contracts.Script.{ok, Script}
use smart_contracts.Diagnosing.Api.{ReadApi}
use smart_contracts.Diagnosing.CheckAdmin.{ManifestApi, Manifest}

abbrev World : Type 0
World = Unit {0}

abbrev chain : ReadApi World
chain = record {
  add_account = λ w. (ok (codes "0x0a"), w);
  load_abi = λ name w. (ok tt, w);
  get_storage_at = λ a slot w. (ok (codes "0x00"), w);
  get_code = λ a w. (ok (codes "0x60"), w);
  admin = λ a w. (ok (codes "0x0b"), w);
  implementation = λ a w. (ok (codes "0x0c"), w);
  to_checksum_address = λ a. ok a;
}

abbrev estimate : Text → Text → Script World ℕ
estimate producer manager w = (ok 30000, w)

abbrev manifest : Manifest
manifest = record { admin = some (codes "0x0b"); proxies = [] }

-- One file, that of the network 6666.
abbrev files : ManifestApi World
files = record {
  exists = λ w. true;
  read_directory = λ w. (ok (codes "unknown-6666.json" ∷ codes "mainnet.json" ∷ []), w);
  read_file = λ name w. (ok (codes "{}"), w);
  parse = λ content. some manifest;
}
