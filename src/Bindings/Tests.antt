-- ===== src/Bindings/Tests.antt =====
-- A small registry, and runs of the bindings for C++.
pub mod Services
pub mod Clients
use play_cpp_sdk.Prelude.{none, some, [], ◌∷◌}
use play_cpp_sdk.Prelude.Text.{Text, codes}
use play_cpp_sdk.V1.Protocol.{pos}
use play_cpp_sdk.Rust.Decimal.{parse_u64}
use play_cpp_sdk.Bindings.Registry.{Listing, Registry, wallet, WalletEntry, entry}
use play_cpp_sdk.Bindings.Transactions.{Parsers, WalletConnectTxEip155, TransactionRequest}

abbrev pub listing : Text → Text → Listing
listing id link = record {
  id = id;
  name = id;
  description = none;
  homepage = [];
  chains = [];
  versions = [];
  sdks = [];
  app_type = wallet;
  image_id = [];
  image_url = record { sm = []; md = []; lg = [] };
  app = record {
    browser = none;
    ios = none;
    android = none;
    mac = none;
    windows = none;
    linux = none;
  };
  mobile = record { native = some link; universal = none };
  desktop = record { native = none; universal = none };
  metadata = record { short_name = none; colors = record { primary = none; secondary = none } };
}

abbrev pub registry : Registry
registry = record {
  listings =
      (codes "a", listing (codes "a") []) ∷ (codes "b", listing (codes "b") (codes "b:")) ∷ [];
  count = pos 2;
  total = pos 2;
}

abbrev pub found : WalletEntry
found = entry (listing (codes "b") (codes "b:"))

abbrev pub parsers : Parsers
parsers = record { parse_address = λ t. some t; from_dec_str = parse_u64 }

abbrev pub userinfo : WalletConnectTxEip155
userinfo = record {
  to = codes "0x01";
  value = codes "7";
  contents = [];
  common = record {
    gas_limit = codes "21000";
    gas_price = [];
    nonce = codes "3";
    chainid = 25;
    web3api_url = [];
  };
}

abbrev pub request : TransactionRequest
request = record {
  to = some (codes "0x01");
  contents = none;
  gas = some 21000;
  max_priority_fee_per_gas = none;
  max_fee_per_gas = none;
  nonce = some 3;
  chain_id = none;
  value = some 7;
}
