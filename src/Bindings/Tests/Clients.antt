-- ===== src/Bindings/Tests/Clients.antt =====
-- Runs of the client that C++ holds.
use play_cpp_sdk.Prelude.{◌≡◌, refl, true, false, Option, none, some, List, [], ◌∷◌, ◌++◌, arith}
use mathlib.Core.Option
use play_cpp_sdk.Prelude.Text.{Text, Bytes, codes}
use play_cpp_sdk.Prelude.Assoc.{lookup}
use play_cpp_sdk.Rust.Effect.{ok}
use play_cpp_sdk.Rust.Decimal.{parse_u64}
use play_cpp_sdk.Tests.{hex}
use play_cpp_sdk.Hex.{IsBytes}
use play_cpp_sdk.V1.Protocol.{Address}
use play_cpp_sdk.V1.Crypto.{seal}
use play_cpp_sdk.V1.Session.{SessionInfo, ClientChannelMessageType, connecting, connected}
use play_cpp_sdk.V1.Context.{World, insert_pending, open_oneshot, enqueue}
use play_cpp_sdk.V1.Client.{Client}
use play_cpp_sdk.V1.Tests.{ciphers, sixteen, serde, idle, waits, info}
use play_cpp_sdk.Middleware.{
  TypedTransaction, TxObject, address, tx_object, get_field, quantity, read_signature,
}
use play_cpp_sdk.Middleware.Signatures.{Holds}
use play_cpp_sdk.Middleware.Tests.{ethers, transaction}
use play_cpp_sdk.Bindings.Transactions.{TransactionRequest, eip155_request, bitwise_not}
use play_cpp_sdk.Bindings.Callbacks.{
  WalletConnectSessionInfo, Texts, CppCall, on_connected, on_connecting, setup_callback,
}
use play_cpp_sdk.Bindings.Client.{Holder}
use play_cpp_sdk.Bindings.Callbacks.Reports.{
  sent, absent, Shows, calls_connecting, calls_connected, Told, told, told_none,
  setup_callback-Told,
}
use play_cpp_sdk.Bindings.Client.Signing.{
  Transactions, Contracts, ContractAction, contract_approval, Exchange, prepare, construct,
  sign_eip155_transaction, sign_contract_transaction,
}
use play_cpp_sdk.Bindings.Client.Signing.Prepared.{IsLawful}
use play_cpp_sdk.Bindings.Client.Signing.Asked.{
  ask, SignedByWallet, sign_eip155_transaction_asks, sign_contract_transaction_ok,
}
use play_cpp_sdk.Bindings.Tests.{parsers, userinfo, request}

abbrev texts : Texts
texts = record {
  print_address = λ a. a;
  read_session_info = λ t. some info;
  write_session_info = λ i. some i.client_id;
  write_metadata = λ m. some m.name;
  write_peer_metadata = λ m. some [];
}

abbrev told_info : WalletConnectSessionInfo
told_info = record {
  chainid = [];
  connected = false;
  accounts = [];
  bridge = codes "http";
  key = codes "0x" ++ hex.encode_crate (sixteen ++ sixteen);
  clientid = codes "own";
  clientmeta = codes "app";
  peerid = [];
  peermeta = [];
  handshaketopic = codes "hand";
}

abbrev events : List (ClientChannelMessageType × SessionInfo)
events = (connecting, info) ∷ (connected, info) ∷ []

abbrev told_calls : List CppCall
told_calls = on_connecting told_info ∷ on_connected told_info ∷ []

info_shown : Shows hex texts info told_info
info_shown = record {
  chainid = absent;
  connected = refl;
  accounts = refl;
  bridge = refl;
  key = refl;
  clientid = refl;
  clientmeta = refl;
  peerid = absent;
  peermeta = absent;
  handshaketopic = refl;
}

events_told : Told hex texts events told_calls
events_told =
    told told_info (on_connecting told_info) _ info_shown calls_connecting
      (told told_info (on_connected told_info) _ info_shown calls_connected told_none)

setup_callback-Told_example : setup_callback hex texts (sent events) ≡ (true, told_calls)
setup_callback-Told_example = setup_callback-Told hex texts events told_calls events_told

key-IsBytes : IsBytes info.key.raw
key-IsBytes = ground arith

-- The same session with a peer that has no name.
abbrev nameless : SessionInfo
nameless = record info { peer_id = some [] }

-- A transaction that is what its accessors return.
abbrev transactions : Transactions TypedTransaction Text
transactions = record {
  view = λ tx. tx;
  eip1559 = λ r. record {
    to = Option.map address r.to;
    contents = r.contents;
    gas = r.gas;
    gas_price = r.max_fee_per_gas;
    value = r.value;
    nonce = r.nonce;
    chain_id = r.chain_id;
  };
  set_nonce = λ n tx. record tx { nonce = some n };
  set_from = λ a tx. tx;
  set_chain_id = λ n tx. record tx { chain_id = some n };
  set_gas = λ n tx. record tx { gas = some n };
  set_gas_price = λ n tx. record tx { gas_price = some n };
  rlp_signed = λ tx signature. signature;
}

transactions-IsLawful : IsLawful transactions
transactions-IsLawful = record {
  view-eip1559 = λ r. (r.max_fee_per_gas, refl);
  view-set_nonce = λ n tx. refl;
  view-set_from = λ a tx. refl;
  view-set_chain_id = λ n tx. refl;
  view-set_gas = λ n tx. refl;
  view-set_gas_price = λ n tx. (some n, refl);
}

abbrev sender : Address
sender = codes "0x1"

abbrev prepared : TypedTransaction
prepared = record transaction { nonce = some 3; gas = some 21000 }

-- Actions that are their own transactions.
abbrev contracts : Contracts TypedTransaction Text Text
contracts = record {
  read_request = λ t. some request;
  read_action = λ t. some (contract_approval t);
  construct_approval = λ a chain_id url. some transaction;
  construct_transfer = λ a chain_id url. none;
}

-- Every request is written as nothing, and the wallet answers at once.
abbrev exchange : Exchange
exchange = record {
  resolve_name = λ t w. (w, ok t);
  write = λ r. some [];
  read_bytes = λ v. some v;
  read_hash = λ v. some v;
  await = waits;
  iv = sixteen;
  random = 3;
}

abbrev client : Client
client = record { connection = idle; callback_channel = none }

abbrev signed_holder : Holder
signed_holder =
    (sign_eip155_transaction serde ciphers ethers hex transactions parsers contracts exchange
      userinfo sender (some client)).0

sign_eip155_transaction_asks_example :
    (tx : TransactionRequest) × (eip155_request parsers userinfo ≡ some tx)
    × ((obj : TxObject) × (answer : Bytes) × (signature : Text) × (w' : World) × (ask serde ciphers
            ethers hex transactions parsers contracts exchange
            (codes "eth_signTransaction")
            (obj ∷ [])
            client.connection
          ≡ (w', ok answer))
        × Holds ethers hex answer signature
        × ((codes "answer") ≡ transactions.rlp_signed (transactions.eip1559 tx) signature)
        × (get_field (codes "gas") obj ≡ Option.map (quantity ethers hex) tx.gas)
        × (get_field (codes "nonce") obj ≡ Option.map (quantity ethers hex) tx.nonce)
        × (get_field (codes "value") obj ≡ Option.map (quantity ethers hex) tx.value)
        × (get_field (codes "chainId") obj ≡ none))
unfolding sign_eip155_transaction eip155_request bitwise_not parse_u64 tx_object read_signature
    insert_pending lookup open_oneshot seal enqueue
sign_eip155_transaction_asks_example =
    sign_eip155_transaction_asks serde ciphers ethers hex transactions parsers contracts exchange
      userinfo sender client signed_holder (codes "answer") transactions-IsLawful (omega arith) refl

sign_contract_transaction_ok_example :
    (action : ContractAction Text Text) × (typedtx : TypedTransaction) × (tx : TypedTransaction)
    × (contracts.read_action (codes "{}") ≡ some action)
    × (construct serde ciphers ethers hex transactions parsers contracts exchange userinfo.common
          action
        ≡ some typedtx)
    × (prepare transactions parsers userinfo.common sender typedtx ≡ some tx)
    × SignedByWallet serde ciphers ethers hex transactions parsers contracts exchange client tx
        sender
        (codes "answer")
unfolding sign_contract_transaction prepare sign_eip155_transaction eip155_request bitwise_not
    parse_u64 tx_object read_signature insert_pending lookup open_oneshot seal enqueue
sign_contract_transaction_ok_example =
    sign_contract_transaction_ok serde ciphers ethers hex transactions parsers contracts exchange
      (codes "{}") userinfo.common sender client signed_holder (codes "answer") refl
