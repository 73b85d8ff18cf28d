-- ===== src/Bindings/History.antt =====
-- The transaction histories of extra-cpp-bindings/src/lib.rs. The client of the explorer Cronoscan and the
-- printing of hashes, addresses and numbers are code of the crate `ethers`, a parameter.
pub mod Details
use play_cpp_sdk.Prelude.{ℕ, Bool, if◌then◌else◌, Option, none, some, List, [], ◌∷◌, map, unwrap_or}
use mathlib.Core.Option
use play_cpp_sdk.Prelude.Text.{Text, Bytes}
use play_cpp_sdk.Rust.Effect.{Result, ok, err, panic}
use play_cpp_sdk.V1.Protocol.{Address}
use play_cpp_sdk.Bindings.Explorer.{
  RawTxDetail, QueryOption, by_contract, by_address_and_contract, by_address, other_option,
  ExplorerError, request_failed, bad_address,
}

pub data BlockNumber : Type 0 where
  latest finalized safe earliest pending : BlockNumber
  number : ℕ → BlockNumber

-- The fields that the code reads; a hash and a sender of the first block are missing.
pub record NormalTransaction : Type 0 where
  pub block_number : BlockNumber
  pub time_stamp : Text
  pub hash : Option Bytes
  pub from : Option Address
  pub to : Option Address
  pub value : ℕ
  pub contract_address : Option Address

pub record Erc20TokenTransferEvent : Type 0 where
  pub block_number : BlockNumber
  pub time_stamp : Text
  pub hash : Bytes
  pub from : Address
  pub to : Option Address
  pub value : ℕ
  pub contract_address : Address

pub record Erc721TokenTransferEvent : Type 0 where
  pub block_number : BlockNumber
  pub time_stamp : Text
  pub hash : Bytes
  pub from : Address
  pub to : Option Address
  pub token_id : ℕ
  pub contract_address : Address

pub data TokenQueryOption : Type 0 where
  of_contract : Address → TokenQueryOption
  of_address_and_contract : Address → Address → TokenQueryOption
  of_address : Address → TokenQueryOption

-- The printing of hashes, addresses and numbers, the reading of addresses, whether a client is made with a
-- key, and the answers to a client with that key.
pub record Etherscan : Type 0 where
  pub print_hash : Bytes → Text
  pub print_address : Address → Text
  pub print_number : ℕ → Text
  pub parse_address : Text → Option Address
  pub new_client : Text → Bool
  pub get_transactions : Text → Address → Option (List NormalTransaction)
  pub get_erc20_events : Text → TokenQueryOption → Option (List Erc20TokenTransferEvent)
  pub get_erc721_events : Text → TokenQueryOption → Option (List Erc721TokenTransferEvent)

-- `Address::default()`.
abbrev pub zero_address : Address
zero_address = 0 ∷ 0 ∷ 0 ∷ 0 ∷ 0 ∷ 0 ∷ 0 ∷ 0 ∷ 0 ∷ 0 ∷ 0 ∷ 0 ∷ 0 ∷ 0 ∷ 0 ∷ 0 ∷ 0 ∷ 0 ∷ 0 ∷ 0 ∷ []

unfoldable pub block_no : BlockNumber → ℕ
block_no (number n) = n
block_no latest = 0
block_no finalized = 0
block_no safe = 0
block_no earliest = 0
block_no pending = 0

infixl 5 ◌>>=◌
abbrev pub ◌>>=◌ :
    {A B : Type 0} → Result ExplorerError A → (A → Result ExplorerError B) → Result ExplorerError B
ok a >>= f = f a
err e >>= f = err e
panic >>= f = panic

abbrev pub or_err : {A : Type 0} → Option A → ExplorerError → Result ExplorerError A
or_err none e = err e
or_err (some a) e = ok a

module _ (e : Etherscan) where
  unfoldable pub from_normal : NormalTransaction → RawTxDetail
  unfolding block_no
  from_normal tx = record {
    hash = unwrap_or (Option.map e.print_hash tx.hash) [];
    to_address = unwrap_or (Option.map e.print_address tx.to) [];
    from_address = unwrap_or (Option.map e.print_address tx.from) [];
    value = e.print_number tx.value;
    block_no = block_no tx.block_number;
    timestamp = tx.time_stamp;
    contract_address = e.print_address (unwrap_or tx.contract_address zero_address);
  }

  unfoldable pub from_erc20 : Erc20TokenTransferEvent → RawTxDetail
  unfolding block_no
  from_erc20 tx = record {
    hash = e.print_hash tx.hash;
    to_address = unwrap_or (Option.map e.print_address tx.to) [];
    from_address = e.print_address tx.from;
    value = e.print_number tx.value;
    block_no = block_no tx.block_number;
    timestamp = tx.time_stamp;
    contract_address = e.print_address tx.contract_address;
  }

  unfoldable pub from_erc721 : Erc721TokenTransferEvent → RawTxDetail
  unfolding block_no
  from_erc721 tx = record {
    hash = e.print_hash tx.hash;
    to_address = unwrap_or (Option.map e.print_address tx.to) [];
    from_address = e.print_address tx.from;
    value = e.print_number tx.token_id;
    block_no = block_no tx.block_number;
    timestamp = tx.time_stamp;
    contract_address = e.print_address tx.contract_address;
  }

  abbrev new_client : Text → Result ExplorerError (Unit {0})
  new_client api_key = if e.new_client api_key then ok tt else err request_failed

  abbrev parsed : Text → Result ExplorerError Address
  parsed s = or_err (e.parse_address s) bad_address

  unfoldable pub get_transaction_history : Text → Text → Result ExplorerError (List RawTxDetail)
  unfolding from_normal
  get_transaction_history address api_key = do
    u ← new_client api_key
    a ← parsed address
    transactions ← or_err (e.get_transactions api_key a) request_failed
    ok (map from_normal transactions)

  unfoldable pub token_query : Text → Text → QueryOption → Result ExplorerError TokenQueryOption
  token_query address contract_address by_contract = do
    c ← parsed contract_address
    ok (of_contract c)
  token_query address contract_address by_address_and_contract = do
    a ← parsed address
    c ← parsed contract_address
    ok (of_address_and_contract a c)
  token_query address contract_address by_address = do a ← parsed address; ok (of_address a)
  token_query address contract_address (other_option b) = do a ← parsed address; ok (of_address a)

  unfoldable pub get_erc20_transfer_history :
      Text → Text → QueryOption → Text → Result ExplorerError (List RawTxDetail)
  unfolding from_erc20 token_query
  get_erc20_transfer_history address contract_address option api_key = do
    u ← new_client api_key
    query ← token_query address contract_address option
    transactions ← or_err (e.get_erc20_events api_key query) request_failed
    ok (map from_erc20 transactions)

  unfoldable pub get_erc721_transfer_history :
      Text → Text → QueryOption → Text → Result ExplorerError (List RawTxDetail)
  unfolding from_erc721 token_query
  get_erc721_transfer_history address contract_address option api_key = do
    u ← new_client api_key
    query ← token_query address contract_address option
    transactions ← or_err (e.get_erc721_events api_key query) request_failed
    ok (map from_erc721 transactions)
