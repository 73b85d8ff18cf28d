-- ===== src/Bindings/Explorer.antt =====
-- The queries of extra-cpp-bindings/src/lib.rs to the explorers of the chain: BlockScout by its URLs, and
-- Cronoscan by the client of the crate `ethers`, whose requests are parameters. The state is the
-- list of the URLs that were requested, latest last; a body is what it is read as.
pub mod Transfers
use play_cpp_sdk.Prelude.{ℕ, Option, none, some, List, [], ◌∷◌, ◌++◌, map}
use mathlib.Core.Option
use play_cpp_sdk.Prelude.Text.{Text, codes}
use play_cpp_sdk.Rust.Effect.{M, ◌>>=◌, ◌>>◌, pure, modify, or_fail}
use play_cpp_sdk.Rust.Decimal.{to_text, parse_u64}
use play_cpp_sdk.V1.Protocol.{Url}

pub record RawTxDetail : Type 0 where
  pub hash : Text
  pub to_address : Text
  pub from_address : Text
  pub value : Text
  pub block_no : ℕ
  pub timestamp : Text
  pub contract_address : Text

pub record RawTokenResult : Type 0 where
  pub balance : Text
  pub contract_address : Text
  pub decimals : Text
  pub id : Text
  pub name : Text
  pub symbol : Text
  pub token_type : Text

pub record TokenHolderDetail : Type 0 where
  pub address : Text
  pub value : Text

-- The last case is a byte without a name, which C++ can pass.
pub data QueryOption : Type 0 where
  by_contract by_address_and_contract by_address : QueryOption
  other_option : ℕ → QueryOption

pub record RawResponse (R : Type 0) : Type 0 where
  pub message : Text
  pub result : List R
  pub status : Text

pub record RawBlockScoutTransfer : Type 0 where
  pub block_hash : Text
  pub block_number : Text
  pub confirmations : Text
  pub contract_address : Text
  pub cumulative_gas_used : Text
  pub from : Text
  pub gas : Text
  pub gas_price : Text
  pub gas_used : Text
  pub hash : Text
  pub input : Text
  pub log_index : Text
  pub nonce : Text
  pub time_stamp : Text
  pub to : Text
  pub token_decimal : Text
  pub token_name : Text
  pub token_symbol : Text
  pub transaction_index : Text
  pub value : Text

-- An `anyhow::Error`, by where it comes from.
pub data ExplorerError : Type 0 where
  request_failed unsupported_option bad_address : ExplorerError

-- `TryFrom<&RawBlockScoutTransfer>`: `none` where the number of the block is none.
unfoldable pub try_from : RawBlockScoutTransfer → Option RawTxDetail
try_from tx =
    Option.map
      (λ block_no. record {
        hash = tx.hash;
        to_address = tx.to;
        from_address = tx.from;
        value = tx.value;
        block_no = block_no;
        timestamp = tx.time_stamp;
        contract_address = tx.contract_address;
      })
      (parse_u64 tx.block_number)

abbrev pub append_some : Option RawTxDetail → List RawTxDetail → List RawTxDetail
append_some none rest = rest
append_some (some d) rest = d ∷ rest

-- `iter().flat_map(TryInto::try_into).collect()`.
unfoldable pub details_of : List RawBlockScoutTransfer → List RawTxDetail
details_of [] = []
details_of (tx ∷ txs) = append_some (try_from tx) (details_of txs)

-- `reqwest::blocking::get(url)?.json::<RawResponse<R>>()?`, by what the body of a URL is read as.
request :
    {R : Type 0} → (Url → Option (RawResponse R)) → Url → M (List Url) ExplorerError (RawResponse R)
request fetch url = do modify (λ urls. urls ++ url ∷ []); or_fail (fetch url) request_failed

unfoldable pub get_tokens :
    (Url → Option (RawResponse RawTokenResult))
    → Text
    → Text
    → M (List Url) ExplorerError (List RawTokenResult)
unfolding request
get_tokens fetch blockscout_base_url account_address = do
  resp ← request fetch (
      blockscout_base_url ++ (codes "?module=account&action=tokenlist&address=" ++ account_address))
  pure resp.result

-- `none` for an option that BlockScout does not have.
unfoldable pub transfers_url : Text → Text → Text → QueryOption → Option Url
transfers_url blockscout_base_url address contract_address by_address =
    some (blockscout_base_url ++ (codes "?module=account&action=tokentx&address=" ++ address))
transfers_url blockscout_base_url address contract_address by_address_and_contract = some (
    blockscout_base_url
    ++ (codes "?module=account&action=tokentx&address="
        ++ (address ++ (codes "&contractaddress=" ++ contract_address))))
transfers_url blockscout_base_url address contract_address by_contract = none
transfers_url blockscout_base_url address contract_address (other_option b) = none

unfoldable pub get_token_transfers :
    (Url → Option (RawResponse RawBlockScoutTransfer))
    → Text
    → Text
    → Text
    → QueryOption
    → M (List Url) ExplorerError (List RawTxDetail)
unfolding request transfers_url details_of
get_token_transfers fetch blockscout_base_url address contract_address option = do
  blockscout_url ←
      or_fail (transfers_url blockscout_base_url address contract_address option) unsupported_option
  resp ← request fetch blockscout_url
  pure (details_of resp.result)

unfoldable pub get_token_holders :
    (Url → Option (RawResponse TokenHolderDetail))
    → Text
    → Text
    → ℕ
    → ℕ
    → M (List Url) ExplorerError (List TokenHolderDetail)
unfolding request
get_token_holders fetch blockscout_base_url contract_address page offset = do
  resp ← request fetch (
      blockscout_base_url
      ++ (codes "?module=token&action=getTokenHolders&contractaddress="
          ++ (contract_address
              ++ (codes "&page=" ++ (to_text page ++ (codes "&offset=" ++ to_text offset))))))
  pure resp.result
